-- ===== src/Scan/Decode.antt =====
-- Percent-encoding and its decoding.

use bt_server.Prelude.{
  ℕ, ◌+◌, ◌/◌, ◌%◌, ◌<◌, ◌≡◌, refl, ap, ◌∙◌, List, [], ◌∷◌, ◌++◌, Bool, true, false, arith, ◌⊎◌,
  inl, inr, ltb, ◌==◌, if◌then◌else◌,
}
use bt_server.Prelude.All.{All}
use bt_server.Prelude.Bytes.{on_bytes, on_bytes_at, passes_below}
use bt_server.Scan.{
  continues, fromhex, scanned, failed, push, stop, Escape, decodes, bad_escape, unescape, scan_loop,
  scan_urlencoded_query, scan_path, scan_param, scan_value,
}

-- An upper-case hexadecimal digit.
unfoldable pub hex_digit : ℕ → ℕ
hex_digit n = if ltb n 10 then n + 48 else n + 55

-- Every byte as "%XX".
unfoldable pub percent_encode : List ℕ → List ℕ
percent_encode [] = []
percent_encode (b ∷ bs) = b'%' ∷ hex_digit (b / 16) ∷ hex_digit (b % 16) ∷ percent_encode bs

abbrev pub IsFlag : ℕ → Type 0
IsFlag flags = (flags ≡ scan_path) ⊎ (flags ≡ scan_param) ⊎ (flags ≡ scan_value)

is_decoded : ℕ → Escape → Bool
is_decoded b (decodes c) = c == b
is_decoded b bad_escape = false

is_decoded-eq : (b : ℕ) (e : Escape) → is_decoded b e ≡ true → e ≡ decodes b
unfolding is_decoded
is_decoded-eq b (decodes c) h = ground arith
is_decoded-eq b bad_escape h = cc

escape_table :
    on_bytes (λ b. is_decoded b (unescape (hex_digit (b / 16)) (hex_digit (b % 16)))) ≡ true
unfolding passes_below is_decoded unescape fromhex hex_digit
escape_table = refl

unescape-hex_digit :
    (b : ℕ) → b < 256 → unescape (hex_digit (b / 16)) (hex_digit (b % 16)) ≡ decodes b
unescape-hex_digit b h = is_decoded-eq b _ (on_bytes_at _ b h escape_table)

continues-percent : (flags : ℕ) → IsFlag flags → continues flags b'%' ≡ true
unfolding continues
continues-percent flags (inl e) = rw e
continues-percent flags (inr (inl e)) = rw e
continues-percent flags (inr (inr e)) = rw e

stops-space : (flags : ℕ) → IsFlag flags → continues flags b' ' ≡ false
unfolding continues
stops-space flags (inl e) = rw e
stops-space flags (inr (inl e)) = rw e
stops-space flags (inr (inr e)) = rw e

-- The steps of the loop.
pub scan_loop-stop :
    (flags : ℕ) (at_start : Bool) (c : ℕ) (s : List ℕ)
    → continues flags c ≡ false
    → scan_loop flags at_start (c ∷ s) ≡ stop flags at_start c s
unfolding scan_loop
scan_loop-stop flags at_start c [] h = rw h
scan_loop-stop flags at_start c (x ∷ []) h = ground arith
scan_loop-stop flags at_start c (x ∷ y ∷ s) h = ground arith

pub scan_loop-plain :
    (flags : ℕ) (at_start : Bool) (c x : ℕ) (s : List ℕ)
    → continues flags c ≡ true
    → (c == b'%') ≡ false
    → scan_loop flags at_start (c ∷ x ∷ s) ≡ push c (scan_loop flags false (x ∷ s))
unfolding scan_loop
scan_loop-plain flags at_start c x [] k e = ground arith
scan_loop-plain flags at_start c x (y ∷ s) k e = ground arith

pub scan_loop-bad_escape :
    (flags : ℕ) (at_start : Bool) (c h l : ℕ) (s : List ℕ)
    → continues flags c ≡ true
    → (c == b'%') ≡ true
    → unescape h l ≡ bad_escape
    → scan_loop flags at_start (c ∷ h ∷ l ∷ s) ≡ failed
unfolding scan_loop
scan_loop-bad_escape flags at_start c h l s k e q = ground arith

pub scan_loop-escape :
    (flags : ℕ) (at_start : Bool) (c h l b : ℕ) (s : List ℕ)
    → continues flags c ≡ true
    → (c == b'%') ≡ true
    → unescape h l ≡ decodes b
    → scan_loop flags at_start (c ∷ h ∷ l ∷ s) ≡ push b (scan_loop flags false s)
unfolding scan_loop
scan_loop-escape flags at_start c h l b s k e q = ground arith

abbrev AllBytes : List ℕ → Type 0
AllBytes = All (λ b. b < 256)

scan_loop-percent_encode :
    (flags : ℕ) (bs rest : List ℕ)
    → IsFlag flags
    → AllBytes bs
    → scan_loop flags false (percent_encode bs ++ (b' ' ∷ rest)) ≡ scanned (b' ' ∷ rest) bs
unfolding percent_encode stop
scan_loop-percent_encode flags [] rest f h =
    scan_loop-stop flags false b' ' rest (stops-space flags f)
scan_loop-percent_encode flags (b ∷ bs) rest f h =
    scan_loop-escape flags false b'%' (hex_digit (b / 16)) (hex_digit (b % 16)) b
      (percent_encode bs ++ (b' ' ∷ rest)) (continues-percent flags f) refl
      (unescape-hex_digit b h.0)
    ∙ ap (push b) (scan_loop-percent_encode flags bs rest f h.1)

-- Decoding undoes percent-encoding: in a path, a parameter's name or its value, any one or more
-- bytes that are encoded and then followed by a space come back whole, and the scan stops in front of
-- the space.
pub scan-percent_encode :
    (flags b : ℕ) (bs rest : List ℕ)
    → IsFlag flags
    → AllBytes (b ∷ bs)
    → scan_urlencoded_query flags (percent_encode (b ∷ bs) ++ (b' ' ∷ rest))
      ≡ scanned (b' ' ∷ rest) (b ∷ bs)
unfolding percent_encode
scan-percent_encode flags b bs rest f h =
    unfold scan_urlencoded_query in
    scan_loop-escape flags true b'%' (hex_digit (b / 16)) (hex_digit (b % 16)) b
      (percent_encode bs ++ (b' ' ∷ rest)) (continues-percent flags f) refl
      (unescape-hex_digit b h.0)
    ∙ ap (push b) (scan_loop-percent_encode flags bs rest f h.1)
