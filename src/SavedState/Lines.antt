-- ===== src/SavedState/Lines.antt =====
-- What `load_state` reads in a line that `fullscrape_make` has written.
use bt_server.Prelude.{
  ℕ, zero, suc, ◌+◌, ◌*◌, ◌/◌, ◌%◌, ◌^◌, ◌<◌, ◌≡◌, refl, sym, ap, ◌∙◌, List, [], ◌∷◌, ◌++◌, map,
  false, Option, some, arith, ◌==◌, length, length-append, length-map, get_or, drop,
}
use bt_server.Prelude.All.{All}
use bt_server.Prelude.Append.{append_assoc}
use bt_server.Prelude.Decimal.{ascii_digit, value_from, is_digit, big_bytes, IsFigure}
use mathlib.Core.Path.{subst}
use bt_server.Http.Handlers.{big_endian}
use bt_server.Fullscrape.{to_hex, hex_digits}
use bt_server.SavedState.{line_of, scan_hash, scan_field, scan_counts}

-- No end of a line in it.
abbrev pub IsInLine : ℕ → Type 0
IsInLine c = (c == 10) ≡ false

pub line_of-append :
    (k : ℕ) (s rest : List ℕ)
    → length s < k
    → All IsInLine s
    → line_of k (s ++ (10 ∷ rest)) ≡ (s ++ (10 ∷ []), rest)
unfolding line_of
line_of-append zero s rest h inside = absurd (omega (arith, h))
line_of-append (suc k) [] rest h inside = refl
line_of-append (suc k) (c ∷ s) rest h inside =
    rw (inside.0, line_of-append k s rest (omega (arith, h)) inside.1)

pub All-append : (P : ℕ → Type 0) (xs ys : List ℕ) → All P xs → All P ys → All P (xs ++ ys)
All-append P [] ys h k = k
All-append P (x ∷ xs) ys h k = (h.0, All-append P xs ys h.1 k)

hex_digit_inside : (i : ℕ) (ds : List ℕ) → All IsInLine ds → IsInLine (get_or ds i 0)
hex_digit_inside i [] h = refl
hex_digit_inside zero (d ∷ ds) h = h.0
hex_digit_inside (suc i) (d ∷ ds) h = hex_digit_inside i ds h.1

hex_digits_inside : All IsInLine hex_digits
hex_digits_inside = (
  refl,
  (
    refl,
    (
      refl,
      (
        refl,
        (
          refl,
          (
            refl,
            (refl, (refl, (refl, (refl, (refl, (refl, (refl, (refl, (refl, (refl, tt)))))))))),
          ),
        ),
      ),
    ),
  ),
)

pub to_hex_inside : (s : List ℕ) → All IsInLine (to_hex s)
unfolding to_hex
to_hex_inside [] = tt
to_hex_inside (b ∷ bs) = (
  hex_digit_inside (b / 16) hex_digits hex_digits_inside,
  (hex_digit_inside (b % 16) hex_digits hex_digits_inside, to_hex_inside bs),
)

pub ascii_inside : (ds : List ℕ) → All IsInLine (map ascii_digit ds)
ascii_inside [] = tt
ascii_inside (d ∷ ds) = (ground arith, ascii_inside ds)

abbrev pub IsByte : ℕ → Type 0
IsByte b = b < 256

pub big_bytes-IsByte : (k n : ℕ) → All IsByte (big_bytes k n)
unfolding big_bytes
big_bytes-IsByte zero n = tt
big_bytes-IsByte (suc k) n =
    All-append IsByte (big_bytes k (n / 256)) ((n % 256) ∷ []) (big_bytes-IsByte k (n / 256))
      (omega arith, tt)

big_endian-append :
    (xs : List ℕ) (b n : ℕ) → big_endian (xs ++ (b ∷ [])) n ≡ big_endian xs n * 256 + b
unfolding big_endian
big_endian-append [] b n = refl
big_endian-append (x ∷ xs) b n = big_endian-append xs b (n * 256 + x)

pub big_endian-big_bytes : (k n : ℕ) → n < 256 ^ k → big_endian (big_bytes k n) 0 ≡ n
unfolding big_bytes big_endian
big_endian-big_bytes zero n h = omega (arith, h)
big_endian-big_bytes (suc k) n h = omega (
  arith,
  big_endian-append (big_bytes k (n / 256)) (n % 256) 0,
  big_endian-big_bytes k (n / 256) (omega (arith, h)),
)

get_or-after : (xs ys : List ℕ) (c : ℕ) → get_or (xs ++ (c ∷ ys)) (length xs) 0 ≡ c
get_or-after [] ys c = refl
get_or-after (x ∷ xs) ys c = get_or-after xs ys c

drop-after : (xs ys : List ℕ) (c : ℕ) → drop (suc (length xs)) (xs ++ (c ∷ ys)) ≡ ys
drop-after [] ys c = refl
drop-after (x ∷ xs) ys c = drop-after xs ys c

module _ (scan_fromhex : ℕ → Option ℕ)
    (hex : (v : ℕ) → v < 16 → scan_fromhex (get_or hex_digits v 0) ≡ some v) where
  pub scan_hash-to_hex :
      (old bytes rest : List ℕ)
      → length old ≡ length bytes
      → All IsByte bytes
      → scan_hash scan_fromhex old (to_hex bytes ++ rest) ≡ bytes
  unfolding scan_hash to_hex
  scan_hash-to_hex [] [] rest same small = refl
  scan_hash-to_hex [] (b ∷ bytes) rest same small = absurd (omega (arith, same))
  scan_hash-to_hex (o ∷ old) [] rest same small = absurd (omega (arith, same))
  scan_hash-to_hex (o ∷ old) (b ∷ bytes) rest same small =
      rw
        (
          hex (b / 16) (omega (arith, small.0)),
          hex (b % 16) (omega arith),
          scan_hash-to_hex old bytes rest (omega (arith, same)) small.1,
        )
        (ap (λ n. n ∷ bytes) (omega (arith, small.0)))

module _ (scan_ulonglong : List ℕ → ℕ × ℕ)
    (decimal : (ds : List ℕ) (c : ℕ) (rest : List ℕ)
      → 0 < length ds
      → All IsFigure ds
      → value_from 0 ds < 2 ^ 64
      → is_digit c ≡ false
      → scan_ulonglong (map ascii_digit ds ++ (c ∷ rest)) ≡ (length ds, value_from 0 ds)) where
  scan_field-number :
      (xs ds ys : List ℕ) (c : ℕ)
      → 0 < length ds
      → All IsFigure ds
      → value_from 0 ds < 2 ^ 64
      → is_digit c ≡ false
      → scan_field scan_ulonglong (xs ++ (58 ∷ (map ascii_digit ds ++ (c ∷ ys)))) (length xs)
        ≡ some (length xs + 1 + length ds, value_from 0 ds)
  unfolding scan_field
  scan_field-number xs ds ys c some_ds figures small end =
      rw
        (
          get_or-after xs (map ascii_digit ds ++ (c ∷ ys)) 58,
          drop-after xs (map ascii_digit ds ++ (c ∷ ys)) 58,
          decimal ds c ys some_ds figures small end,
        )
        (ground (arith, some_ds))

  -- Two numbers behind a hash of 40 digits.
  pub scan_counts-numbers :
      (hs ds es ys : List ℕ)
      → length hs ≡ 40
      → (0 < length ds) × All IsFigure ds × (value_from 0 ds < 2 ^ 64)
      → (0 < length es) × All IsFigure es × (value_from 0 es < 2 ^ 64)
      → scan_counts scan_ulonglong
          (hs ++ (58 ∷ (map ascii_digit ds ++ (58 ∷ (map ascii_digit es ++ (10 ∷ ys))))))
        ≡ some (value_from 0 ds, value_from 0 es)
  unfolding scan_counts
  scan_counts-numbers hs ds es ys forty d e =
      let rest = 58 ∷ (map ascii_digit es ++ (10 ∷ ys)) in
      let xs = hs ++ (58 ∷ map ascii_digit ds) in
      let buf = hs ++ (58 ∷ (map ascii_digit ds ++ rest)) in
      let first : scan_field scan_ulonglong buf 40 ≡ some (40 + 1 + length ds, value_from 0 ds) =
        subst (λ n. scan_field scan_ulonglong buf n ≡ some (n + 1 + length ds, value_from 0 ds))
          forty (scan_field-number hs ds (map ascii_digit es ++ (10 ∷ ys)) 58 d.0 d.1 d.2 refl) in
      let behind : length xs ≡ 40 + 1 + length ds =
        omega
          (arith, forty, length-append hs (58 ∷ map ascii_digit ds), length-map ds ascii_digit) in
      let second =
        subst
          (λ w.
            scan_field scan_ulonglong w (length xs)
            ≡ some (length xs + 1 + length es, value_from 0 es))
          (append_assoc hs (58 ∷ map ascii_digit ds) rest)
          (scan_field-number xs es ys 10 e.0 e.1 e.2 refl) in
      let third : scan_field scan_ulonglong buf (40 + 1 + length ds)
          ≡ some (40 + 1 + length ds + 1 + length es, value_from 0 es) =
        subst (λ n. scan_field scan_ulonglong buf n ≡ some (n + 1 + length es, value_from 0 es))
          behind second in
      rw (first, third) refl

-- The line of a torrent, joined in two ways.
opened_line :
    (h a d rest : List ℕ)
    → (h ++ (58 ∷ (a ++ (58 ∷ d)))) ++ rest ≡ h ++ (58 ∷ (a ++ (58 ∷ (d ++ rest))))
opened_line h a d rest =
    append_assoc h (58 ∷ (a ++ (58 ∷ d))) rest
    ∙ ap (λ w. h ++ (58 ∷ w)) (append_assoc a (58 ∷ d) rest)

pub joined_line :
    (h a d rest : List ℕ)
    → (h ++ (58 ∷ (a ++ (58 ∷ (d ++ (10 ∷ [])))))) ++ rest
      ≡ (h ++ (58 ∷ (a ++ (58 ∷ d)))) ++ (10 ∷ rest)
joined_line h a d rest =
    opened_line h a (d ++ (10 ∷ [])) rest
    ∙ ap (λ w. h ++ (58 ∷ (a ++ (58 ∷ w)))) (append_assoc d (10 ∷ []) rest)
    ∙ sym (opened_line h a d (10 ∷ rest))

pub buffered_line :
    (h a d rest : List ℕ)
    → ((h ++ (58 ∷ (a ++ (58 ∷ d)))) ++ (10 ∷ [])) ++ rest
      ≡ h ++ (58 ∷ (a ++ (58 ∷ (d ++ (10 ∷ rest)))))
buffered_line h a d rest =
    append_assoc (h ++ (58 ∷ (a ++ (58 ∷ d)))) (10 ∷ []) rest ∙ opened_line h a d (10 ∷ rest)
