-- ===== src/Scan/Zeros.antt =====
-- Where a decoded 0 comes from: the string holds an escape for it.
use bt_server.Prelude.{
  ℕ, ◌≡◌, ◌⊎◌, inl, inr, refl, sym, ap, List, [], ◌∷◌, Bool, true, false, ◌&&◌, ◌||◌, Option, none,
  some, arith, ◌==◌, if◌then◌else◌, Bool-cases,
}
use mathlib.Core.Path.{subst, ◌∙◌}
use mathlib.Core.Bool.{false≢true}
use bt_server.Scan.{
  continues, fromhex, Scan, scanned, failed, ended, overrun, push, stop, Escape, decodes,
  bad_escape, unescape, scan_loop, skipvalue, scan_value, scan_terminator,
}
use bt_server.Scan.Decode.{IsFlag, scan_loop-stop, scan_loop-plain}
use bt_server.Scan.Bounds.{scan_round}
use bt_server.Scan.Terminators.{terminator-stops}

abbrev pub has_zero : List ℕ → Bool
has_zero [] = false
has_zero (c ∷ s) = c == 0 || has_zero s

abbrev pub decodes_zero : Escape → Bool
decodes_zero (decodes b) = b == 0
decodes_zero bad_escape = false

-- Whether a '%' and two digits for 0 stand in the string, as in "%00".
abbrev pub escapes_zero : List ℕ → Bool
escapes_zero [] = false
escapes_zero (c ∷ []) = false
escapes_zero (c ∷ h ∷ []) = false
escapes_zero (c ∷ h ∷ l ∷ s) =
    (c == b'%' && decodes_zero (unescape h l)) || escapes_zero (h ∷ l ∷ s)

pub escapes_later : (c : ℕ) (s : List ℕ) → escapes_zero s ≡ true → escapes_zero (c ∷ s) ≡ true
escapes_later c [] h = absurd (false≢true h)
escapes_later c (x ∷ []) h = absurd (false≢true h)
escapes_later c (x ∷ y ∷ s) h = ground (arith, h)

-- An escape for 0 in what is left, and a 0 among what was decoded, come from one in the string.
abbrev pub Tells : List ℕ → Scan → Type 0
Tells s (scanned rest decoded) =
    (escapes_zero rest ≡ true → escapes_zero s ≡ true)
    × (has_zero decoded ≡ true → escapes_zero s ≡ true)
Tells s failed = Unit
Tells s ended = Unit
Tells s overrun = Unit

Tells-if :
    (s : List ℕ) (b : Bool) (x y : Scan) → Tells s x → Tells s y → Tells s (if b then x else y)
Tells-if s true x y p q = p
Tells-if s false x y p q = q

stop-Tells : (flags : ℕ) (b : Bool) (c : ℕ) (s : List ℕ) → Tells (c ∷ s) (stop flags b c s)
unfolding stop
stop-Tells flags b c s =
    let t = c ∷ s in
    let here : Tells t (scanned t []) = (λ e. e, λ e. absurd (false≢true e)) in
    let later : Tells t (scanned s []) = (escapes_later c s, λ e. absurd (false≢true e)) in
    Tells-if t (c == 0 || c == b'\r' || c == b'\n' || c == b' ') _ _ (Tells-if t b _ _ tt here) (
      Tells-if t (c == b'?') _ _ (Tells-if t (flags == 1) _ _ later tt) (
        Tells-if t (c == b'=') _ _ (Tells-if t (flags == 2) _ _ later tt) (
          Tells-if t (c == b'&') _ _
            (Tells-if t (flags == 1) _ _ tt (Tells-if t (flags == 2) _ _ here later)) tt)))

either : (a b : Bool) → (a || b) ≡ true → (a ≡ true) ⊎ (b ≡ true)
either true b h = inl refl
either false b h = inr h

push-Tells :
    (c : ℕ) (s t : List ℕ) (r : Scan)
    → ((c == 0) ≡ true → escapes_zero s ≡ true)
    → (escapes_zero t ≡ true → escapes_zero s ≡ true)
    → Tells t r
    → Tells s (push c r)
push-Tells c s t (scanned rest decoded) zero later h = (
  λ e. later (h.0 e),
  λ e. elim (either (c == 0) (has_zero decoded) e) [ inl k ↦ zero k | inr k ↦ later (h.1 k) ],
)
push-Tells c s t failed zero later h = tt
push-Tells c s t ended zero later h = tt
push-Tells c s t overrun zero later h = tt

-- A character that is not the end of a part is no 0.
plain_nonzero :
    (flags c : ℕ) (s : List ℕ)
    → IsFlag flags
    → continues flags c ≡ true
    → (c == 0) ≡ true
    → escapes_zero s ≡ true
plain_nonzero flags c s f go z =
    let e : c ≡ 0 = ground (arith, z) in
    absurd (false≢true (sym (terminator-stops flags 0 refl f) ∙ ap (continues flags) (sym e) ∙ go))

decoded_here :
    (flags c x y : ℕ) (s : List ℕ) (z : ℕ)
    → (c == b'%') ≡ true
    → unescape x y ≡ decodes z
    → (z == 0) ≡ true
    → escapes_zero (c ∷ x ∷ y ∷ s) ≡ true
decoded_here flags c x y s z percent e zero = rw (percent, e, zero) refl

scan_loop-cut_short :
    (flags : ℕ) (b : Bool) (c : ℕ) → continues flags c ≡ true → scan_loop flags b (c ∷ []) ≡ overrun
unfolding scan_loop
scan_loop-cut_short flags b c go = rw go refl

scan_loop-cut_escape :
    (flags : ℕ) (b : Bool) (c x : ℕ)
    → continues flags c ≡ true
    → (c == b'%') ≡ true
    → scan_loop flags b (c ∷ x ∷ []) ≡ (if fromhex x == 0xff then failed else overrun)
unfolding scan_loop
scan_loop-cut_escape flags b c x go percent = ground arith

cut_escape-Tells :
    (flags : ℕ) (b : Bool) (c x : ℕ)
    → continues flags c ≡ true
    → (c == b'%') ≡ true
    → Tells (c ∷ x ∷ []) (scan_loop flags b (c ∷ x ∷ []))
cut_escape-Tells flags b c x go percent =
    subst (Tells (c ∷ x ∷ [])) (sym (scan_loop-cut_escape flags b c x go percent))
      (Tells-if (c ∷ x ∷ []) (fromhex x == 0xff) failed overrun tt tt)

pub scan_loop-Tells :
    (flags : ℕ) (b : Bool) (s : List ℕ) → IsFlag flags → Tells s (scan_loop flags b s)
unfolding scan_loop
scan_loop-Tells flags b [] f = tt
scan_loop-Tells flags b (c ∷ []) f = elim (Bool-cases (continues flags c)) [
  | inl go ↦ rw (scan_loop-cut_short flags b c go) tt
  | inr e ↦ subst (Tells (c ∷ [])) (sym (scan_loop-stop flags b c [] e)) (stop-Tells flags b c [])
]
scan_loop-Tells flags b (c ∷ x ∷ []) f = elim (Bool-cases (continues flags c)) [
  | inr e ↦
      subst (Tells (c ∷ x ∷ [])) (sym (scan_loop-stop flags b c (x ∷ []) e))
        (stop-Tells flags b c (x ∷ []))
  | inl go ↦ elim (Bool-cases (c == b'%')) [
    | inl percent ↦ cut_escape-Tells flags b c x go percent
    | inr other ↦ subst (Tells (c ∷ x ∷ [])) (sym (scan_loop-plain flags b c x [] go other)) (
        push-Tells c (c ∷ x ∷ []) (x ∷ []) _ (plain_nonzero flags c (c ∷ x ∷ []) f go)
          (escapes_later c (x ∷ [])) (scan_loop-Tells flags false (x ∷ []) f))
  ]
]
scan_loop-Tells flags b (c ∷ x ∷ y ∷ s) f =
    let t = c ∷ x ∷ y ∷ s in
    scan_round (Tells t) flags b c x y s (λ e. stop-Tells flags b c (x ∷ y ∷ s))
      (λ e q.
        push-Tells c t (x ∷ y ∷ s) _ (plain_nonzero flags c t f e) (escapes_later c (x ∷ y ∷ s))
          (scan_loop-Tells flags false (x ∷ y ∷ s) f))
      (λ z k m e.
        push-Tells z t s _ (λ w. decoded_here flags c x y s z m e w)
          (λ h. escapes_later c (x ∷ y ∷ s) (escapes_later x (y ∷ s) (escapes_later y s h)))
          (scan_loop-Tells flags false s f))
      tt

-- The same for a value that is skipped.
abbrev pub SkipTells : List ℕ → Option (List ℕ) → Type 0
SkipTells s none = Unit
SkipTells s (some t) = escapes_zero t ≡ true → escapes_zero s ≡ true

skip_later : (c : ℕ) (s : List ℕ) (o : Option (List ℕ)) → SkipTells s o → SkipTells (c ∷ s) o
skip_later c s none h = tt
skip_later c s (some t) h = λ e. escapes_later c s (h e)

pub skipvalue-SkipTells : (s : List ℕ) → SkipTells s (skipvalue s)
unfolding skipvalue
skipvalue-SkipTells [] = tt
skipvalue-SkipTells (c ∷ s) = elim (Bool-cases (continues scan_value c)) [
  | inl go ↦ rw (go, skipvalue, SkipTells) (skip_later c s (skipvalue s) (skipvalue-SkipTells s))
  | inr halt ↦ elim (Bool-cases (continues scan_terminator c)) [
    | inl e ↦ rw (halt, e, skipvalue, SkipTells) (λ k. k)
    | inr e ↦ rw (halt, e, skipvalue, SkipTells) (escapes_later c s)
  ]
]
