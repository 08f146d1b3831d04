-- ===== src/Http/Ends.antt =====
-- How scanning a value may end: a step forward, an error, or a fault that has its cause.
use bt_server.Prelude.{
  ℕ, ◌+◌, ◌≤◌, ◌<◌, ◌≡◌, refl, List, [], ◌∷◌, Bool, true, false, Option, none, some, arith, length,
  ◌⊎◌, inl, inr, ◌==◌, Bool-cases,
}
use bt_server.Prelude.Int.{ℤ}
use bt_server.Scan.{
  Scan, scanned, failed, ended, overrun, scan_urlencoded_query, scan_value, scan_param, skipvalue,
  continues, scan_terminator, push, stop, scan_loop,
}
use bt_server.Scan.Bounds.{HasEnd, InPlace, scan_round}
use bt_server.Scan.Zeros.{SkipTells, skipvalue-SkipTells}
use bt_server.Http.Queries.{Query, Stands, Within, Cause, scan_urlencoded_query-Within}
use bt_server.Scan.Number.{scan_fixed_int}
use bt_server.Http.{
  Outcome, parsed, error, faulted, ◌>>=◌, check, HttpError, scan_text, scan_number, text_of,
  number_of,
}

-- A skipped value ends in front of a newline.
abbrev Inside : List ℕ → Option (List ℕ) → Type 0
Inside s none = ⊥
Inside s (some t) = HasEnd b'\n' t × (length t ≤ length s)

skipvalue-newline : (s : List ℕ) → skipvalue (b'\n' ∷ s) ≡ some (b'\n' ∷ s)
unfolding skipvalue continues
skipvalue-newline s = refl

pub skipvalue-amp : (s : List ℕ) → skipvalue (b'&' ∷ s) ≡ some s
unfolding skipvalue continues
skipvalue-amp s = refl

skipvalue-later :
    (c : ℕ) (s : List ℕ)
    → HasEnd b'\n' s
    → Inside s (skipvalue s)
    → Inside (c ∷ s) (skipvalue (c ∷ s))
unfolding skipvalue
skipvalue-later c s h later = elim (Bool-cases (continues scan_value c)) [
  | inl go ↦ rw (go, skipvalue, Inside) (weaker (skipvalue s) later)
  | inr halt ↦ elim (Bool-cases (continues scan_terminator c)) [
    | inl e ↦ rw (halt, e, skipvalue, Inside) (inr h, omega arith)
    | inr e ↦ rw (halt, e, skipvalue, Inside) (h, omega arith)
  ]
]
  where
    weaker : (o : Option (List ℕ)) → Inside s o → Inside (c ∷ s) o
    weaker none k = k
    weaker (some t) k = (k.0, omega (arith, k.1))

skipvalue-Inside : (s : List ℕ) → HasEnd b'\n' s → Inside s (skipvalue s)
skipvalue-Inside [] h = absurd h
skipvalue-Inside (c ∷ s) (inl z) = rw (z, skipvalue-newline s, Inside) (inl refl, omega arith)
skipvalue-Inside (c ∷ s) (inr h) = skipvalue-later c s h (skipvalue-Inside s h)

module _ (q : Query) where
  abbrev pub Ends : {A : Type 0} → (A → Type 0) → Outcome A → Type 0
  Ends P (parsed a) = P a
  Ends P (error c) = Unit
  Ends P (faulted x) = Cause q x

  pub >>=-Ends :
      {A B : Type 0} (P : A → Type 0) (Q : B → Type 0) (m : Outcome A) (f : A → Outcome B)
      → Ends P m
      → ((a : A) → P a → Ends Q (f a))
      → Ends Q (m >>= f)
  >>=-Ends P Q (parsed a) f h k = k a h
  >>=-Ends P Q (error c) f h k = tt
  >>=-Ends P Q (faulted x) f h k = h

  pub check-Ends : (b : Bool) (c : HttpError) → Ends (λ u. b ≡ true) (check b c)
  check-Ends true c = refl
  check-Ends false c = tt

  -- A next position inside the string of length `n`, behind at least as many characters as were decoded.
  abbrev pub Text : ℕ → List ℕ × List ℕ → Type 0
  Text n (rest, word) = Stands q rest × (length rest + length word ≤ n) × (0 < length word)

  text_of-Ends :
      (s : List ℕ) (r : Scan) → Within q r → InPlace s r → Ends (Text (length s)) (text_of r)
  text_of-Ends s (scanned rest []) h k = tt
  text_of-Ends s (scanned rest (c ∷ cs)) h k = (h.0, k, omega arith)
  text_of-Ends s failed h k = tt
  text_of-Ends s ended h k = tt
  text_of-Ends s overrun h k = absurd h

  pub scan_text-Ends : (s : List ℕ) → Stands q s → Ends (Text (length s)) (scan_text s)
  unfolding scan_text
  scan_text-Ends s h =
      let r = scan_urlencoded_query-Within q scan_value s (inr (inr refl)) h in
      text_of-Ends s (scan_urlencoded_query scan_value s) r.0 r.1

  number_of-Ends : q.numbers ≡ true → (o : Option (ℕ × ℤ)) → Ends (λ r. Unit) (number_of o)
  number_of-Ends reads none = reads
  number_of-Ends reads (some r) = tt

  pub scan_number-Ends : q.numbers ≡ true → (word : List ℕ) → Ends (λ r. Unit) (scan_number word)
  unfolding scan_number
  scan_number-Ends reads word = number_of-Ends reads (scan_fixed_int word (length word))

  -- After skipping a value the position is inside the string, and not further back.
  abbrev pub Skips : List ℕ → Option (List ℕ) → Type 0
  Skips s none = ⊥
  Skips s (some t) = Stands q t × (length t ≤ length s)

  told-Skips :
      (s : List ℕ) (o : Option (List ℕ)) → Stands q s → Inside s o → SkipTells s o → Skips s o
  told-Skips s none h k t = k
  told-Skips s (some next) h k t = ((k.0, λ e. h.1 (t e)), k.1)

  pub skipvalue-Skips : (s : List ℕ) → Stands q s → Skips s (skipvalue s)
  skipvalue-Skips s h =
      told-Skips s (skipvalue s) h (skipvalue-Inside s h.0) (skipvalue-SkipTells s)

-- A parameter without characters: the scan has passed a character, or stands before an '&'.
abbrev pub Advances : List ℕ → Scan → Type 0
Advances s (scanned rest []) = (length rest < length s) ⊎ ((t : List ℕ) × (rest ≡ b'&' ∷ t))
Advances s (scanned rest (d ∷ ds)) = Unit
Advances s failed = Unit
Advances s ended = Unit
Advances s overrun = Unit

push-Advances : (c : ℕ) (s : List ℕ) (r : Scan) → Advances s (push c r)
push-Advances c s (scanned rest ds) = tt
push-Advances c s failed = tt
push-Advances c s ended = tt
push-Advances c s overrun = tt

stop-Advances : (c : ℕ) (s : List ℕ) → Advances (c ∷ s) (stop scan_param true c s)
unfolding stop
stop-Advances c s = elim (Bool-cases (c == b'&')) [
  | inl e ↦ let amp : c ≡ b'&' = ground arith in rw (amp, stop, Advances) (inr (s, refl))
  | inr e ↦ ground (arith, e)
]

pub scan_loop-Advances : (s : List ℕ) → Advances s (scan_loop scan_param true s)
unfolding scan_loop
scan_loop-Advances [] = tt
scan_loop-Advances (c ∷ []) = ground (arith, stop-Advances c [])
scan_loop-Advances (c ∷ x ∷ []) = ground (
  arith,
  stop-Advances c (x ∷ []),
  push-Advances c (c ∷ x ∷ []) (scan_loop scan_param false (x ∷ [])),
)
scan_loop-Advances (c ∷ x ∷ y ∷ s) =
    scan_round (Advances (c ∷ x ∷ y ∷ s)) scan_param true c x y s (λ e. stop-Advances c (x ∷ y ∷ s))
      (λ e q. push-Advances c (c ∷ x ∷ y ∷ s) _) (λ z k m e. push-Advances z (c ∷ x ∷ y ∷ s) _) tt
