-- ===== src/Scan/Number.antt =====
-- `scan_fixed_int` of src/scan_urlencoded_query.c. A string is the list of its characters as bytes, as
-- far as the buffer goes.
use bt_server.Prelude.{
  ℕ, zero, suc, ◌+◌, ◌-◌, ◌*◌, ◌%◌, ◌^◌, ◌≤◌, ◌<◌, ◌≡◌, refl, ap, ◌∙◌, List, [], ◌∷◌, ◌++◌, map,
  Bool, false, ◌&&◌, Option, none, some, arith, length, ltb, leb, ◌==◌, if◌then◌else◌, ◌⊎◌, inl,
  inr, Bool-cases, ltb→lt,
}
use bt_server.Prelude.Int.{ℤ, pos, ◌-ℤ◌}
use bt_server.Prelude.All.{All}

abbrev pub is_digit : ℕ → Bool
is_digit c = leb b'0' c && leb c b'9'

-- The loop: what is left of `len`, and `*tmp`. `none` is a read behind the buffer or an overflow of
-- the signed sum `10**tmp + *data++`.
unfoldable pub digits_loop : List ℕ → ℕ → ℕ → Option (ℕ × ℕ)
digits_loop [] len tmp = if len == 0 then some (0, tmp) else none
digits_loop (c ∷ s) len tmp =
    let rest = digits_loop s (len - 1) (10 * tmp + c - b'0') in
    if len == 0
    then some (0, tmp)
    else if is_digit c
    then if ltb (10 * tmp + c) (2 ^ 31) then rest else none
    else some (len, tmp)

-- A minus sign in front also counts in `len`, a `size_t`.
abbrev pub negated : Option (ℕ × ℕ) → Option (ℕ × ℤ)
negated none = none
negated (some (len, n)) = some (len, pos 0 -ℤ pos n)

abbrev pub unsigned : Option (ℕ × ℕ) → Option (ℕ × ℤ)
unsigned none = none
unsigned (some (len, n)) = some (len, pos n)

-- The returned rest of `len`, and `*tmp`.
unfoldable pub scan_fixed_int : List ℕ → ℕ → Option (ℕ × ℤ)
scan_fixed_int [] len = none
scan_fixed_int (c ∷ s) len =
    if c == b'-'
    then negated (digits_loop s ((len + (2 ^ 64 - 1)) % 2 ^ 64) 0)
    else unsigned (digits_loop (c ∷ s) len 0)

-- A digit at its decimal place.
unfoldable pub at_place : ℕ → ℕ → ℕ
at_place zero d = d
at_place (suc k) d = 10 * at_place k d

-- The value of decimal digits.
unfoldable pub value_of : List ℕ → ℕ
value_of [] = 0
value_of (d ∷ ds) = at_place (length ds) d + value_of ds

abbrev pub AreDigits : List ℕ → Type 0
AreDigits = All (λ d. d < 10)

abbrev pub as_text : List ℕ → List ℕ
as_text ds = map (λ d. d + b'0') ds

-- A number ends with `len` or in front of another character.
abbrev pub EndsAt : ℕ → List ℕ → Type 0
EndsAt extra [] = extra ≡ 0
EndsAt extra (c ∷ t) = (extra ≡ 0) ⊎ (is_digit c ≡ false)

at_place_step : (k tmp d : ℕ) → at_place k (10 * tmp + d) ≡ 10 * at_place k tmp + at_place k d
unfolding at_place
at_place_step zero tmp d = refl
at_place_step (suc k) tmp d = omega (arith, at_place_step k tmp d)

at_place-le : (k d : ℕ) → d ≤ at_place k d
unfolding at_place
at_place-le zero d = omega arith
at_place-le (suc k) d = omega (arith, at_place-le k d)

at_place_zero : (k : ℕ) → at_place k 0 ≡ 0
unfolding at_place
at_place_zero zero = refl
at_place_zero (suc k) = omega (arith, at_place_zero k)

digits_loop-step :
    (d : ℕ) (s : List ℕ) (len tmp : ℕ)
    → d < 10
    → 10 * tmp + d + 48 < 2 ^ 31
    → digits_loop ((d + b'0') ∷ s) (suc len) tmp ≡ digits_loop s len (10 * tmp + d)
unfolding digits_loop
digits_loop-step d s len tmp h small =
    let same_len : suc len - 1 ≡ len = omega arith in
    let same_sum : 10 * tmp + (d + b'0') - b'0' ≡ 10 * tmp + d = omega arith in
    let next : digits_loop s (suc len - 1) (10 * tmp + (d + b'0') - b'0')
        ≡ digits_loop s len (10 * tmp + d) =
      cc in
    ground (arith, next)

digits_loop-end :
    (s : List ℕ) (extra tmp : ℕ) → EndsAt extra s → digits_loop s extra tmp ≡ some (extra, tmp)
unfolding digits_loop
digits_loop-end [] extra tmp h = ground (arith, h)
digits_loop-end (c ∷ s) extra tmp (inl h) = ground (arith, h)
digits_loop-end (c ∷ s) extra tmp (inr h) = ground (arith, h)

digits_loop-value :
    (ds rest : List ℕ) (extra tmp : ℕ)
    → AreDigits ds
    → EndsAt extra rest
    → at_place (length ds) tmp + value_of ds < 10 ^ 9
    → digits_loop (as_text ds ++ rest) (length ds + extra) tmp
      ≡ some (extra, at_place (length ds) tmp + value_of ds)
unfolding value_of at_place
digits_loop-value [] rest extra tmp h e small =
    let start : 0 + extra ≡ extra = omega arith in
    let value : tmp + 0 ≡ tmp = omega arith in cc (digits_loop-end rest extra tmp e, start, value)
digits_loop-value (d ∷ ds) rest extra tmp h e small =
    let k = length ds in
    let sum = at_place_step k tmp d in
    let le = at_place-le k (10 * tmp + d) in
    let step =
      digits_loop-step d (as_text ds ++ rest) (k + extra) tmp h.0 (omega (arith, small, sum, le)) in
    let rest_is =
      digits_loop-value ds rest extra (10 * tmp + d) h.1 e (omega (arith, small, sum)) in
    let total : at_place k (10 * tmp + d) + value_of ds
        ≡ 10 * at_place k tmp + (at_place k d + value_of ds) =
      omega (arith, sum) in
    let longer : suc k + extra ≡ suc (k + extra) = omega arith in cc (step, rest_is, total, longer)

unsigned_text :
    (d : ℕ) (s : List ℕ) (len : ℕ)
    → d < 10
    → scan_fixed_int ((d + b'0') ∷ s) len ≡ unsigned (digits_loop ((d + b'0') ∷ s) len 0)
unfolding scan_fixed_int
unsigned_text d s len h = ground arith

scan_fixed_int-value :
    (d : ℕ) (ds rest : List ℕ) (extra : ℕ)
    → AreDigits (d ∷ ds)
    → EndsAt extra rest
    → value_of (d ∷ ds) < 10 ^ 9
    → suc (length ds) + extra + 1 < 2 ^ 64
    → let text = as_text (d ∷ ds) ++ rest in
      let len = suc (length ds) + extra in
      (scan_fixed_int text len ≡ some (extra, pos (value_of (d ∷ ds))))
      × (scan_fixed_int (b'-' ∷ text) (len + 1) ≡ some (extra, pos 0 -ℤ pos (value_of (d ∷ ds))))
unfolding scan_fixed_int
scan_fixed_int-value d ds rest extra h e small fits =
    let text = as_text (d ∷ ds) ++ rest in
    let len = suc (length ds) + extra in
    let zero_in_front = at_place_zero (suc (length ds)) in
    let read = digits_loop-value (d ∷ ds) rest extra 0 h e (omega (arith, small, zero_in_front)) in
    let value : at_place (suc (length ds)) 0 + value_of (d ∷ ds) ≡ value_of (d ∷ ds) =
      omega (arith, zero_in_front) in
    let shorter : (len + 1 + (2 ^ 64 - 1)) % 2 ^ 64 ≡ len = omega arith in
    let whole : digits_loop text len 0 ≡ some (extra, value_of (d ∷ ds)) = cc (read, value) in
    (
      unsigned_text d (as_text ds ++ rest) len h.0 ∙ ap unsigned whole,
      ap negated (ap (λ n. digits_loop text n 0) shorter ∙ whole),
    )

digits_loop-too_large :
    (d : ℕ) (s : List ℕ) (len tmp : ℕ)
    → d < 10
    → 2 ^ 31 ≤ 10 * tmp + d + 48
    → digits_loop ((d + b'0') ∷ s) (suc len) tmp ≡ none
unfolding digits_loop
digits_loop-too_large d s len tmp h large = ground arith

digits_loop-overflow :
    (ds rest : List ℕ) (extra tmp : ℕ)
    → AreDigits ds
    → tmp < 2 ^ 31
    → 2 ^ 31 ≤ at_place (length ds) tmp + value_of ds
    → digits_loop (as_text ds ++ rest) (length ds + extra) tmp ≡ none
unfolding value_of at_place
digits_loop-overflow [] rest extra tmp h fits large = absurd (omega arith)
digits_loop-overflow (d ∷ ds) rest extra tmp h fits large =
    let k = length ds in
    let longer : suc k + extra ≡ suc (k + extra) = omega arith in
    elim (Bool-cases (ltb (10 * tmp + d + 48) (2 ^ 31))) [
      | inl small ↦
          let step =
            digits_loop-step d (as_text ds ++ rest) (k + extra) tmp h.0 (ltb→lt _ _ small) in
          let rest_is =
            digits_loop-overflow ds rest extra (10 * tmp + d) h.1 (ground (arith, small))
              (omega (arith, large, at_place_step k tmp d)) in
          cc (step, rest_is, longer)
      | inr big ↦
          let step =
            digits_loop-too_large d (as_text ds ++ rest) (k + extra) tmp h.0
              (ground (arith, big)) in
          cc (step, longer)
    ]

scan_fixed_int_overflow :
    (d : ℕ) (ds rest : List ℕ) (extra : ℕ)
    → AreDigits (d ∷ ds)
    → 2 ^ 31 ≤ value_of (d ∷ ds)
    → scan_fixed_int (as_text (d ∷ ds) ++ rest) (suc (length ds) + extra) ≡ none
unfolding scan_fixed_int
scan_fixed_int_overflow d ds rest extra h large =
    unsigned_text d (as_text ds ++ rest) (suc (length ds) + extra) h.0
    ∙ ap unsigned (
        digits_loop-overflow (d ∷ ds) rest extra 0 h (omega arith)
          (omega (arith, large, at_place_zero (suc (length ds)))))

-- What becomes of digits: they are read whole, or they overflow `*tmp`.
abbrev pub Reads : ℕ → ℕ → List ℕ → ℕ → Type 0
Reads value len text extra =
    ((value < 10 ^ 9)
      × ((scan_fixed_int text len ≡ some (extra, pos value))
          × (scan_fixed_int (b'-' ∷ text) (len + 1) ≡ some (extra, pos 0 -ℤ pos value))))
    ⊎ ((2 ^ 31 ≤ value) × (scan_fixed_int text len ≡ none))

-- Decimal digits, followed by the end of `len` or by another character, whose value is below 10 ^ 9, are
-- read whole, without a read behind the buffer and without an overflow: `*tmp` is their value, negated
-- where a minus sign is in front, and what is left of `len` is returned. Where their value is 2 ^ 31 or
-- more, they overflow the signed `*tmp`.
pub scan_fixed_int-Reads :
    (d : ℕ) (ds rest : List ℕ) (extra : ℕ)
    → AreDigits (d ∷ ds)
    → EndsAt extra rest
    → suc (length ds) + extra + 1 < 2 ^ 64
    → (value_of (d ∷ ds) < 10 ^ 9) ⊎ (2 ^ 31 ≤ value_of (d ∷ ds))
    → Reads (value_of (d ∷ ds)) (suc (length ds) + extra) (as_text (d ∷ ds) ++ rest) extra
scan_fixed_int-Reads d ds rest extra h e fits (inl small) =
    inl (small, scan_fixed_int-value d ds rest extra h e small fits)
scan_fixed_int-Reads d ds rest extra h e fits (inr large) =
    inr (large, scan_fixed_int_overflow d ds rest extra h large)
