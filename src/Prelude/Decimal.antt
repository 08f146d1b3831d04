-- ===== src/Prelude/Decimal.antt =====
-- Numbers as text and as bytes: what `%zd` of `sprintf` prints, and the bytes of a hash.
use bt_server.Prelude.{
  ℕ, zero, suc, ◌+◌, ◌-◌, ◌*◌, ◌/◌, ◌%◌, ◌^◌, ◌≤◌, ◌<◌, ◌≡◌, refl, List, [], ◌∷◌, ◌++◌, map, Bool,
  arith, ltb, leb, ◌&&◌, if◌then◌else◌, length, length-append, length-map, Bool-cases, inl, inr,
}
use bt_server.Prelude.All.{All}

-- The digits of a number of no more than so many.
unfoldable pub digits : ℕ → ℕ → List ℕ
digits zero n = []
digits (suc k) n = if ltb n 10 then n ∷ [] else digits k (n / 10) ++ ((n % 10) ∷ [])

abbrev pub ascii_digit : ℕ → ℕ
ascii_digit d = 48 + d

-- `%zd` of a number of 64 bits, which it reads as signed.
unfoldable pub zd : ℕ → List ℕ
zd n =
    if ltb n (2 ^ 63)
    then map ascii_digit (digits 20 n)
    else 45 ∷ map ascii_digit (digits 20 (2 ^ 64 - n))

-- The number with these digits after those of `n`.
abbrev pub value_from : ℕ → List ℕ → ℕ
value_from n [] = n
value_from n (d ∷ ds) = value_from (n * 10 + d) ds

abbrev pub is_digit : ℕ → Bool
is_digit c = leb 48 c && leb c 57

-- The bytes of a number, the greatest first.
unfoldable pub big_bytes : ℕ → ℕ → List ℕ
big_bytes zero n = []
big_bytes (suc k) n = big_bytes k (n / 256) ++ ((n % 256) ∷ [])

pub length-big_bytes : (k n : ℕ) → length (big_bytes k n) ≡ k
unfolding big_bytes
length-big_bytes zero n = refl
length-big_bytes (suc k) n =
    omega
      (arith, length-append (big_bytes k (n / 256)) ((n % 256) ∷ []), length-big_bytes k (n / 256))

pub length-digits : (k n : ℕ) → length (digits k n) ≤ k
unfolding digits
length-digits zero n = omega arith
length-digits (suc k) n = elim (Bool-cases (ltb n 10)) [
  | inl small ↦ rw small (omega arith)
  | inr large ↦
      rw large
        (omega (arith, length-append (digits k (n / 10)) ((n % 10) ∷ []), length-digits k (n / 10)))
]

pub length-zd : (n : ℕ) → length (zd n) ≤ 21
unfolding zd
length-zd n = elim (Bool-cases (ltb n (2 ^ 63))) [
  | inl small ↦ rw small (omega (arith, length-map (digits 20 n) ascii_digit, length-digits 20 n))
  | inr large ↦ rw large (
      omega (arith, length-map (digits 20 (2 ^ 64 - n)) ascii_digit, length-digits 20 (2 ^ 64 - n)))
]

pub zd_small : (n : ℕ) → n < 2 ^ 63 → zd n ≡ map ascii_digit (digits 20 n)
unfolding zd
zd_small n small = ground (arith, small)

value_from-append :
    (n : ℕ) (ds : List ℕ) (d : ℕ) → value_from n (ds ++ (d ∷ [])) ≡ value_from n ds * 10 + d
value_from-append n [] d = refl
value_from-append n (e ∷ ds) d = value_from-append (n * 10 + e) ds d

tens : (k n : ℕ) → n < 10 ^ suc k → n / 10 < 10 ^ k
tens k n h = omega (arith, h)

pub value_from-digits : (k n : ℕ) → n < 10 ^ k → value_from 0 (digits k n) ≡ n
unfolding digits
value_from-digits zero n h = omega (arith, h)
value_from-digits (suc k) n h = elim (Bool-cases (ltb n 10)) [
  | inl small ↦ rw small (omega arith)
  | inr large ↦ rw large (
      omega (
        arith,
        value_from-append 0 (digits k (n / 10)) (n % 10),
        value_from-digits k (n / 10) (tens k n h),
      ))
]

abbrev pub IsFigure : ℕ → Type 0
IsFigure d = d < 10

All-append : (xs : List ℕ) (d : ℕ) → All IsFigure xs → d < 10 → All IsFigure (xs ++ (d ∷ []))
All-append [] d h l = (l, tt)
All-append (x ∷ xs) d h l = (h.0, All-append xs d h.1 l)

pub digits-IsFigure : (k n : ℕ) → All IsFigure (digits k n)
unfolding digits
digits-IsFigure zero n = tt
digits-IsFigure (suc k) n = elim (Bool-cases (ltb n 10)) [
  | inl small ↦ rw small (ground (arith, small), tt)
  | inr large ↦
      rw large (All-append (digits k (n / 10)) (n % 10) (digits-IsFigure k (n / 10)) (omega arith))
]

pub digits_nonempty : (k n : ℕ) → 0 < length (digits (suc k) n)
unfolding digits
digits_nonempty k n = elim (Bool-cases (ltb n 10)) [
  | inl small ↦ rw small (omega arith)
  | inr large ↦ rw large (omega (arith, length-append (digits k (n / 10)) ((n % 10) ∷ [])))
]
