-- ===== src/Replies/Steps.antt =====
-- The arithmetic of `return_peers_selection`: no range that a random number is reduced to is empty.
use native.Mathlib.Nat.{
  div-mul-le_self, le-div_iff_mul-le, div-eq-sub-div, mul_assoc, pow-succ', le-mul_of_pos_right,
}
use bt_server.Prelude.{
  ℕ, zero, suc, ◌+◌, ◌-◌, ◌*◌, ◌/◌, ◌%◌, ◌^◌, ◌≤◌, ◌<◌, ◌≡◌, refl, sym, ap, ◌∙◌, true, false,
  Option, some, arith, ltb, ◌==◌, Bool-cases, inl, inr,
}
use bt_server.Replies.Selection.{has_top_bit, shift_up, step_range}

-- The top bit is set after some shifts of a number below it.
abbrev pub Shifts : ℕ → ℕ → Option (ℕ × ℕ) → Type 0
Shifts n k o = (j : ℕ) × (o ≡ some (n * 2 ^ j, k + j)) × (n * 2 ^ j < 2 ^ 30)

abbrev both : ℕ → ℕ → Option (ℕ × ℕ)
both a c = some (a, c)

pair_eq : (a b c d : ℕ) → a ≡ b → c ≡ d → both a c ≡ both b d
pair_eq a b c d e f = ap (λ x. both x c) e ∙ ap (λ x. both b x) f

doubled : (n f : ℕ) → n * 2 * 2 ^ f ≡ n * 2 ^ suc f
doubled n f = mul_assoc n 2 (2 ^ f) ∙ ap (λ x. n * x) (sym (pow-succ' 2 f))

shift_up-stops : (fuel n k : ℕ) → 2 ^ 29 ≤ n → n < 2 ^ 30 → Shifts n k (shift_up (suc fuel) n k)
unfolding shift_up
shift_up-stops fuel n k top small =
    let bit : has_top_bit n ≡ true = ground (arith, top, small) in
    (0, rw bit (pair_eq _ _ _ _ (omega arith) (omega arith)), omega (arith, small))

shift_up-goes_on :
    (fuel n k : ℕ) → n < 2 ^ 29 → shift_up (suc fuel) n k ≡ shift_up fuel (n * 2) (k + 1)
unfolding shift_up
shift_up-goes_on fuel n k below =
    let bit : has_top_bit n ≡ false = ground (arith, below) in
    let same : n * 2 % 2 ^ 32 ≡ n * 2 = omega (arith, below) in rw (bit, same) refl

pub shift_up-Shifts :
    (fuel n k : ℕ) → 2 ^ 29 ≤ n * 2 ^ fuel → n < 2 ^ 30 → Shifts n k (shift_up (suc fuel) n k)
shift_up-Shifts zero n k enough small = shift_up-stops 0 n k (omega (arith, enough)) small
shift_up-Shifts (suc fuel) n k enough small = elim (Bool-cases (ltb n (2 ^ 29))) [
  | inl below ↦
      let less : n < 2 ^ 29 = ground (arith, below) in
      let (j, e, few) =
        shift_up-Shifts fuel (n * 2) (k + 1) (omega (arith, enough, doubled n fuel))
          (omega (arith, less)) in
      (
        suc j,
        shift_up-goes_on (suc fuel) n k less ∙ e ∙ pair_eq _ _ _ _ (doubled n j) (omega arith),
        omega (arith, few, doubled n j),
      )
  | inr top ↦ shift_up-stops (suc fuel) n k (ground (arith, top)) small
]

quotient_le : (a b p : ℕ) → 0 < p → a ≤ b → a / p ≤ b / p
quotient_le a b p positive h =
    (le-div_iff_mul-le positive).1 (omega (arith, div-mul-le_self a p, h))

-- A step that is 1 or more before it is shifted back goes on by 1 or more.
pub step_range-positive :
    (s j a : ℕ) → 2 ^ j ≤ s → 0 < 2 ^ j → (a + 1) * s < 2 ^ 30 → (step_range s j a == 0) ≡ false
unfolding step_range
step_range-positive s j a one positive small =
    let p = 2 ^ j in
    let more : a * s + p ≤ (a + 1) * s = omega (arith, one) in
    let next = div-eq-sub-div {m = p} {n = (a + 1) * s} positive (omega (arith, more)) in
    let below = quotient_le (a * s) ((a + 1) * s - p) p positive (omega (arith, more)) in
    let few : (a + 1) * s / p ≤ (a + 1) * s = omega (
      arith,
      div-mul-le_self ((a + 1) * s) p,
      positive,
      le-mul_of_pos_right ((a + 1) * s / p) positive,
    ) in
    let whole : (a + 1) * s % 2 ^ 64 ≡ (a + 1) * s = omega (arith, small) in
    let part : a * s % 2 ^ 64 ≡ a * s = omega (arith, small, more) in
    rw (whole, part) (ground (arith, next, below, few, small))
