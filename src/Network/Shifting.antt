-- ===== src/Network/Shifting.antt =====
-- The halving of the tree of src/ot_stats.c.
use native.Mathlib.Nat.{zero-div}
use bt_server.Prelude.{
  ℕ, zero, suc, ◌+◌, ◌/◌, ◌^◌, ◌≤◌, ◌<◌, ◌≡◌, refl, sym, ap, List, [], ◌∷◌, none, some, arith, ◌==◌,
  get_or, Bool-cases, inl, inr,
}
use bt_server.Peers.Weight.{sum_over}
use bt_server.Network.{
  Node, absent, digit, shift_counters, shift_children, freed, stats_shift_down_network_count,
}
use bt_server.Network.Counts.{count_at}

count_at-absent : (n depth : ℕ) (ip : List ℕ) → count_at n depth ip (absent n) ≡ 0
unfolding count_at
count_at-absent zero depth ip = refl
count_at-absent (suc n) depth ip = count_at-absent n (depth + 4) ip

module _ (shift : ℕ) where
  abbrev pub shifted : ℕ → ℕ
  shifted c = c / 2 ^ shift

  shifted-zero : shifted 0 ≡ 0
  shifted-zero = zero-div (2 ^ shift)

  -- The sum of the shifted counters below a node.
  unfoldable pub shifted_sum : (n : ℕ) → Node n → ℕ
  shifted_sum zero none = 0
  shifted_sum zero (some counters) = sum_over shifted counters
  shifted_sum (suc n) none = 0
  shifted_sum (suc n) (some children) = sum_over (shifted_sum n) children

  absent_sum : (n : ℕ) → shifted_sum n (absent n) ≡ 0
  unfolding shifted_sum
  absent_sum zero = refl
  absent_sum (suc n) = refl

  absent_shift : (n : ℕ) → (stats_shift_down_network_count n shift (absent n)).0 ≡ absent n
  unfolding stats_shift_down_network_count
  absent_shift zero = refl
  absent_shift (suc n) = refl

  get_or-sum_over :
      {A : Type 0} (w : A → ℕ) (a : A) (xs : List A) (i : ℕ)
      → w a ≡ 0
      → w (get_or xs i a) ≤ sum_over w xs
  unfolding sum_over
  get_or-sum_over w a [] i h = omega (arith, h)
  get_or-sum_over w a (x ∷ xs) zero h = omega arith
  get_or-sum_over w a (x ∷ xs) (suc i) h = omega (arith, get_or-sum_over w a xs i h)

  -- A network's count is part of the sum.
  count_at-le :
      (n depth : ℕ) (ip : List ℕ) (node : Node n)
      → shifted (count_at n depth ip node) ≤ shifted_sum n node
  unfolding count_at shifted_sum
  count_at-le zero depth ip none = omega (arith, shifted-zero)
  count_at-le zero depth ip (some cs) = get_or-sum_over shifted 0 cs (digit ip depth) shifted-zero
  count_at-le (suc n) depth ip none =
      omega (arith, count_at-le n (depth + 4) ip (absent n), absent_sum n)
  count_at-le (suc n) depth ip (some cs) = omega (
    arith,
    count_at-le n (depth + 4) ip (get_or cs (digit ip depth) (absent n)),
    get_or-sum_over (shifted_sum n) (absent n) cs (digit ip depth) (absent_sum n),
  )

  shift_counters-rest :
      (cs : List ℕ)
      → sum_over shifted cs < 2 ^ 31
      → (shift_counters shift cs).1 ≡ sum_over shifted cs
  unfolding sum_over
  shift_counters-rest [] small = refl
  shift_counters-rest (c ∷ cs) small =
      omega (arith, small, shift_counters-rest cs (omega (arith, small)))

  shift_counters-cells :
      (cs : List ℕ) (i : ℕ) → get_or (shift_counters shift cs).0 i 0 ≡ shifted (get_or cs i 0)
  shift_counters-cells [] i = sym shifted-zero
  shift_counters-cells (c ∷ cs) zero = refl
  shift_counters-cells (c ∷ cs) (suc i) = shift_counters-cells cs i

  -- What the halving leaves: the sum, and every count halved so often.
  abbrev pub Halved : (n : ℕ) → Node n → Node n × ℕ → Type 0
  Halved n node r =
      (r.1 ≡ shifted_sum n node)
      × ((depth : ℕ) (ip : List ℕ) → count_at n depth ip r.0 ≡ shifted (count_at n depth ip node))

  absent_is_Halved : (n : ℕ) → Halved n (absent n) (absent n, 0)
  absent_is_Halved n = (
    sym (absent_sum n),
    λ depth ip.
        omega (
          arith,
          ap shifted (count_at-absent n depth ip),
          count_at-absent n depth ip,
          shifted-zero,
        ),
  )

  bottom-Halved :
      (cs : List ℕ)
      → shifted_sum zero (some cs) < 2 ^ 31
      → Halved zero (some cs) (freed (shift_counters shift cs))
  unfolding shifted_sum count_at
  bottom-Halved cs small =
      let rest = shift_counters-rest cs small in
      (
        rest,
        λ depth ip. elim (Bool-cases ((shift_counters shift cs).1 == 0)) [
          | inl empty ↦
              let none_left : (shift_counters shift cs).1 ≡ 0 = ground (arith, empty) in
              rw empty (
                omega (
                  arith,
                  rest,
                  none_left,
                  get_or-sum_over shifted 0 cs (digit ip depth) shifted-zero,
                ))
          | inr full ↦ rw full (shift_counters-cells cs (digit ip depth))
        ],
      )

  module _ (n : ℕ) (f : Node n → Node n × ℕ)
      (below : (node : Node n) → shifted_sum n node < 2 ^ 31 → Halved n node (f node))
      (nothing : (f (absent n)).0 ≡ absent n) where
    shift_children-rest :
        (cs : List (Node n))
        → sum_over (shifted_sum n) cs < 2 ^ 31
        → (shift_children f cs).1 ≡ sum_over (shifted_sum n) cs
    unfolding sum_over
    shift_children-rest [] small = refl
    shift_children-rest (c ∷ cs) small = omega (
      arith,
      small,
      (below c (omega (arith, small))).0,
      shift_children-rest cs (omega (arith, small)),
    )

    shift_children-cells :
        (cs : List (Node n)) (i : ℕ)
        → get_or (shift_children f cs).0 i (absent n) ≡ (f (get_or cs i (absent n))).0
    shift_children-cells [] i = sym nothing
    shift_children-cells (c ∷ cs) zero = refl
    shift_children-cells (c ∷ cs) (suc i) = shift_children-cells cs i

    upper-Halved :
        (cs : List (Node n))
        → shifted_sum (suc n) (some cs) < 2 ^ 31
        → Halved (suc n) (some cs) (freed (shift_children f cs))
    unfolding shifted_sum count_at
    upper-Halved cs small =
        let rest = shift_children-rest cs small in
        (
          rest,
          λ depth ip.
              let c = get_or cs (digit ip depth) (absent n) in
              let le =
                get_or-sum_over (shifted_sum n) (absent n) cs (digit ip depth) (absent_sum n) in
              elim (Bool-cases ((shift_children f cs).1 == 0)) [
                | inl empty ↦
                    let none_left : (shift_children f cs).1 ≡ 0 = ground (arith, empty) in
                    rw empty (
                      omega (
                        arith,
                        rest,
                        none_left,
                        le,
                        count_at-absent n (depth + 4) ip,
                        count_at-le n (depth + 4) ip c,
                      ))
                | inr full ↦
                    rw (full, shift_children-cells cs (digit ip depth))
                      ((below c (omega (arith, le, small))).1 (depth + 4) ip)
              ],
        )

  -- Halving the tree so often, where what is left sums up to less than 2 ^ 31, answers this sum, and
  -- leaves the count of every network halved as often, also where nodes are freed.
  pub stats_shift_down_network_count-Halved :
      (n : ℕ) (node : Node n)
      → shifted_sum n node < 2 ^ 31
      → Halved n node (stats_shift_down_network_count n shift node)
  unfolding stats_shift_down_network_count shifted_sum
  stats_shift_down_network_count-Halved zero none small = absent_is_Halved zero
  stats_shift_down_network_count-Halved zero (some cs) small = bottom-Halved cs small
  stats_shift_down_network_count-Halved (suc n) none small = absent_is_Halved (suc n)
  stats_shift_down_network_count-Halved (suc n) (some cs) small =
      upper-Halved n (stats_shift_down_network_count n shift)
        (stats_shift_down_network_count-Halved n) (absent_shift n) cs small
