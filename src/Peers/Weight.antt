-- ===== src/Peers/Weight.antt =====
-- Sums over the peers of a store. A weight that counts one kind of peer makes the sum a census, and
-- two stores with equal sums under every weight hold the same peers, as often.
use bt_server.Prelude.{
  ℕ, zero, suc, ◌+◌, ◌≤◌, ◌≡◌, List, [], ◌∷◌, some, arith, if◌then◌else◌, length, get_elem?, set,
}
use bt_server.Vector.{Vector, open_slot, remove_at}
use bt_server.Peers.{Peer, PeerStore, is_seeding}

unfoldable pub sum_over : {A : Type 0} → (A → ℕ) → List A → ℕ
sum_over w [] = 0
sum_over w (x ∷ xs) = w x + sum_over w xs

pub sum_over-set :
    {A : Type 0} (w : A → ℕ) (xs : List A) (i : ℕ) (x y : A)
    → get_elem? xs i ≡ some x
    → sum_over w (set xs i y) + w x ≡ sum_over w xs + w y
unfolding sum_over
sum_over-set w [] i x y h = cc
sum_over-set w (z ∷ zs) zero x y h = ground arith
sum_over-set w (z ∷ zs) (suc i) x y h = omega (arith, sum_over-set w zs i x y h)

pub sum_over-set_slot :
    {A : Type 0} (w : A → ℕ) (xs : List A) (i : ℕ) (stale y : A)
    → i ≤ length xs
    → sum_over w (set (open_slot stale i xs) i y) ≡ sum_over w xs + w y
unfolding sum_over open_slot
sum_over-set_slot w [] zero stale y h = omega arith
sum_over-set_slot w [] (suc i) stale y h = absurd (omega arith)
sum_over-set_slot w (z ∷ zs) zero stale y h = omega arith
sum_over-set_slot w (z ∷ zs) (suc i) stale y h =
    omega (arith, sum_over-set_slot w zs i stale y (omega arith))

pub sum_over-remove_at :
    {A : Type 0} (w : A → ℕ) (xs : List A) (i : ℕ) (x : A)
    → get_elem? xs i ≡ some x
    → sum_over w (remove_at i xs) + w x ≡ sum_over w xs
unfolding sum_over remove_at
sum_over-remove_at w [] i x h = cc
sum_over-remove_at w (z ∷ zs) zero x h = ground arith
sum_over-remove_at w (z ∷ zs) (suc i) x h = omega (arith, sum_over-remove_at w zs i x h)

-- The weight of a vector and of a store.
abbrev pub vector_weight : (Peer → ℕ) → Vector Peer → ℕ
vector_weight w v = sum_over w v.items

abbrev pub weight : (Peer → ℕ) → PeerStore → ℕ
weight w s = sum_over (vector_weight w) s.lists

abbrev pub one : Peer → ℕ
one p = 1

abbrev pub seed : Peer → ℕ
seed p = if is_seeding p then 1 else 0
