-- ===== src/Network/Counts.antt =====
-- The tree of src/ot_stats.c as a function from networks to their counts.
use bt_server.Prelude.{
  ℕ, zero, suc, ◌+◌, ◌<◌, ◌≡◌, ◌≢◌, refl, sym, ap, ◌∙◌, List, [], ◌∷◌, Bool, true, false, ◌&&◌,
  Option, none, some, arith, ◌==◌, if◌then◌else◌, length, length-set, length-replicate, get_or, set,
  replicate, Bool-cases, inl, inr,
}
use bt_server.Prelude.All.{All}
use bt_server.Clean.{add_size}
use bt_server.Network.{
  Node, absent, node_count, digit, made, count_in, in_child, stat_increase_network_count,
}

-- A cell of a node, or what a missing node counts as.
abbrev pub cell_of : {A : Type 0} → A → ℕ → Option (List A) → A
cell_of a i none = a
cell_of a i (some cells) = get_or cells i a

-- The count of the network of an address.
unfoldable pub count_at : (n depth : ℕ) → List ℕ → Node n → ℕ
count_at zero depth ip node = cell_of 0 (digit ip depth) node
count_at (suc n) depth ip node =
    count_at n (depth + 4) ip (cell_of (absent n) (digit ip depth) node)

-- Whether two addresses are in the same network.
unfoldable pub same_network : (n depth : ℕ) → List ℕ → List ℕ → Bool
same_network zero depth ip other = digit ip depth == digit other depth
same_network (suc n) depth ip other =
    (digit ip depth == digit other depth) && same_network n (depth + 4) ip other

abbrev pub Filled : {A : Type 0} → (A → Type 0) → Option (List A) → Type 0
Filled P none = Unit
Filled P (some cells) = (length cells ≡ node_count) × All P cells

-- Every node has 16 cells.
abbrev pub IsFull : (n : ℕ) → Node n → Type 0
IsFull zero node = Filled (λ c. Unit) node
IsFull (suc n) node = Filled (IsFull n) node

digit-lt : (ip : List ℕ) (depth : ℕ) → digit ip depth < node_count
unfolding digit
digit-lt ip depth = omega arith

module _ {A : Type 0} where
  get_or-replicate : (n i : ℕ) (a : A) → get_or (replicate n a) i a ≡ a
  get_or-replicate zero i a = refl
  get_or-replicate (suc n) zero a = refl
  get_or-replicate (suc n) (suc i) a = get_or-replicate n i a

  get_or-set_self : (xs : List A) (i : ℕ) (v d : A) → i < length xs → get_or (set xs i v) i d ≡ v
  get_or-set_self [] i v d lt = absurd (omega arith)
  get_or-set_self (x ∷ xs) zero v d lt = refl
  get_or-set_self (x ∷ xs) (suc i) v d lt = get_or-set_self xs i v d (omega arith)

  get_or-set_ne :
      (xs : List A) (i j : ℕ) (v d : A) → i ≢ j → get_or (set xs i v) j d ≡ get_or xs j d
  get_or-set_ne [] i j v d ne = refl
  get_or-set_ne (x ∷ xs) zero zero v d ne = absurd (ne refl)
  get_or-set_ne (x ∷ xs) zero (suc j) v d ne = refl
  get_or-set_ne (x ∷ xs) (suc i) zero v d ne = refl
  get_or-set_ne (x ∷ xs) (suc i) (suc j) v d ne = get_or-set_ne xs i j v d (λ e. ne (ap suc e))

  All-replicate : (P : A → Type 0) (n : ℕ) (a : A) → P a → All P (replicate n a)
  All-replicate P zero a h = tt
  All-replicate P (suc n) a h = (h, All-replicate P n a h)

  All-get_or : (P : A → Type 0) (xs : List A) (i : ℕ) (a : A) → All P xs → P a → P (get_or xs i a)
  All-get_or P [] i a h k = k
  All-get_or P (x ∷ xs) zero a h k = h.0
  All-get_or P (x ∷ xs) (suc i) a h k = All-get_or P xs i a h.1 k

  All-set : (P : A → Type 0) (xs : List A) (i : ℕ) (v : A) → All P xs → P v → All P (set xs i v)
  All-set P [] i v h k = tt
  All-set P (x ∷ xs) zero v h k = (k, h.1)
  All-set P (x ∷ xs) (suc i) v h k = (h.0, All-set P xs i v h.1 k)

pub absent-IsFull : (n : ℕ) → IsFull n (absent n)
absent-IsFull zero = tt
absent-IsFull (suc n) = tt

and_false : (b : Bool) → (b && false) ≡ false
and_false true = refl
and_false false = refl

-- What counting one peer does to all counts, the result telling whether there was memory.
abbrev pub Increased : (n depth : ℕ) → List ℕ → Node n → Node n × Bool → Type 0
Increased n depth ip node r =
    IsFull n r.0
    × ((other : List ℕ)
        → count_at n depth other r.0 ≡ (
            if r.1 && same_network n depth ip other
            then add_size (count_at n depth other node) 1
            else count_at n depth other node))

module _ (depth : ℕ) (ip : List ℕ) where
  count_in-Increased :
      (cs : List ℕ)
      → IsFull zero (some cs)
      → Increased zero depth ip (some cs) (count_in (digit ip depth) (some cs))
  unfolding count_at same_network
  count_in-Increased cs full = (
    (length-set cs _ _ ∙ full.0, All-set (λ c. Unit) cs (digit ip depth) _ full.1 tt),
    λ other. elim (Bool-cases (digit ip depth == digit other depth)) [
      | inl same ↦
          let eq : digit ip depth ≡ digit other depth = ground (arith, same) in
          rw (same, eq)
            (get_or-set_self cs (digit other depth) _ 0
              (omega (arith, full.0, digit-lt other depth)))
      | inr different ↦
          let ne : digit ip depth ≢ digit other depth = ground (arith, different) in
          rw
            (
              different,
              get_or-set_ne cs (digit ip depth) (digit other depth)
                  (add_size (get_or cs (digit ip depth) 0) 1) 0 ne,
            )
            refl
    ],
  )

  in_child-Increased :
      (n : ℕ) (f : Node n → Node n × Bool) (cs : List (Node n))
      → ((node : Node n) → IsFull n node → Increased n (depth + 4) ip node (f node))
      → IsFull (suc n) (some cs)
      → Increased (suc n) depth ip (some cs) (in_child (digit ip depth) (absent n) f (some cs))
  unfolding count_at same_network
  in_child-Increased n f cs below full =
      let c = get_or cs (digit ip depth) (absent n) in
      let c_right =
        below c (All-get_or (IsFull n) cs (digit ip depth) (absent n) full.1 (absent-IsFull n)) in
      (
        (length-set cs _ _ ∙ full.0, All-set (IsFull n) cs (digit ip depth) _ full.1 c_right.0),
        λ other. elim (Bool-cases (digit ip depth == digit other depth)) [
          | inl same ↦
              let eq : digit other depth ≡ digit ip depth = ground (arith, same) in
              rw
                (
                  same,
                  eq,
                  get_or-set_self cs (digit ip depth) (f c).0 (absent n)
                      (omega (arith, full.0, digit-lt ip depth)),
                )
                (c_right.1 other)
          | inr different ↦
              let ne : digit ip depth ≢ digit other depth = ground (arith, different) in
              rw
                (
                  different,
                  and_false (f c).1,
                  get_or-set_ne cs (digit ip depth) (digit other depth) (f c).0 (absent n) ne,
                )
                refl
        ],
      )

  -- A node that counts alike can stand for a node.
  Increased-alike :
      (n : ℕ) (a b : Node n) (r : Node n × Bool)
      → ((other : List ℕ) → count_at n depth other a ≡ count_at n depth other b)
      → Increased n depth ip a r
      → Increased n depth ip b r
  Increased-alike n a b r alike (full, counts) =
      (full, λ other. rw (sym (alike other)) (counts other))

  unchanged-Increased : (n : ℕ) → Increased n depth ip (absent n) (absent n, false)
  unchanged-Increased n = (absent-IsFull n, λ other. refl)

  bottom-Increased :
      (grant : Bool) (node : Node zero)
      → IsFull zero node
      → Increased zero depth ip node (count_in (digit ip depth) (made grant 0 node))
  unfolding count_at
  bottom-Increased grant (some cs) full = count_in-Increased cs full
  bottom-Increased false none full = unchanged-Increased zero
  bottom-Increased true none full =
      let fresh : Node zero = some (replicate node_count 0) in
      Increased-alike zero fresh none (count_in (digit ip depth) fresh)
        (λ other. get_or-replicate node_count (digit other depth) 0)
        (count_in-Increased (replicate node_count 0) (
          length-replicate {A = ℕ} node_count 0,
          All-replicate {A = ℕ} (λ c. Unit) node_count 0 tt,
        ))

  upper-Increased :
      (n : ℕ) (f : Node n → Node n × Bool) (grant : Bool) (node : Node (suc n))
      → ((node : Node n) → IsFull n node → Increased n (depth + 4) ip node (f node))
      → IsFull (suc n) node
      → Increased
          (suc n)
          depth
          ip
          node
          (in_child (digit ip depth) (absent n) f (made grant (absent n) node))
  unfolding count_at
  upper-Increased n f grant (some cs) below full = in_child-Increased n f cs below full
  upper-Increased n f false none below full = unchanged-Increased (suc n)
  upper-Increased n f true none below full =
      let fresh : Node (suc n) = some (replicate node_count (absent n)) in
      Increased-alike (suc n) fresh none (in_child (digit ip depth) (absent n) f fresh)
        (λ other.
          ap (count_at n (depth + 4) other)
            (get_or-replicate node_count (digit other depth) (absent n)))
        (in_child-Increased n f (replicate node_count (absent n)) below (
          length-replicate node_count (absent n),
          All-replicate (IsFull n) node_count (absent n) (absent-IsFull n),
        ))

-- Counting a peer in a tree whose nodes have 16 cells leaves such a tree, whatever memory is refused:
-- where the result is 0, the count of the peer's network is one more, modulo 2 ^ 64, and all other
-- counts are as before; where a node could not be made, all counts are.
pub stat_increase_network_count-Increased :
    (grants : ℕ → Bool) (n depth : ℕ) (ip : List ℕ) (node : Node n)
    → IsFull n node
    → Increased n depth ip node (stat_increase_network_count grants n depth ip node)
unfolding stat_increase_network_count
stat_increase_network_count-Increased grants zero depth ip node full =
    bottom-Increased depth ip (grants 0) node full
stat_increase_network_count-Increased grants (suc n) depth ip node full =
    upper-Increased depth ip n (stat_increase_network_count grants n (depth + 4) ip)
      (grants (suc n)) node (stat_increase_network_count-Increased grants n (depth + 4) ip) full
