-- ===== src/Vector/Search.antt =====
-- `binary_search` of src/ot_vector.c finds the key, or the place to insert it.
use bt_server.Prelude.{
  ℕ, zero, suc, ◌+◌, ◌-◌, ◌/◌, ◌≤◌, ◌<◌, ◌≡◌, ◌≢◌, refl, List, [], ◌∷◌, Option, none, some, arith,
  ltb, ◌==◌, Bool-cases, inl, inr, length, get_elem?, get_or,
}
use bt_server.Vector.{search_loop, binary_search}

abbrev pub key_at : List ℕ → ℕ → ℕ
key_at keys i = get_or keys i 0

-- Strictly ascending keys.
abbrev pub IsAscending : List ℕ → Type 0
IsAscending keys = (i j : ℕ) → i < j → j < length keys → key_at keys i < key_at keys j

pub record Locates (key : ℕ) (keys : List ℕ) (r m : ℕ) : Type 0 where
  pub inside : r ≤ length keys
  pub below : (i : ℕ) → i < r → key_at keys i < key
  pub missing : m ≡ 0 → (i : ℕ) → r ≤ i → i < length keys → key < key_at keys i
  pub hit : m ≢ 0 → (r < length keys) × (key_at keys r ≡ key)

abbrev pub Returns : Option (ℕ × ℕ) → (ℕ → ℕ → Type 0) → Type 0
Returns none P = ⊥
Returns (some (r, m)) P = P r m

pub get_elem?-key_at :
    (keys : List ℕ) (i : ℕ) → i < length keys → get_elem? keys i ≡ some (key_at keys i)
get_elem?-key_at [] i h = absurd (omega arith)
get_elem?-key_at (x ∷ xs) zero h = refl
get_elem?-key_at (x ∷ xs) (suc i) h = get_elem?-key_at xs i (omega arith)

record Inv (key : ℕ) (keys : List ℕ) (base interval : ℕ) : Type 0 where
  inside : base + interval ≤ length keys
  below : (i : ℕ) → i < base → key_at keys i < key
  above : (i : ℕ) → base + interval ≤ i → i < length keys → key < key_at keys i

-- The steps of the loop.
module _ (key : ℕ) (keys : List ℕ) (fuel b n : ℕ) where
  search_loop-end : n ≡ 0 → search_loop (suc fuel) keys key b n ≡ some (b, 0)
  unfolding search_loop
  search_loop-end h = ground arith

  module _ (nz : n ≢ 0) (inside : b + n ≤ length keys) where
    seen : get_elem? keys (b + n / 2) ≡ some (key_at keys (b + n / 2))
    seen = get_elem?-key_at keys (b + n / 2) (omega arith)

    search_loop-hit :
        key_at keys (b + n / 2) ≡ key → search_loop (suc fuel) keys key b n ≡ some (b + n / 2, n)
    unfolding search_loop
    search_loop-hit h = ground (arith, seen)

    search_loop-less :
        key_at keys (b + n / 2) < key
        → search_loop (suc fuel) keys key b n
          ≡ search_loop fuel keys key (b + n / 2 + 1) ((n - 1) / 2)
    unfolding search_loop
    search_loop-less h = ground (arith, seen)

    search_loop-greater :
        key < key_at keys (b + n / 2)
        → search_loop (suc fuel) keys key b n ≡ search_loop fuel keys key b (n / 2)
    unfolding search_loop
    search_loop-greater h = ground (arith, seen)

module _ (key : ℕ) (keys : List ℕ) (asc : IsAscending keys) where
  upper-Inv :
      (b n : ℕ)
      → Inv key keys b n
      → n ≢ 0
      → key_at keys (b + n / 2) < key
      → Inv key keys (b + n / 2 + 1) ((n - 1) / 2)
  upper-Inv b n v h c = record {
    inside = ground (arith, v.inside);
    below = λ i p. grind (arith, asc i (b + n / 2), v.inside);
    above = λ i p q. v.above i (omega arith) q;
  }

  lower-Inv :
      (b n : ℕ) → Inv key keys b n → n ≢ 0 → key < key_at keys (b + n / 2) → Inv key keys b (n / 2)
  lower-Inv b n v h c = record {
    inside = ground (arith, v.inside);
    below = v.below;
    above = λ i p q. grind (arith, asc (b + n / 2) i, v.inside);
  }

  search_loop-Locates :
      (fuel b n : ℕ)
      → n < fuel
      → Inv key keys b n
      → Returns (search_loop fuel keys key b n) (Locates key keys)
  unfolding search_loop
  search_loop-Locates zero b n h v = elim h [ ]
  search_loop-Locates (suc fuel) b n h v = elim (Bool-cases (n == 0)) [
    | inl done ↦ rw (search_loop-end key keys fuel b n (ground arith)) (record {
      inside = ground (arith, v.inside);
      below = v.below;
      missing = λ z i p q. v.above i (ground arith) q;
      hit = λ nz. absurd (nz refl);
    })
    | inr more ↦ elim (Bool-cases (key_at keys (b + n / 2) == key)) [
      | inl same ↦
          rw (search_loop-hit key keys fuel b n (ground arith) v.inside (ground arith)) (record {
            inside = ground (arith, v.inside);
            below = λ i p. grind (arith, asc i (b + n / 2), v.inside);
            missing = λ z. absurd (ground arith);
            hit = λ nz. ground (arith, v.inside);
          })
      | inr differs ↦ elim (Bool-cases (ltb (key_at keys (b + n / 2)) key)) [
        | inl less ↦
            rw (search_loop-less key keys fuel b n (ground arith) v.inside (ground arith)) (
              search_loop-Locates fuel (b + n / 2 + 1) ((n - 1) / 2) (ground arith)
                (upper-Inv b n v (ground arith) (ground arith)))
        | inr not_less ↦
            rw (search_loop-greater key keys fuel b n (ground arith) v.inside (ground arith)) (
              search_loop-Locates fuel b (n / 2) (ground arith)
                (lower-Inv b n v (ground arith) (ground arith)))
      ]
    ]
  ]

-- On ascending keys the search never reads outside the table, ends, and returns a place below which
-- all keys are smaller: the place of the key where `*exactmatch` is set, and otherwise a place from
-- which on all keys are greater.
pub binary_search-Locates :
    (key : ℕ) (keys : List ℕ)
    → IsAscending keys
    → Returns (binary_search key keys) (Locates key keys)
unfolding binary_search
binary_search-Locates key keys asc =
    search_loop-Locates key keys asc (suc (length keys)) 0 (length keys) (omega arith) (record {
      inside = omega arith;
      below = λ i p. elim p [ ];
      above = λ i p q. absurd (omega arith);
    })

-- The search stays inside the table, and a hit has the key, whatever the order of the keys.
abbrev pub Inside : ℕ → List ℕ → ℕ → ℕ → Type 0
Inside key keys r m = (r ≤ length keys) × (m ≢ 0 → (r < length keys) × (key_at keys r ≡ key))

search_loop-Inside :
    (key : ℕ) (keys : List ℕ) (fuel b n : ℕ)
    → n < fuel
    → b + n ≤ length keys
    → Returns (search_loop fuel keys key b n) (Inside key keys)
search_loop-Inside key keys zero b n h v = elim h [ ]
search_loop-Inside key keys (suc fuel) b n h v = elim (Bool-cases (n == 0)) [
  | inl done ↦
      rw (search_loop-end key keys fuel b n (ground arith)) (omega arith, λ z. absurd (z refl))
  | inr more ↦ elim (Bool-cases (key_at keys (b + n / 2) == key)) [
    | inl same ↦
        rw (search_loop-hit key keys fuel b n (ground arith) v (ground arith))
          (omega arith, λ z. (omega arith, ground arith))
    | inr differs ↦ elim (Bool-cases (ltb (key_at keys (b + n / 2)) key)) [
      | inl less ↦ rw (search_loop-less key keys fuel b n (ground arith) v (ground arith)) (
          search_loop-Inside key keys fuel (b + n / 2 + 1) ((n - 1) / 2) (ground arith)
            (ground arith))
      | inr not_less ↦
          rw (search_loop-greater key keys fuel b n (ground arith) v (ground arith))
            (search_loop-Inside key keys fuel b (n / 2) (ground arith) (ground arith))
    ]
  ]
]

pub binary_search-Inside :
    (key : ℕ) (keys : List ℕ) → Returns (binary_search key keys) (Inside key keys)
unfolding binary_search
binary_search-Inside key keys =
    search_loop-Inside key keys (suc (length keys)) 0 (length keys) (omega arith) (omega arith)
