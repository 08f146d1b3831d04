-- ===== src/Vector/Sorted.antt =====
-- A sorted array as a map from keys to members: the reference view of src/ot_vector.c.
use bt_server.Prelude.{
  ℕ, zero, suc, ◌<◌, ◌≡◌, ◌≢◌, refl, ap, List, [], ◌∷◌, map, Option, none, some, arith, ltb, ◌==◌,
  if◌then◌else◌, length, set,
}
use bt_server.Prelude.All.{All}
use bt_server.Vector.{open_slot, remove_at}
use bt_server.Vector.Search.{key_at, IsAscending, Locates}

module _ {A : Type 0} (key_of : A → ℕ) where
  abbrev pub keys_of : List A → List ℕ
  keys_of xs = map key_of xs

  unfoldable pub lookup : ℕ → List A → Option A
  lookup k [] = none
  lookup k (y ∷ ys) = if key_of y == k then some y else lookup k ys

  -- Replace the member with the key of `x`, or insert `x` in front of the first greater key.
  unfoldable pub upsert : A → List A → List A
  upsert x [] = x ∷ []
  upsert x (y ∷ ys) =
      if ltb (key_of y) (key_of x)
      then y ∷ upsert x ys
      else if key_of y == key_of x
      then x ∷ ys
      else x ∷ y ∷ ys

  unfoldable pub erase : ℕ → List A → List A
  erase k [] = []
  erase k (y ∷ ys) = if key_of y == k then ys else y ∷ erase k ys

  pub length-keys_of : (xs : List A) → length (keys_of xs) ≡ length xs
  length-keys_of [] = refl
  length-keys_of (x ∷ xs) = ap suc (length-keys_of xs)

abbrev pub HeadBelow : ℕ → List ℕ → Type 0
HeadBelow k [] = Unit
HeadBelow k (j ∷ js) = k < j

-- The same order, neighbour by neighbour.
abbrev pub IsChain : List ℕ → Type 0
IsChain [] = Unit
IsChain (k ∷ ks) = HeadBelow k ks × IsChain ks

pub IsAscending-tail : (k : ℕ) (ks : List ℕ) → IsAscending (k ∷ ks) → IsAscending ks
IsAscending-tail k ks asc i j p q = asc (suc i) (suc j) (omega arith) (omega arith)

pub IsAscending→IsChain : (ks : List ℕ) → IsAscending ks → IsChain ks
IsAscending→IsChain [] asc = tt
IsAscending→IsChain (k ∷ []) asc = (tt, tt)
IsAscending→IsChain (k ∷ j ∷ js) asc = (
  asc 0 1 (omega arith) (omega arith),
  IsAscending→IsChain (j ∷ js) (IsAscending-tail k (j ∷ js) asc),
)

IsChain-head : (k : ℕ) (ks : List ℕ) (j : ℕ) → IsChain (k ∷ ks) → j < length ks → k < key_at ks j
IsChain-head k [] j c h = absurd (omega arith)
IsChain-head k (a ∷ ks) zero c h = c.0
IsChain-head k (a ∷ ks) (suc j) c h = omega (arith, c.0, IsChain-head a ks j c.1 (omega arith))

pub IsChain→IsAscending : (ks : List ℕ) → IsChain ks → IsAscending ks
IsChain→IsAscending [] c i j p q = absurd (omega arith)
IsChain→IsAscending (k ∷ ks) c i zero p q = absurd (omega arith)
IsChain→IsAscending (k ∷ ks) c zero (suc j) p q = IsChain-head k ks j c (omega arith)
IsChain→IsAscending (k ∷ ks) c (suc i) (suc j) p q =
    IsChain→IsAscending ks c.1 i j (omega arith) (omega arith)

pub Locates-tail :
    (key k : ℕ) (ks : List ℕ) (r m : ℕ) → Locates key (k ∷ ks) (suc r) m → Locates key ks r m
Locates-tail key k ks r m l = record {
  inside = omega (arith, l.inside);
  below = λ i p. l.below (suc i) (omega arith);
  missing = λ z i p q. l.missing z (suc i) (omega arith) (omega arith);
  hit = λ nz. (omega (arith, (l.hit nz).0), (l.hit nz).1);
}

module _ {A : Type 0} (key_of : A → ℕ) where
  -- Writing through the pointer that the search returned is `upsert`.
  pub set-upsert :
      (x : A) (xs : List A) (r m : ℕ)
      → Locates (key_of x) (keys_of key_of xs) r m
      → m ≢ 0
      → set xs r x ≡ upsert key_of x xs
  unfolding upsert
  set-upsert x [] r m l nz = absurd (omega (arith, (l.hit nz).0))
  set-upsert x (y ∷ ys) zero m l nz = ground (arith, (l.hit nz).1)
  set-upsert x (y ∷ ys) (suc r) m l nz =
      ground (arith, l.below 0 (omega arith), set-upsert x ys r m (Locates-tail _ _ _ r m l) nz)

  pub set-open_slot :
      (stale x : A) (xs : List A) (r : ℕ)
      → Locates (key_of x) (keys_of key_of xs) r 0
      → set (open_slot stale r xs) r x ≡ upsert key_of x xs
  unfolding upsert open_slot
  set-open_slot stale x [] zero l = refl
  set-open_slot stale x [] (suc r) l = absurd (omega (arith, l.inside))
  set-open_slot stale x (y ∷ ys) zero l =
      ground (arith, l.missing refl 0 (omega arith) (omega arith))
  set-open_slot stale x (y ∷ ys) (suc r) l =
      ground (arith, l.below 0 (omega arith), set-open_slot stale x ys r (Locates-tail _ _ _ r 0 l))

  -- Moving the rest down over the member that the search found is `erase`.
  pub remove_at-erase :
      (k : ℕ) (xs : List A) (r m : ℕ)
      → Locates k (keys_of key_of xs) r m
      → m ≢ 0
      → remove_at r xs ≡ erase key_of k xs
  unfolding erase remove_at
  remove_at-erase k [] r m l nz = absurd (omega (arith, (l.hit nz).0))
  remove_at-erase k (y ∷ ys) zero m l nz = ground (arith, (l.hit nz).1)
  remove_at-erase k (y ∷ ys) (suc r) m l nz =
      ground
        (arith, l.below 0 (omega arith), remove_at-erase k ys r m (Locates-tail _ _ _ r m l) nz)

  pub erase_absent :
      (k : ℕ) (xs : List A) (r : ℕ) → Locates k (keys_of key_of xs) r 0 → erase key_of k xs ≡ xs
  unfolding erase
  erase_absent k [] r l = refl
  erase_absent k (y ∷ ys) zero l = ground (
    arith,
    l.missing refl 0 (omega arith) (omega arith),
    erase_absent k ys 0 (record {
      inside = omega arith;
      below = λ i p. elim p [ ];
      missing = λ z i p q. l.missing z (suc i) (omega arith) (omega arith);
      hit = λ nz. absurd (nz refl);
    }),
  )
  erase_absent k (y ∷ ys) (suc r) l =
      ground (arith, l.below 0 (omega arith), erase_absent k ys r (Locates-tail _ _ _ r 0 l))

  pub lookup-upsert :
      (k : ℕ) (x : A) (xs : List A)
      → lookup key_of k (upsert key_of x xs)
        ≡ (if key_of x == k then some x else lookup key_of k xs)
  unfolding lookup upsert
  lookup-upsert k x [] = refl
  lookup-upsert k x (y ∷ ys) = ground (arith, lookup-upsert k x ys)

  lookup_below :
      (k : ℕ) (xs : List A)
      → HeadBelow k (keys_of key_of xs)
      → IsChain (keys_of key_of xs)
      → lookup key_of k xs ≡ none
  unfolding lookup
  lookup_below k [] h c = refl
  lookup_below k (x ∷ []) h c = ground arith
  lookup_below k (x ∷ y ∷ ys) h c = ground (arith, lookup_below k (y ∷ ys) (omega arith) c.1)

  pub lookup-erase :
      (k j : ℕ) (xs : List A)
      → IsChain (keys_of key_of xs)
      → lookup key_of k (erase key_of j xs) ≡ (if j == k then none else lookup key_of k xs)
  unfolding lookup erase
  lookup-erase k j [] c = ground arith
  lookup-erase k j (y ∷ ys) c =
      ground (arith, lookup-erase k j ys c.1, lookup_below (key_of y) ys c.0 c.1)

  upsert_head :
      (b : ℕ) (x : A) (xs : List A)
      → HeadBelow b (keys_of key_of xs)
      → b < key_of x
      → HeadBelow b (keys_of key_of (upsert key_of x xs))
  unfolding upsert
  upsert_head b x [] h p = p
  upsert_head b x (y ∷ ys) h p = ground arith

  pub upsert-IsChain :
      (x : A) (xs : List A)
      → IsChain (keys_of key_of xs)
      → IsChain (keys_of key_of (upsert key_of x xs))
  unfolding upsert
  upsert-IsChain x [] c = (tt, tt)
  upsert-IsChain x (y ∷ ys) c =
      ground (arith, upsert-IsChain x ys c.1, upsert_head (key_of y) x ys c.0)

  erase_head :
      (b k : ℕ) (xs : List A)
      → HeadBelow b (keys_of key_of xs)
      → IsChain (keys_of key_of xs)
      → HeadBelow b (keys_of key_of (erase key_of k xs))
  unfolding erase
  erase_head b k [] h c = tt
  erase_head b k (y ∷ []) h c = ground arith
  erase_head b k (y ∷ z ∷ zs) h c = ground arith

  pub erase-IsChain :
      (k : ℕ) (xs : List A)
      → IsChain (keys_of key_of xs)
      → IsChain (keys_of key_of (erase key_of k xs))
  unfolding erase
  erase-IsChain k [] c = tt
  erase-IsChain k (y ∷ ys) c =
      ground (arith, erase-IsChain k ys c.1, erase_head (key_of y) k ys c.0 c.1)

  -- What holds of all members and of the new one holds of all members afterwards.
  pub upsert-All :
      (P : A → Type 0) (x : A) (xs : List A) → All P xs → P x → All P (upsert key_of x xs)
  unfolding upsert
  upsert-All P x [] h p = (p, tt)
  upsert-All P x (y ∷ ys) h p = ground (arith, upsert-All P x ys h.1 p)

  pub erase-All : (P : A → Type 0) (k : ℕ) (xs : List A) → All P xs → All P (erase key_of k xs)
  unfolding erase
  erase-All P k [] h = tt
  erase-All P k (y ∷ ys) h = ground (arith, erase-All P k ys h.1)
