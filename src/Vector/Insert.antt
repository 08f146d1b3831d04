-- ===== src/Vector/Insert.antt =====
-- `vector_find_or_insert` of src/ot_vector.c refines `upsert` on the sorted list of members.
use bt_server.Prelude.{
  ℕ, zero, suc, ◌+◌, ◌≤◌, ◌<◌, ◌≡◌, refl, List, [], ◌∷◌, map, Bool, false, Option, none, some,
  get_elem?, arith, sym, ap, ◌∙◌, length-set, length, set,
}
use bt_server.Vector.{
  Vector, Slot, found, opened, null, fault, open_slot, make_room, after_search, find_or_insert,
  binary_search, remove_at, new_space,
}
use bt_server.Vector.Search.{
  IsAscending, Locates, Returns, binary_search-Locates, Inside, binary_search-Inside, key_at,
}
use bt_server.Vector.Sorted.{keys_of, length-keys_of, upsert, set-upsert, set-open_slot}

pub length-open_slot :
    {A : Type 0} (stale : A) (i : ℕ) (xs : List A) → length (open_slot stale i xs) ≡ length xs + 1
unfolding open_slot
length-open_slot stale zero xs = omega arith
length-open_slot stale (suc i) [] = refl
length-open_slot stale (suc i) (x ∷ xs) = omega (arith, length-open_slot stale i xs)

pub length-remove_at :
    {A : Type 0} (i : ℕ) (xs : List A) → i < length xs → length (remove_at i xs) + 1 ≡ length xs
unfolding remove_at
length-remove_at zero [] h = absurd (omega arith)
length-remove_at zero (x ∷ xs) h = omega arith
length-remove_at (suc i) [] h = absurd (omega arith)
length-remove_at (suc i) (x ∷ xs) h = omega (arith, length-remove_at i xs (omega arith))

-- All members fit into the allocated space.
abbrev pub Fits : {A : Type 0} → Vector A → Type 0
Fits v = length v.items ≤ v.space

module _ {A : Type 0} (key_of : A → ℕ) where
  -- What a lookup for the key of `x` leaves, when the caller then writes `x` through the pointer.
  abbrev pub Stores : Vector A → A → (ℕ → Bool) → Slot A → Type 0
  Stores v x alloc (found w i) =
      (w ≡ v)
      × (i < length v.items)
      × (set w.items i x ≡ upsert key_of x v.items)
      × (length (upsert key_of x v.items) ≡ length v.items)
  Stores v x alloc (opened w i) =
      (i < length w.items)
      × (set w.items i x ≡ upsert key_of x v.items)
      × (length w.items ≡ length v.items + 1)
      × (Fits v → Fits w)
  Stores v x alloc null = (alloc (new_space v.space) ≡ false) × (v.space < length v.items + 1)
  Stores v x alloc fault = ⊥

  module _ (alloc : ℕ → Bool) (stale x : A) (v : Vector A) where
    make_room-Stores :
        (i : ℕ)
        → Locates (key_of x) (keys_of key_of v.items) i 0
        → Stores v x alloc (make_room key_of alloc stale v i)
    unfolding make_room
    make_room-Stores i l = ground (
      arith,
      l.inside,
      length-keys_of key_of v.items,
      set-open_slot key_of stale x v.items i l,
      length-open_slot stale i v.items,
    )

    after_search-Stores :
        (o : Option (ℕ × ℕ))
        → Returns o (Locates (key_of x) (keys_of key_of v.items))
        → Stores v x alloc (after_search key_of alloc stale v o)
    after_search-Stores none r = r
    after_search-Stores (some (i, zero)) l = make_room-Stores i l
    after_search-Stores (some (i, suc m)) l = (
      refl,
      omega (arith, (l.hit (λ e. cc)).0, length-keys_of key_of v.items),
      set-upsert key_of x v.items i (suc m) l (λ e. cc),
      ap length (sym (set-upsert key_of x v.items i (suc m) l (λ e. cc))) ∙ length-set v.items i x,
    )

    -- On a vector with ascending keys the lookup never reads outside it. Writing the member through
    -- the returned pointer makes the sorted list with the member put under its key, an equal key
    -- replaced and the size unchanged, or a new one inserted in its place with room for it; NULL
    -- comes only from a failed `realloc` of a full vector.
    pub find_or_insert-Stores :
        IsAscending (keys_of key_of v.items)
        → Stores v x alloc (find_or_insert key_of alloc stale v (key_of x))
    unfolding find_or_insert
    find_or_insert-Stores asc =
        after_search-Stores (binary_search (key_of x) (keys_of key_of v.items))
          (binary_search-Locates (key_of x) (keys_of key_of v.items) asc)

-- What holds of a lookup whatever the order of the members.
module _ {A : Type 0} (key_of : A → ℕ) where
  abbrev pub Points : Vector A → A → ℕ → Slot A → Type 0
  Points v stale key (found w i) =
      (w ≡ v) × ((x : A) × (get_elem? v.items i ≡ some x) × (key_of x ≡ key))
  Points v stale key (opened w i) = (w.items ≡ open_slot stale i v.items) × (i ≤ length v.items)
  Points v stale key null = Unit
  Points v stale key fault = ⊥

  pub member_at :
      (xs : List A) (i key : ℕ)
      → i < length (map key_of xs)
      → key_at (map key_of xs) i ≡ key
      → (x : A) × (get_elem? xs i ≡ some x) × (key_of x ≡ key)
  member_at [] i key h e = absurd (omega arith)
  member_at (x ∷ xs) zero key h e = (x, refl, e)
  member_at (x ∷ xs) (suc i) key h e = member_at xs i key (omega arith) e

  module _ (alloc : ℕ → Bool) (stale : A) (v : Vector A) (key : ℕ) where
    make_room-Points :
        (i : ℕ) → i ≤ length v.items → Points v stale key (make_room key_of alloc stale v i)
    unfolding make_room
    make_room-Points i l = ground arith

    after_search-Points :
        (o : Option (ℕ × ℕ))
        → Returns o (Inside key (map key_of v.items))
        → Points v stale key (after_search key_of alloc stale v o)
    after_search-Points none r = r
    after_search-Points (some (i, zero)) l =
        make_room-Points i (omega (arith, l.0, length-keys_of key_of v.items))
    after_search-Points (some (i, suc m)) l =
        let hit = l.1 (λ e. cc) in (refl, member_at v.items i key hit.0 hit.1)

    pub find_or_insert-Points : Points v stale key (find_or_insert key_of alloc stale v key)
    unfolding find_or_insert
    find_or_insert-Points =
        after_search-Points (binary_search key (map key_of v.items))
          (binary_search-Inside key (map key_of v.items))
