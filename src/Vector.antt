-- ===== src/Vector.antt =====
-- src/ot_vector.c, include/ot_vector.h: the growable sorted arrays. The initialised part of an array
-- is a list, an index stands for a pointer into it, and the key of a member is its compared bytes
-- read as one big-endian number, whose order is the order of `memcmp`.
pub mod Search
pub mod Sorted
pub mod Insert
pub mod Shrink
use bt_server.Prelude.{
  ℕ, zero, suc, ◌+◌, ◌-◌, ◌*◌, ◌/◌, List, [], ◌∷◌, ◌++◌, map, Option, none, some, Bool, true, false,
  ◌&&◌, ltb, leb, ◌==◌, if◌then◌else◌, length, get_elem?, take, drop,
}

-- OT_VECTOR_MIN_MEMBERS, OT_VECTOR_GROW_RATIO, OT_VECTOR_SHRINK_THRESH, OT_VECTOR_SHRINK_RATIO
abbrev pub min_members : ℕ
min_members = 2

abbrev pub grow_ratio : ℕ
grow_ratio = 2

abbrev pub shrink_thresh : ℕ
shrink_thresh = 4

abbrev pub shrink_ratio : ℕ
shrink_ratio = 2

-- The loop of `binary_search`: `base` is the index of the pointer of that name. A read outside the
-- initialised part faults (`none`). The result is the index of the returned pointer and the value
-- stored in `*exactmatch`.
search_loop : ℕ → List ℕ → ℕ → ℕ → ℕ → Option (ℕ × ℕ)
search_loop zero keys key base interval = none
search_loop (suc fuel) keys key base interval = elim (interval == 0) [
  | true ↦ some (base, 0)
  | false ↦ elim (get_elem? keys (base + interval / 2)) [
    | none ↦ none
    | some k ↦ elim (k == key) [
      | true ↦ some (base + interval / 2, interval)
      | false ↦ elim (ltb k key) [
        | true ↦ search_loop fuel keys key (base + interval / 2 + 1) ((interval - 1) / 2)
        | false ↦ search_loop fuel keys key base (interval / 2)
      ]
    ]
  ]
]

unfoldable pub binary_search : ℕ → List ℕ → Option (ℕ × ℕ)
unfolding search_loop
binary_search key keys = search_loop (suc (length keys)) keys key 0 (length keys)

-- `ot_vector`: `items` are the first `size` members of `data`, `space` counts the allocated ones.
pub record Vector (A : Type 0) : Type 0 where
  pub items : List A
  pub space : ℕ

-- What a lookup leaves: the vector and the index of the returned pointer, `found` where
-- `*exactmatch` is set and `opened` where it is 0; `null` where the resizing failed and nothing has
-- changed; `fault` for a read outside the initialised part.
pub data Slot (A : Type 0) : Type 0 where
  found : Vector A → ℕ → Slot A
  opened : Vector A → ℕ → Slot A
  null : Slot A
  fault : Slot A

-- `memmove( match + 1, match, … )`: the slot keeps the member that stood there, or, behind the last
-- one, whatever the memory held.
abbrev pub head_or : {A : Type 0} → A → List A → A
head_or stale [] = stale
head_or stale (x ∷ xs) = x

unfoldable pub open_slot : {A : Type 0} → A → ℕ → List A → List A
open_slot stale i xs = take i xs ++ (head_or stale (drop i xs) ∷ drop i xs)

-- `new_space` of `vector_find_or_insert`
abbrev pub new_space : ℕ → ℕ
new_space space = if space == 0 then min_members else grow_ratio * space

-- `alloc n` tells whether `realloc` to `n` members succeeds; `stale` is uninitialised memory.
module _ {A : Type 0} (key_of : A → ℕ) (alloc : ℕ → Bool) (stale : A) where
  -- The part of `vector_find_or_insert` behind the search.
  unfoldable pub make_room : Vector A → ℕ → Slot A
  make_room v i =
      if ltb v.space (length v.items + 1)
      then if alloc (new_space v.space)
        then opened (record { items = open_slot stale i v.items; space = new_space v.space }) i
        else null
      else opened (record v { items = open_slot stale i v.items }) i

  abbrev pub after_search : Vector A → Option (ℕ × ℕ) → Slot A
  after_search v none = fault
  after_search v (some (i, zero)) = make_room v i
  after_search v (some (i, suc m)) = found v i

  -- `vector_find_or_insert`, and the part of `vector_find_or_insert_peer` behind its first test.
  unfoldable pub find_or_insert : Vector A → ℕ → Slot A
  find_or_insert v key = after_search v (binary_search key (map key_of v.items))

-- `memmove( match, match + 1, … )`
unfoldable pub remove_at : {A : Type 0} → ℕ → List A → List A
remove_at i xs = take i xs ++ drop (suc i) xs

-- The end of `vector_remove_torrent`, behind `free_peerlist`. Shrinking by `realloc` does not fail.
unfoldable pub remove_member : {A : Type 0} → Vector A → ℕ → Vector A
remove_member v i =
    if length v.items == 0
    then v
    else let size = length v.items - 1 in
      record {
        items = remove_at i v.items;
        space =
            if ltb (size * shrink_thresh) v.space && leb (shrink_ratio * min_members) v.space
            then v.space / shrink_ratio
            else v.space;
      }

-- The loop of `vector_fixup_peers`.
shrink_loop : ℕ → ℕ → ℕ → ℕ
shrink_loop zero size space = space
shrink_loop (suc fuel) size space =
    elim (ltb (size * shrink_thresh) space && leb (shrink_ratio * min_members) space) [
      | true ↦ shrink_loop fuel size (space / shrink_ratio)
      | false ↦ space
    ]

unfoldable pub fixup_peers : {A : Type 0} → Vector A → Vector A
unfolding shrink_loop
fixup_peers v =
    if length v.items == 0
    then record { items = []; space = 0 }
    else record v { space = shrink_loop v.space (length v.items) v.space }
