-- ===== src/Examples/Vectors.antt =====
-- The sorted vectors.
use bt_server.Prelude.{ℕ, ◌≡◌, ◌≤◌, refl, List, [], ◌∷◌, true, some, arith}
use bt_server.Vector.{Vector, find_or_insert, binary_search, fixup_peers}
use bt_server.Vector.Search.{Locates, Returns, IsAscending, binary_search-Locates}
use bt_server.Vector.Sorted.{IsChain→IsAscending}
use bt_server.Vector.Insert.{Stores, Fits, find_or_insert-Stores}
use bt_server.Vector.Shrink.{IsTight, fixup_peers-IsTight}

abbrev keys : List ℕ
keys = 2 ∷ 5 ∷ 9 ∷ []

keys-IsAscending : IsAscending keys
keys-IsAscending = IsChain→IsAscending keys (omega arith)

search_hit : binary_search 9 keys ≡ some (2, 1)
unfolding binary_search
search_hit = refl

search_miss : binary_search 6 keys ≡ some (2, 0)
unfolding binary_search
search_miss = refl

binary_search-Locates_example : Returns (binary_search 6 keys) (Locates 6 keys)
binary_search-Locates_example = binary_search-Locates 6 keys keys-IsAscending

abbrev vector : Vector ℕ
vector = record { items = keys; space = 3 }

find_or_insert-Stores_example :
    Stores (λ k. k) vector 6 (λ n. true) (find_or_insert (λ k. k) (λ n. true) 0 vector 6)
find_or_insert-Stores_example =
    find_or_insert-Stores (λ k. k) (λ n. true) 0 6 vector keys-IsAscending

abbrev loose : Vector ℕ
loose = record { items = keys; space = 64 }

shrinks : (fixup_peers loose).space ≡ 8
unfolding fixup_peers
shrinks = refl

fixup_peers-IsTight_example :
    ((fixup_peers loose).items ≡ keys)
    × Fits (fixup_peers loose)
    × IsTight 3 (fixup_peers loose).space
    × ((fixup_peers loose).space ≤ 64)
    × (◌≡◌ {A = ℕ} 3 0 → (fixup_peers loose).space ≡ 0)
fixup_peers-IsTight_example = fixup_peers-IsTight loose (omega arith)
