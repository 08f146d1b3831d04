-- ===== src/Vector/Shrink.antt =====
-- Giving memory back: `vector_fixup_peers` and the end of `vector_remove_torrent`.
use bt_server.Prelude.{
  ℕ, zero, suc, ◌+◌, ◌*◌, ◌/◌, ◌≤◌, ◌<◌, ◌≡◌, ◌⊎◌, refl, List, [], ◌∷◌, arith, length, inr,
}
use bt_server.Vector.{Vector, shrink_loop, fixup_peers, remove_at, remove_member}
use bt_server.Vector.Insert.{Fits, length-remove_at}

-- Not worth shrinking: a quarter is in use, or fewer than four members are allocated.
abbrev pub IsTight : ℕ → ℕ → Type 0
IsTight size space = (space ≤ size * 4) ⊎ (space < 4)

shrink_loop-IsTight :
    (fuel size space : ℕ)
    → space ≤ fuel
    → size ≤ space
    → IsTight size (shrink_loop fuel size space)
      × (size ≤ shrink_loop fuel size space)
      × (shrink_loop fuel size space ≤ space)
unfolding shrink_loop
shrink_loop-IsTight zero size space h fits = (inr (omega arith), omega arith, omega arith)
shrink_loop-IsTight (suc fuel) size space h fits =
    ground (arith, shrink_loop-IsTight fuel size (space / 2))

fixup_items :
    {A : Type 0} (items : List A) (space : ℕ)
    → length items ≤ space
    → let w = fixup_peers (record { items = items; space = space }) in
      (w.items ≡ items)
      × (length w.items ≤ w.space)
      × IsTight (length items) w.space
      × (w.space ≤ space)
      × (length items ≡ 0 → w.space ≡ 0)
unfolding fixup_peers
fixup_items [] space fits = (refl, omega arith, inr (omega arith), omega arith, λ _. refl)
fixup_items (x ∷ xs) space fits =
    let t = shrink_loop-IsTight space (suc (length xs)) space (omega arith) fits in
    ground (arith, t)

-- After `vector_fixup_peers` the members are the same, they still fit, and the vector is tight:
-- either a quarter of the space is used or fewer than four members are allocated. An empty vector
-- gives all its memory back.
pub fixup_peers-IsTight :
    {A : Type 0} (v : Vector A)
    → Fits v
    → ((fixup_peers v).items ≡ v.items)
      × Fits (fixup_peers v)
      × IsTight (length v.items) (fixup_peers v).space
      × ((fixup_peers v).space ≤ v.space)
      × (length v.items ≡ 0 → (fixup_peers v).space ≡ 0)
fixup_peers-IsTight v fits = fixup_items v.items v.space fits

-- Removing a torrent's member keeps what fits.
pub remove_member-Fits :
    {A : Type 0} (v : Vector A) (i : ℕ)
    → i < length v.items
    → Fits v
    → ((remove_member v i).items ≡ remove_at i v.items)
      × Fits (remove_member v i)
      × (length (remove_member v i).items + 1 ≡ length v.items)
unfolding remove_member
remove_member-Fits v i h fits = ground (arith, length-remove_at i v.items h)

fixup_kept_list :
    {A : Type 0} (items : List A) (space : ℕ)
    → (fixup_peers (record { items = items; space = space })).items ≡ items
unfolding fixup_peers
fixup_kept_list [] space = refl
fixup_kept_list (x ∷ xs) space = ground arith

pub fixup_peers_kept : {A : Type 0} (v : Vector A) → (fixup_peers v).items ≡ v.items
fixup_peers_kept v = fixup_kept_list v.items v.space
