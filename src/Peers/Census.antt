-- ===== src/Peers/Census.antt =====
-- What `vector_find_or_insert_peer` and `vector_remove_peer` do to the number of peers of any kind.
use bt_server.Prelude.{
  ℕ, zero, suc, ◌+◌, ◌<◌, ◌≡◌, ◌≢◌, ◌⊎◌, refl, List, [], ◌∷◌, map, Bool, false, Option, none, some,
  arith, ◌==◌, if◌then◌else◌, length, get_elem?, set, ap, length-set, Bool-cases, inl, inr,
  get_elem?-set_self, Option-cases,
}
use bt_server.Vector.{
  Vector, Slot, found, opened, null, fault, find_or_insert, remove_at, fixup_peers, binary_search,
}
use bt_server.Vector.Search.{Returns, Inside, binary_search-Inside}
use bt_server.Vector.Insert.{Points, find_or_insert-Points, member_at}
use bt_server.Vector.Shrink.{fixup_peers_kept}
use bt_server.Peers.{
  Peer, PeerStore, PeerSlot, found_at, opened_at, no_room, bad_read, bucket_of, key_of, in_bucket,
  find_or_insert_peer, write_peer, read_peer, remove_peer, remove_found, put_vector, is_seeding,
  outer_size, hash_peer,
}
use bt_server.Peers.Weight.{
  sum_over, sum_over-set, sum_over-set_slot, sum_over-remove_at, vector_weight, weight,
}

pub get_elem?-total :
    {A : Type 0} (xs : List A) (i : ℕ) → i < length xs → (x : A) × (get_elem? xs i ≡ some x)
get_elem?-total [] i h = absurd (omega arith)
get_elem?-total (x ∷ xs) zero h = (x, refl)
get_elem?-total (x ∷ xs) (suc i) h = get_elem?-total xs i (omega arith)

pub set-set : {A : Type 0} (xs : List A) (i : ℕ) (x y : A) → set (set xs i x) i y ≡ set xs i y
set-set [] i x y = refl
set-set (z ∷ zs) zero x y = refl
set-set (z ∷ zs) (suc i) x y = ap (λ r. z ∷ r) (set-set zs i x y)

pub get_elem?-lt :
    {A : Type 0} (xs : List A) (i : ℕ) (x : A) → get_elem? xs i ≡ some x → i < length xs
get_elem?-lt [] i x h = cc
get_elem?-lt (z ∷ zs) zero x h = omega arith
get_elem?-lt (z ∷ zs) (suc i) x h = omega (arith, get_elem?-lt zs i x h)

-- A single vector, or at least one bucket.
pub record IsShaped (s : PeerStore) : Type 0 where
  pub some_list : 0 < length s.lists
  pub single : s.has_buckets ≡ false → length s.lists ≡ 1

pub bucket_of-lt : (s : PeerStore) (key : ℕ) → IsShaped s → bucket_of s key < length s.lists
unfolding hash_peer
bucket_of-lt s key h = ground (arith, h.some_list)

-- What a lookup by `key` leaves: a store with the same census whose pointed peer has the key, or one
-- with a slot that a write fills.
abbrev pub SlotCensus : PeerStore → ℕ → PeerSlot → Type 0
SlotCensus s key (found_at t b i) =
    (p : Peer) × (read_peer t b i ≡ some p)
    × (p.key ≡ key)
    × (t.has_buckets ≡ s.has_buckets)
    × (length t.lists ≡ length s.lists)
    × ((w : Peer → ℕ) → weight w t ≡ weight w s)
SlotCensus s key (opened_at t b i) =
    (t.has_buckets ≡ s.has_buckets)
    × (length t.lists ≡ length s.lists)
    × ((w : Peer → ℕ) (x : Peer) → weight w (write_peer t b i x) ≡ weight w s + w x)
SlotCensus s key no_room = Unit
SlotCensus s key bad_read = ⊥

pub write_peer-weight :
    (w : Peer → ℕ) (s : PeerStore) (b i : ℕ) (p x : Peer)
    → read_peer s b i ≡ some p
    → weight w (write_peer s b i x) + w p ≡ weight w s + w x
unfolding read_peer write_peer
write_peer-weight w s b i p x h = elim (Option-cases (get_elem? s.lists b)) [
  | inl e ↦ ground arith
  | inr (v, e) ↦ ground (
    arith,
    sum_over-set (vector_weight w) s.lists b v (record v { items = set v.items i x }) e,
    sum_over-set w v.items i p x,
  )
]

in_bucket-SlotCensus :
    (s : PeerStore) (key : ℕ) (stale : Peer) (b : ℕ) (v : Vector Peer) (o : Slot Peer)
    → get_elem? s.lists b ≡ some v
    → Points key_of v stale key o
    → SlotCensus s key (in_bucket s b o)
unfolding write_peer read_peer
in_bucket-SlotCensus s key stale b v (found u i) e (same, (p, seen, eq)) =
    let there = get_elem?-set_self s.lists b u (get_elem?-lt s.lists b v e) in
    (
      p,
      ground (arith, there),
      eq,
      refl,
      length-set s.lists b u,
      λ w. ground (arith, sum_over-set (vector_weight w) s.lists b v u e),
    )
in_bucket-SlotCensus s key stale b v (opened u i) e (items, inside) =
    let there = get_elem?-set_self s.lists b u (get_elem?-lt s.lists b v e) in
    (
      refl,
      length-set s.lists b u,
      λ w x. ground (
        arith,
        there,
        set-set s.lists b u (record u { items = set u.items i x }),
        sum_over-set (vector_weight w) s.lists b v (record u { items = set u.items i x }) e,
        sum_over-set_slot w v.items i stale x inside,
      ),
    )
in_bucket-SlotCensus s key stale b v null e h = tt
in_bucket-SlotCensus s key stale b v fault e h = h

find_or_insert_peer-in_bucket :
    (alloc : ℕ → Bool) (stale : Peer) (s : PeerStore) (key : ℕ) (v : Vector Peer)
    → get_elem? s.lists (bucket_of s key) ≡ some v
    → find_or_insert_peer alloc stale s key
      ≡ in_bucket s (bucket_of s key) (find_or_insert key_of alloc stale v key)
unfolding find_or_insert_peer
find_or_insert_peer-in_bucket alloc stale s key v e = ground arith

-- On a store of a proper shape, flat or with buckets, the lookup of a peer never reads outside it.
-- It points to a peer with the key and changes the number of no peers, or to a slot such that
-- writing a peer into it adds exactly that peer, or memory was refused.
pub find_or_insert_peer-SlotCensus :
    (alloc : ℕ → Bool) (stale : Peer) (s : PeerStore) (key : ℕ)
    → IsShaped s
    → SlotCensus s key (find_or_insert_peer alloc stale s key)
find_or_insert_peer-SlotCensus alloc stale s key h =
    let (v, e) = get_elem?-total s.lists (bucket_of s key) (bucket_of-lt s key h) in
    rw (find_or_insert_peer-in_bucket alloc stale s key v e) (
      in_bucket-SlotCensus s key stale (bucket_of s key) v (find_or_insert key_of alloc stale v key)
        e (find_or_insert-Points key_of alloc stale v key))

-- What `vector_remove_peer` leaves: nothing is changed where it returns 0, and otherwise one peer
-- with the key is gone, a seeding one exactly where it returns 2.
abbrev pub RemoveCensus : PeerStore → ℕ → Option (PeerStore × ℕ) → Type 0
RemoveCensus s key none = ⊥
RemoveCensus s key (some (t, code)) =
    (t.has_buckets ≡ s.has_buckets)
    × (length t.lists ≡ length s.lists)
    × (((code ≡ 0) × ((w : Peer → ℕ) → weight w t ≡ weight w s))
        ⊎ ((p : Peer) × (p.key ≡ key)
            × (code ≡ (if is_seeding p then 2 else 1))
            × ((w : Peer → ℕ) → weight w t + w p ≡ weight w s)))

removed-RemoveCensus :
    (s : PeerStore) (key b i : ℕ) (v : Vector Peer) (p : Peer)
    → get_elem? s.lists b ≡ some v
    → get_elem? v.items i ≡ some p
    → p.key ≡ key
    → let u = fixup_peers (record v { items = remove_at i v.items }) in
      RemoveCensus s key
        (some (record s { lists = set s.lists b u }, if is_seeding p then 2 else 1))
removed-RemoveCensus s key b i v p e q k =
    let shorter : Vector Peer = record v { items = remove_at i v.items } in
    (
      refl,
      length-set s.lists b (fixup_peers shorter),
      inr (
        p,
        k,
        refl,
        λ w. ground (
          arith,
          fixup_peers_kept shorter,
          ap (sum_over w) (fixup_peers_kept shorter),
          sum_over-set (vector_weight w) s.lists b v (fixup_peers shorter) e,
          sum_over-remove_at w v.items i p q,
        ),
      ),
    )

remove_found-hit :
    (v : Vector Peer) (i m : ℕ) (p : Peer)
    → get_elem? v.items i ≡ some p
    → remove_found v (some (i, suc m))
      ≡ some (fixup_peers (record v { items = remove_at i v.items }), if is_seeding p then 2 else 1)
remove_found-hit v i m p e = ground arith

found-RemoveCensus :
    (s : PeerStore) (key b : ℕ) (v : Vector Peer) (o : Option (ℕ × ℕ))
    → get_elem? s.lists b ≡ some v
    → Returns o (Inside key (map key_of v.items))
    → RemoveCensus s key (put_vector s b (remove_found v o))
found-RemoveCensus s key b v none e h = h
found-RemoveCensus s key b v (some (i, zero)) e h = (
  refl,
  length-set s.lists b v,
  inl (refl, λ w. ground (arith, sum_over-set (vector_weight w) s.lists b v v e)),
)
found-RemoveCensus s key b v (some (i, suc m)) e h =
    let (p, q, k) = member_at key_of v.items i key (h.1 (λ z. cc)).0 (h.1 (λ z. cc)).1 in
    rw (remove_found-hit v i m p q) (removed-RemoveCensus s key b i v p e q k)

remove_peer-empty : (s : PeerStore) (key : ℕ) → outer_size s ≡ 0 → remove_peer s key ≡ some (s, 0)
unfolding remove_peer
remove_peer-empty s key h = ground arith

remove_peer-put :
    (s : PeerStore) (key : ℕ) (v : Vector Peer)
    → outer_size s ≢ 0
    → get_elem? s.lists (bucket_of s key) ≡ some v
    → remove_peer s key
      ≡ put_vector s (bucket_of s key) (remove_found v (binary_search key (map key_of v.items)))
unfolding remove_peer
remove_peer-put s key v h e = ground arith

-- On a store of a proper shape `vector_remove_peer` never reads outside it. With the result 0 the
-- store holds what it held; with 1 or 2 exactly one peer with the key is gone, a seeder where the
-- result is 2.
pub remove_peer-RemoveCensus :
    (s : PeerStore) (key : ℕ) → IsShaped s → RemoveCensus s key (remove_peer s key)
remove_peer-RemoveCensus s key h = elim (Bool-cases (outer_size s == 0)) [
  | inl empty ↦ rw (remove_peer-empty s key (ground arith)) (refl, refl, inl (refl, λ w. refl))
  | inr filled ↦
      let (v, e) = get_elem?-total s.lists (bucket_of s key) (bucket_of-lt s key h) in
      rw (remove_peer-put s key v (ground arith) e) (
        found-RemoveCensus s key (bucket_of s key) v (binary_search key (map key_of v.items)) e
          (binary_search-Inside key (map key_of v.items)))
]
