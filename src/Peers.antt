-- ===== src/Peers.antt =====
-- The peers of one torrent: `ot_peer` and `ot_peerlist` of include/trackerlogic.h and the functions of
-- src/ot_vector.c over them. `peers` of a list is one sorted vector, or, where it has more members
-- than space, an array of such vectors, the buckets, with a peer in the bucket that its hash names.
pub mod Weight
pub mod Census
pub mod Redistribute
use bt_server.Prelude.{
  ℕ, zero, suc, ◌+◌, ◌-◌, ◌*◌, ◌/◌, ◌%◌, ◌^◌, List, [], ◌∷◌, map, Bool, true, false, not, ◌&&◌,
  ◌||◌, Option, none, some, bit_and, ltb, leb, ◌==◌, if◌then◌else◌, length, get_elem?, set,
  replicate,
}
use bt_server.Vector.{
  Vector, Slot, binary_search, find_or_insert, remove_at, fixup_peers, grow_ratio, min_members,
}

-- `key` is the address and the port, the first OT_PEER_COMPARE_SIZE bytes, as a big-endian number.
pub record Peer : Type 0 where
  pub key : ℕ
  pub flag : ℕ
  pub time : ℕ

-- PEER_FLAG_SEEDING, PEER_FLAG_COMPLETED, PEER_FLAG_STOPPED
abbrev pub flag_seeding : ℕ
flag_seeding = 0x80

abbrev pub flag_completed : ℕ
flag_completed = 0x40

abbrev pub flag_stopped : ℕ
flag_stopped = 0x20

-- `flag & bit` as a condition
abbrev pub has_flag : ℕ → ℕ → Bool
has_flag flag bit = not (bit_and flag bit == 0)

abbrev pub is_seeding : Peer → Bool
is_seeding p = has_flag p.flag flag_seeding

-- The bytes of a key, of 4 bytes of address and 2 of port.
abbrev pub peer_bytes : ℕ → List ℕ
peer_bytes k =
    (k / 256 ^ 5 % 256)
    ∷ (k / 256 ^ 4 % 256)
    ∷ (k / 256 ^ 3 % 256)
    ∷ (k / 256 ^ 2 % 256)
    ∷ (k / 256 % 256)
    ∷ (k % 256)
    ∷ []

-- `hash += (hash<<5) + byte`, on 32 bits
hash_bytes : ℕ → List ℕ → ℕ
hash_bytes hash [] = hash
hash_bytes hash (b ∷ bs) = hash_bytes ((hash + hash * 32 + b) % 2 ^ 32) bs

-- The result is a `uint8_t`.
unfoldable pub hash_peer : ℕ → ℕ → ℕ
unfolding hash_bytes
hash_peer key bucket_count = hash_bytes 5381 (peer_bytes key) % bucket_count % 256

-- OT_PEERLIST_HASBUCKETS, and the vector itself or the buckets.
pub record PeerStore : Type 0 where
  pub has_buckets : Bool
  pub lists : List (Vector Peer)

abbrev pub key_of : Peer → ℕ
key_of p = p.key

-- The bucket that a peer belongs to.
abbrev pub bucket_of : PeerStore → ℕ → ℕ
bucket_of s key = if s.has_buckets then hash_peer key (length s.lists) else 0

-- As `Slot`, with the pointer given by its bucket and its index there.
pub data PeerSlot : Type 0 where
  found_at : PeerStore → ℕ → ℕ → PeerSlot
  opened_at : PeerStore → ℕ → ℕ → PeerSlot
  no_room : PeerSlot
  bad_read : PeerSlot

abbrev pub in_bucket : PeerStore → ℕ → Slot Peer → PeerSlot
in_bucket s b (Slot.found v i) = found_at (record s { lists = set s.lists b v }) b i
in_bucket s b (Slot.opened v i) = opened_at (record s { lists = set s.lists b v }) b i
in_bucket s b Slot.null = no_room
in_bucket s b Slot.fault = bad_read

-- `vector_find_or_insert_peer`
unfoldable pub find_or_insert_peer : (ℕ → Bool) → Peer → PeerStore → ℕ → PeerSlot
find_or_insert_peer alloc stale s key = elim (get_elem? s.lists (bucket_of s key)) [
  | none ↦ bad_read
  | some v ↦ in_bucket s (bucket_of s key) (find_or_insert key_of alloc stale v key)
]

-- `memcpy( peer_dest, &ws->peer, sizeof(ot_peer) )`
unfoldable pub write_peer : PeerStore → ℕ → ℕ → Peer → PeerStore
write_peer s b i p = elim (get_elem? s.lists b) [
  | none ↦ s
  | some v ↦ record s { lists = set s.lists b (record v { items = set v.items i p }) }
]

unfoldable pub read_peer : PeerStore → ℕ → ℕ → Option Peer
read_peer s b i = elim (get_elem? s.lists b) [ none ↦ none | some v ↦ get_elem? v.items i ]

-- The end of `vector_remove_peer`, with the result of the search: the vector without the peer, and
-- 0 if no peer was found, 1 if a peer was removed, 2 if a seeding one was.
abbrev pub remove_found : Vector Peer → Option (ℕ × ℕ) → Option (Vector Peer × ℕ)
remove_found v none = none
remove_found v (some (i, zero)) = some (v, 0)
remove_found v (some (i, suc m)) = elim (get_elem? v.items i) [
  | none ↦ none
  | some p ↦
      some (fixup_peers (record v { items = remove_at i v.items }), if is_seeding p then 2 else 1)
]

abbrev pub put_vector : PeerStore → ℕ → Option (Vector Peer × ℕ) → Option (PeerStore × ℕ)
put_vector s b none = none
put_vector s b (some (v, code)) = some (record s { lists = set s.lists b v }, code)

-- `vector->size` of the outer vector.
abbrev pub outer_size : PeerStore → ℕ
outer_size s =
    if s.has_buckets
    then length s.lists
    else elim (get_elem? s.lists 0) [ none ↦ 0 | some v ↦ length v.items ]

-- `vector_remove_peer`
unfoldable pub remove_peer : PeerStore → ℕ → Option (PeerStore × ℕ)
remove_peer s key =
    if outer_size s == 0 then some (s, 0) else elim (get_elem? s.lists (bucket_of s key)) [
      | none ↦ none
      | some v ↦
          put_vector s (bucket_of s key) (remove_found v (binary_search key (map key_of v.items)))
    ]
