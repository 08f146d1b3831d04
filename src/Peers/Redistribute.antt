-- ===== src/Peers/Redistribute.antt =====
-- `vector_redistribute_buckets` of src/ot_vector.c: a peer list changes between one vector and 16 or
-- 64 buckets with its number of peers. The memory that is asked for may be refused at each place.
pub mod Census
use bt_server.Prelude.{
  ℕ, zero, suc, ◌+◌, ◌-◌, ◌*◌, ◌/◌, List, [], ◌∷◌, ◌++◌, map, Bool, true, false, not, ◌&&◌, Option,
  none, some, ltb, leb, ◌==◌, if◌then◌else◌, length, get_elem?, set, replicate,
}
use bt_server.Vector.{Vector, grow_ratio, min_members}
use bt_server.Peers.{Peer, PeerStore, hash_peer}

-- Which requests succeed: that for the new buckets, that for the peers of each bucket, and that to
-- let a bucket grow when so many peers have been moved.
pub record Grants : Type 0 where
  pub new_list : Bool
  pub bucket : ℕ → Bool
  pub grow : ℕ → Bool

-- `num_buckets_new`
unfoldable pub num_buckets_new : ℕ → ℕ → ℕ
num_buckets_new peer_count num_buckets_old =
    if ltb peer_count 255
    then 1
    else if ltb 8192 peer_count
    then 64
    else if leb 512 peer_count && ltb peer_count 4096
    then 16
    else if ltb peer_count 512 && leb num_buckets_old 16
    then num_buckets_old
    else if ltb peer_count 512
    then 1
    else if ltb peer_count 8192 && ltb 1 num_buckets_old
    then num_buckets_old
    else 16

-- `while( bucket_size_new < tmp)`
unfoldable pub size_loop : ℕ → ℕ → ℕ → ℕ
size_loop zero size tmp = size
size_loop (suc fuel) size tmp = elim (ltb size tmp) [
  | true ↦ size_loop fuel (size * grow_ratio) tmp
  | false ↦ size
]

abbrev pub all_granted : ℕ → (ℕ → Bool) → Bool
all_granted zero granted = true
all_granted (suc n) granted = granted n && all_granted n granted

pub data Moved : Type 0 where
  moved : List (Vector Peer) → Moved
  refused : Moved
  bad_write : Moved

-- Go on with the new buckets, unless the moving has stopped.
abbrev pub then_move : Moved → (List (Vector Peer) → Moved) → Moved
then_move (moved lists) k = k lists
then_move refused k = refused
then_move bad_write k = bad_write

-- One round of the inner loop, for the bucket that the peer goes to.
unfoldable pub append_peer : Bool → Peer → Vector Peer → Option (Vector Peer)
append_peer granted p v =
    if ltb v.space (length v.items + 1)
    then if granted
      then some (record { items = v.items ++ (p ∷ []); space = v.space * grow_ratio })
      else none
    else some (record v { items = v.items ++ (p ∷ []) })

abbrev pub dest : ℕ → Peer → ℕ
dest n p = if ltb 1 n then hash_peer p.key n else 0

abbrev pub put_moved : List (Vector Peer) → ℕ → Option (Vector Peer) → Moved
put_moved lists b none = refused
put_moved lists b (some v) = moved (set lists b v)

unfoldable pub move_peer : ℕ → Bool → List (Vector Peer) → Peer → Moved
move_peer n granted lists p = elim (get_elem? lists (dest n p)) [
  | none ↦ bad_write
  | some v ↦ put_moved lists (dest n p) (append_peer granted p v)
]

-- The loop over the peers of one old bucket; `count` peers have been moved before.
unfoldable pub move_peers : ℕ → (ℕ → Bool) → List (Vector Peer) → ℕ → List Peer → Moved
move_peers n grow lists count [] = moved lists
move_peers n grow lists count (p ∷ ps) =
    then_move (move_peer n (grow count) lists p) (λ lists'. move_peers n grow lists' (count + 1) ps)

-- The loop over the old buckets.
unfoldable pub move_lists : ℕ → (ℕ → Bool) → List (Vector Peer) → ℕ → List (Vector Peer) → Moved
move_lists n grow lists count [] = moved lists
move_lists n grow lists count (v ∷ vs) =
    then_move (move_peers n grow lists count v.items)
      (λ lists'. move_lists n grow lists' (count + length v.items) vs)

-- `qsort` by `vector_compare_peer`; keys of peers do not repeat, so there is one sorted order.
unfoldable pub insert_by_key : Peer → List Peer → List Peer
insert_by_key p [] = p ∷ []
insert_by_key p (q ∷ qs) = if leb p.key q.key then p ∷ q ∷ qs else q ∷ insert_by_key p qs

unfoldable pub qsort : List Peer → List Peer
qsort [] = []
qsort (p ∷ ps) = insert_by_key p (qsort ps)

abbrev pub sort_vector : Vector Peer → Vector Peer
sort_vector v = record v { items = qsort v.items }

abbrev pub num_buckets_old : PeerStore → ℕ
num_buckets_old s = if s.has_buckets then length s.lists else 1

-- The end of the function, which links the new buckets; `none` is a write outside them.
abbrev pub link : ℕ → PeerStore → Moved → Option PeerStore
link n s (moved lists) = some (record { has_buckets = ltb 1 n; lists = map sort_vector lists })
link n s refused = some s
link n s bad_write = none

-- `bucket_list_new` with the memory of all buckets
abbrev pub empty_buckets : ℕ → ℕ → List (Vector Peer)
empty_buckets n peer_count =
    replicate n
      (record { items = []; space = size_loop (peer_count / n) min_members (peer_count / n) })

unfoldable pub redistribute : Grants → ℕ → PeerStore → Option PeerStore
redistribute g peer_count s =
    let n = num_buckets_new peer_count (num_buckets_old s) in
    if n == num_buckets_old s
    then some s
    else if not (g.new_list && all_granted n g.bucket)
    then some s
    else link n s (move_lists n g.grow (empty_buckets n peer_count) 0 s.lists)
