-- ===== src/Clean.antt =====
-- src/ot_clean.c: ageing the peers of a torrent. Times are minutes; `time_t` is an integer, a peer's
-- age is a `uint8_t`, and the counters of a peer list are `size_t`.
pub mod Bucket
pub mod Counters
use bt_server.Prelude.{
  ℕ, zero, suc, ◌+◌, ◌-◌, ◌*◌, ◌/◌, ◌%◌, ◌^◌, List, [], ◌∷◌, Bool, true, false, ◌||◌, Option, none,
  some, ltb, leb, ◌==◌, if◌then◌else◌, length, get_elem?,
}
use bt_server.Prelude.Int.{ℤ, pos, negsuc, ◌+ℤ◌, ◌-ℤ◌, ltb_ℤ}
use bt_server.Vector.{Vector, fixup_peers}
use bt_server.Peers.{Peer, PeerStore, is_seeding}
use bt_server.Peers.Redistribute.{Grants, redistribute}

-- OT_PEER_TIMEOUT, OT_TORRENT_TIMEOUT, OT_PEER_BUCKET_MINCOUNT
abbrev pub peer_timeout : ℕ
peer_timeout = 45

abbrev pub torrent_timeout : ℕ
torrent_timeout = 1440

abbrev pub bucket_mincount : ℕ
bucket_mincount = 512

-- `size_t` arithmetic
abbrev pub size_mod : ℕ
size_mod = 0x1_0000_0000_0000_0000

abbrev pub add_size : ℕ → ℕ → ℕ
add_size a b = (a + b) % size_mod

abbrev pub sub_size : ℕ → ℕ → ℕ
sub_size a b = (a + (size_mod - b % size_mod)) % size_mod

-- The conversion of a `time_t` to a `uint8_t`.
abbrev pub to_u8 : ℤ → ℕ
to_u8 (pos n) = n % 256
to_u8 (negsuc n) = 255 - n % 256

-- `ot_peerlist`
pub record PeerList : Type 0 where
  pub base : ℤ
  pub seed_count : ℕ
  pub peer_count : ℕ
  pub down_count : ℕ
  pub peers : PeerStore

-- `timedout + OT_PEERTIME( peers ) < OT_PEER_TIMEOUT`
unfoldable pub stays : ℤ → Peer → Bool
stays timedout p = ltb_ℤ (timedout +ℤ pos p.time) (pos peer_timeout)

unfoldable pub aged : ℤ → Peer → Peer
aged timedout p = record p { time = to_u8 (timedout +ℤ pos p.time) }

-- What a pass over the peers leaves: those kept, and how many peers and seeders were removed.
pub record Cleaned : Type 0 where
  pub kept : List Peer
  pub removed : ℕ
  pub removed_seeders : ℕ

abbrev pub keep : Peer → Cleaned → Cleaned
keep p c = record c { kept = p ∷ c.kept }

abbrev pub drop_peer : Peer → Cleaned → Cleaned
drop_peer p c = record c {
  removed = c.removed + 1;
  removed_seeders = if is_seeding p then c.removed_seeders + 1 else c.removed_seeders;
}

-- The second loop of `clean_single_bucket`, which copies the peers that stay.
unfoldable pub clean_copy : ℤ → List Peer → Cleaned
clean_copy timedout [] = record { kept = []; removed = 0; removed_seeders = 0 }
clean_copy timedout (p ∷ ps) =
    let rest = clean_copy timedout ps in
    if stays timedout p then keep (aged timedout p) rest else drop_peer p rest

-- `clean_single_bucket`: the first loop, up to the first peer to remove, then the second.
unfoldable pub clean_single_bucket : ℤ → List Peer → Cleaned
clean_single_bucket timedout [] = record { kept = []; removed = 0; removed_seeders = 0 }
clean_single_bucket timedout (p ∷ ps) =
    let rest = clean_single_bucket timedout ps in
    if stays timedout p then keep (aged timedout p) rest else clean_copy timedout (p ∷ ps)

-- The loop over the buckets: the cleaned buckets, and the number of peers and seeders removed.
pub record Swept : Type 0 where
  pub lists : List (Vector Peer)
  pub peers_gone : ℕ
  pub seeders_gone : ℕ

-- `if( bucket_list->size < removed_peers )`, with the size already reduced
abbrev pub shrunk : Vector Peer → Cleaned → Vector Peer
shrunk v c =
    let w : Vector Peer = record v { items = c.kept } in
    if ltb (length c.kept) c.removed then fixup_peers w else w

unfoldable pub sweep : ℤ → List (Vector Peer) → Swept
sweep timedout [] = record { lists = []; peers_gone = 0; seeders_gone = 0 }
sweep timedout (v ∷ vs) =
    let c = clean_single_bucket timedout v.items in
    let rest = sweep timedout vs in
    record {
      lists = shrunk v c ∷ rest.lists;
      peers_gone = c.removed + rest.peers_gone;
      seeders_gone = c.removed_seeders + rest.seeders_gone;
    }

-- The part of `clean_single_torrent` behind its early returns.
abbrev pub swept_list : ℤ → PeerList → PeerList
swept_list timedout l =
    let s = sweep timedout l.peers.lists in
    record l {
      peers = record (l.peers) { lists = s.lists };
      peer_count = sub_size l.peer_count s.peers_gone;
      seed_count = sub_size l.seed_count s.seeders_gone;
    }

abbrev pub rebased : ℕ → PeerList → PeerList
rebased now l = record l {
  base = if l.peer_count == 0 then pos now -ℤ pos peer_timeout else pos now;
}

abbrev pub with_store : PeerList → Option PeerStore → Option PeerList
with_store l none = none
with_store l (some s) = some (record l { peers = s })

abbrev pub regrouped : Grants → PeerList → Option PeerList
regrouped g l =
    if ltb bucket_mincount l.peer_count || l.peers.has_buckets
    then with_store l (redistribute g l.peer_count l.peers)
    else some l

abbrev pub finish : ℕ → Option PeerList → Option (Bool × PeerList)
finish now none = none
finish now (some l) = some (false, rebased now l)

abbrev pub clean_peers : Grants → ℕ → ℤ → PeerList → Option (Bool × PeerList)
clean_peers g now timedout l = finish now (regrouped g (swept_list timedout l))

abbrev pub is_zero_ℤ : ℤ → Bool
is_zero_ℤ (pos n) = n == 0
is_zero_ℤ (negsuc n) = false

-- `clean_single_torrent`: whether the torrent has timed out, and its peer list. `now` is
-- `g_now_minutes`.
unfoldable pub clean_single_torrent : Grants → ℕ → PeerList → Option (Bool × PeerList)
clean_single_torrent g now l =
    let timedout = pos now -ℤ l.base in
    if is_zero_ℤ timedout
    then some (false, l)
    else if ltb_ℤ (pos torrent_timeout) timedout
    then some (true, l)
    else if ltb_ℤ (pos peer_timeout) timedout
    then if l.peer_count == 0
      then some (l.down_count == 0, l)
      else clean_peers g now (pos peer_timeout) l
    else clean_peers g now timedout l
