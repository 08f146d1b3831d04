-- ===== src/Tracker.antt =====
-- src/trackerlogic.c and the bucket functions of src/ot_mutex.c: all torrents, in 1024 sorted vectors,
-- each worked on under its lock. A body takes the vector of the bucket and hands back the new vector,
-- the change of the number of torrents and what the caller answers; `none` is an access outside the
-- initialised memory. Built without WANT_SYNC, WANT_SYNC_LIVE and WANT_SPOT_WOODPECKER.
pub mod Bodies
pub mod Scrape
pub mod Add
pub mod Invariant
pub mod Requests
pub mod History
use bt_server.Prelude.{
  ℕ, zero, suc, ◌+◌, ◌-◌, ◌*◌, ◌/◌, ◌%◌, ◌^◌, List, [], ◌∷◌, map, Bool, true, false, Option, none,
  some, ltb, ◌==◌, if◌then◌else◌, length, get_elem?, set, replicate,
}
use bt_server.Prelude.Int.{ℤ, pos, negsuc}
use bt_server.Vector.{
  Vector, Slot, found, opened, null, fault, find_or_insert, binary_search, remove_member,
}
use bt_server.Peers.{Peer, PeerStore}
use bt_server.Peers.Redistribute.{Grants}
use bt_server.Clean.{PeerList, clean_single_torrent, add_size, sub_size}
use bt_server.Announce.{Announced, stored, no_memory, bad, announce, retract}

-- `ot_torrent`, the hash read as one big-endian number
pub record Torrent : Type 0 where
  pub hash : ℕ
  pub peer_list : PeerList

abbrev pub hash_of : Torrent → ℕ
hash_of t = t.hash

-- `all_torrents` and `g_torrent_count`
pub record Tracker : Type 0 where
  pub buckets : List (Vector Torrent)
  pub torrent_count : ℕ

-- OT_BUCKET_COUNT
abbrev pub bucket_count : ℕ
bucket_count = 1024

-- `all_torrents` and `g_torrent_count` as `mutex_init` leaves them.
unfoldable pub mutex_init : Tracker
mutex_init = record {
  buckets = replicate bucket_count (record { items = []; space = 0 });
  torrent_count = 0;
}

-- `uint32_read_big( hash ) >> OT_BUCKET_COUNT_SHIFT`
unfoldable pub bucket_index : ℕ → ℕ
bucket_index hash = hash / 2 ^ 128 % 2 ^ 32 / 2 ^ 22

-- What the code meets outside: the minute, which requests for memory succeed, what uninitialised
-- memory holds, and the answer of `accesslist_hashisvalid`.
pub record Env : Type 0 where
  pub now : ℕ
  pub torrent_alloc : ℕ → Bool
  pub list_alloc : Bool
  pub peer_alloc : ℕ → Bool
  pub grants : Grants
  pub stale_torrent : Torrent
  pub stale_peer : Peer
  pub hash_is_valid : ℕ → Bool

-- A body's result.
pub record Change (R : Type 0) : Type 0 where
  pub vector : Vector Torrent
  pub delta : ℤ
  pub answer : R

-- `g_torrent_count += delta_torrentcount`
abbrev pub add_delta : ℕ → ℤ → ℕ
add_delta n (pos d) = add_size n d
add_delta n (negsuc d) = sub_size n (suc d)

abbrev pub unlock : {R : Type 0} → Tracker → ℕ → Option (Change R) → Option (Tracker × R)
unlock s b none = none
unlock s b (some c) = some (
  record { buckets = set s.buckets b c.vector; torrent_count = add_delta s.torrent_count c.delta },
  c.answer,
)

-- `mutex_bucket_lock`, a body, and `mutex_bucket_unlock`
unfoldable pub with_bucket :
    {R : Type 0} → ℕ → (Vector Torrent → Option (Change R)) → Tracker → Option (Tracker × R)
with_bucket b body s = elim (get_elem? s.buckets b) [ none ↦ none | some v ↦ unlock s b (body v) ]

abbrev pub write_torrent : Vector Torrent → ℕ → Torrent → Vector Torrent
write_torrent v i t = record v { items = set v.items i t }

-- What `byte_zero` leaves of an `ot_peerlist`.
abbrev pub empty_list : PeerList
empty_list = record {
  base = pos 0;
  seed_count = 0;
  peer_count = 0;
  down_count = 0;
  peers = record { has_buckets = false; lists = record { items = []; space = 0 } ∷ [] };
}

-- What an announce answers: that the torrent is not allowed, nothing, or peers of the list.
pub data Answer : Type 0 where
  not_authorized : Answer
  nothing : Answer
  peers_of : PeerList → Answer

module _ (e : Env) where
  -- From the assignment of `base` on.
  abbrev pub entered : Vector Torrent → ℕ → ℤ → ℕ → PeerList → Announced → Option (Change Answer)
  entered w i delta hash l (stored l' es) = some (record {
    vector = write_torrent w i (record { hash = hash; peer_list = l' });
    delta = delta;
    answer = peers_of l';
  })
  entered w i delta hash l no_memory = some (record {
    vector =
        write_torrent w i (record { hash = hash; peer_list = record l { base = pos (e.now) } });
    delta = delta;
    answer = nothing;
  })
  entered w i delta hash l bad = none

  abbrev pub enter : Peer → Vector Torrent → ℕ → ℤ → ℕ → PeerList → Option (Change Answer)
  enter p w i delta hash l = entered w i delta hash l (announce e.peer_alloc e.stale_peer e.now p l)

  -- `clean_single_torrent` before the peer is entered; its result is not looked at.
  abbrev pub enter_cleaned :
      Peer → Vector Torrent → ℕ → ℕ → Option (Bool × PeerList) → Option (Change Answer)
  enter_cleaned p w i hash none = none
  enter_cleaned p w i hash (some (timed_out, l)) = enter p w i (pos 0) hash l

  abbrev pub unchanged : {R : Type 0} → Vector Torrent → R → Option (Change R)
  unchanged v r = some (record { vector = v; delta = pos 0; answer = r })

  abbrev pub add_at : Peer → ℕ → Vector Torrent → Slot Torrent → Option (Change Answer)
  add_at p hash v (found w i) = elim (get_elem? w.items i) [
    | none ↦ none
    | some t ↦ enter_cleaned p w i hash (clean_single_torrent e.grants e.now t.peer_list)
  ]
  add_at p hash v (opened w i) =
      if e.list_alloc
      then enter p w i (pos 1) hash empty_list
      else unchanged (remove_member w i) nothing
  add_at p hash v null = unchanged v nothing
  add_at p hash v fault = none

  -- The body of `add_peer_to_torrent_and_return_peers`.
  unfoldable pub add_body : Peer → ℕ → Vector Torrent → Option (Change Answer)
  add_body p hash v =
      if e.hash_is_valid hash
      then add_at p hash v (find_or_insert hash_of e.torrent_alloc e.stale_torrent v hash)
      else unchanged v not_authorized

  -- `add_peer_to_torrent_and_return_peers`, up to the bytes of its reply
  unfoldable pub add_peer_to_torrent : Peer → ℕ → Tracker → Option (Tracker × Answer)
  add_peer_to_torrent p hash = with_bucket (bucket_index hash) (add_body p hash)

  -- The peer list that `remove_peer_from_torrent` reports on: the torrent's, or `dummy_list`.
  abbrev pub retracted : Vector Torrent → ℕ → Torrent → Option PeerList → Option (Change PeerList)
  retracted v i t none = none
  retracted v i t (some l) = some (record {
    vector = write_torrent v i (record t { peer_list = l });
    delta = pos 0;
    answer = l;
  })

  abbrev pub retract_at : ℕ → Vector Torrent → Option (ℕ × ℕ) → Option (Change PeerList)
  retract_at key v none = none
  retract_at key v (some (i, zero)) = unchanged v empty_list
  retract_at key v (some (i, suc m)) = elim (get_elem? v.items i) [
    | none ↦ none
    | some t ↦ retracted v i t (retract key t.peer_list)
  ]

  unfoldable pub remove_body : ℕ → ℕ → Vector Torrent → Option (Change PeerList)
  remove_body key hash v = retract_at key v (binary_search hash (map hash_of v.items))

  -- `remove_peer_from_torrent`, up to the bytes of its reply
  unfoldable pub remove_peer_from_torrent : ℕ → ℕ → Tracker → Option (Tracker × PeerList)
  remove_peer_from_torrent key hash = with_bucket (bucket_index hash) (remove_body key hash)

  -- A scrape reports a torrent's list, or nothing where it is unknown or has timed out.
  abbrev pub scraped :
      Vector Torrent → ℕ → Torrent → Option (Bool × PeerList) → Option (Change (Option PeerList))
  scraped v i t none = none
  scraped v i t (some (true, l)) =
      some (record { vector = remove_member v i; delta = negsuc 0; answer = none })
  scraped v i t (some (false, l)) = some (record {
    vector = write_torrent v i (record t { peer_list = l });
    delta = pos 0;
    answer = some l;
  })

  abbrev pub scrape_at : Vector Torrent → Option (ℕ × ℕ) → Option (Change (Option PeerList))
  scrape_at v none = none
  scrape_at v (some (i, zero)) = unchanged v none
  scrape_at v (some (i, suc m)) = elim (get_elem? v.items i) [
    | none ↦ none
    | some t ↦ scraped v i t (clean_single_torrent e.grants e.now t.peer_list)
  ]

  unfoldable pub scrape_body : ℕ → Vector Torrent → Option (Change (Option PeerList))
  scrape_body hash v = scrape_at v (binary_search hash (map hash_of v.items))

  -- `return_udp_scrape_for_torrent`, and one round of `return_tcp_scrape_for_torrent`, up to the bytes
  unfoldable pub scrape_torrent : ℕ → Tracker → Option (Tracker × Option PeerList)
  scrape_torrent hash = with_bucket (bucket_index hash) (scrape_body hash)

  abbrev pub restore_at : ℕ → ℤ → ℕ → Vector Torrent → Slot Torrent → Option (Change (Unit {0}))
  restore_at hash base down_count v (found w i) = unchanged w tt
  restore_at hash base down_count v (opened w i) =
      if e.list_alloc
      then some (record {
        vector = write_torrent w i (record {
          hash = hash;
          peer_list = record empty_list { base = base; down_count = down_count };
        });
        delta = pos 1;
        answer = tt;
      })
      else unchanged (remove_member w i) tt
  restore_at hash base down_count v null = unchanged v tt
  restore_at hash base down_count v fault = none

  unfoldable pub restore_body : ℕ → ℤ → ℕ → Vector Torrent → Option (Change (Unit {0}))
  restore_body hash base down_count v =
      if e.hash_is_valid hash
      then restore_at hash base down_count v
          (find_or_insert hash_of e.torrent_alloc e.stale_torrent v hash)
      else unchanged v tt

  -- `add_torrent_from_saved_state`
  unfoldable pub add_torrent_from_saved_state : ℕ → ℤ → ℕ → Tracker → Option (Tracker × Unit {0})
  add_torrent_from_saved_state hash base down_count =
      with_bucket (bucket_index hash) (restore_body hash base down_count)
