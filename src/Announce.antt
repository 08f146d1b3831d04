-- ===== src/Announce.antt =====
-- The part of src/trackerlogic.c that works on one torrent's peer list: an announced peer is entered
-- or renewed (`add_peer_to_torrent_and_return_peers`) or taken out (`remove_peer_from_torrent`).
pub mod Flags
pub mod Counters
use Prim.Native.Nat.{bit_or, bit_xor}
use bt_server.Prelude.{
  ℕ, zero, suc, ◌+◌, List, [], ◌∷◌, Bool, true, false, not, ◌&&◌, Option, none, some, bit_and, ◌==◌,
  if◌then◌else◌,
}
use bt_server.Prelude.Int.{ℤ, pos}
use bt_server.Peers.{
  Peer, PeerStore, PeerSlot, found_at, opened_at, no_room, bad_read, find_or_insert_peer,
  write_peer, read_peer, remove_peer, has_flag, flag_seeding, flag_completed,
}
use bt_server.Clean.{PeerList, add_size, sub_size}

-- The calls of `stats_issue_event` made here.
pub data Event : Type 0 where
  completed : Event
  renew : ℕ → Event

-- "Tell peer that it's fresh" and "Sanitize flags"
unfoldable pub fresh_peer : Peer → Peer
fresh_peer p = record p {
  time = 0;
  flag = if bit_and p.flag 0xc0 == flag_completed then bit_xor p.flag flag_completed else p.flag;
}

abbrev pub add_if : Bool → ℕ → ℕ
add_if b n = if b then add_size n 1 else n

abbrev pub sub_if : Bool → ℕ → ℕ
sub_if b n = if b then sub_size n 1 else n

abbrev pub event_if : Bool → List Event
event_if b = if b then completed ∷ [] else []

-- The branch `!exactmatch`: the counters, and the write through `peer_dest` at `b`, `i` of `s`.
unfoldable pub enter_peer : PeerList → PeerStore → ℕ → ℕ → Peer → PeerList × List Event
enter_peer l s b i p =
    let is_completed = has_flag p.flag flag_completed in
    (
      record l {
        peers = write_peer s b i p;
        peer_count = add_size l.peer_count 1;
        down_count = add_if is_completed l.down_count;
        seed_count = add_if (has_flag p.flag flag_seeding) l.seed_count;
      },
      event_if is_completed,
    )

-- The flags that are written when a peer comes back.
abbrev pub renewed_peer : Peer → Peer → Peer
renewed_peer old p =
    if has_flag old.flag flag_completed then record p { flag = bit_or p.flag flag_completed } else p

-- The branch of a match, `old` being the peer at `peer_dest`.
unfoldable pub renew_peer : PeerList → PeerStore → ℕ → ℕ → Peer → Peer → PeerList × List Event
renew_peer l s b i old p =
    let was_seeding = has_flag old.flag flag_seeding in
    let is_seed = has_flag p.flag flag_seeding in
    let is_completed = not (has_flag old.flag flag_completed) && has_flag p.flag flag_completed in
    (
      record l {
        peers = write_peer s b i (renewed_peer old p);
        seed_count =
            add_if (not was_seeding && is_seed) (sub_if (was_seeding && not is_seed) l.seed_count);
        down_count = add_if is_completed l.down_count;
      },
      renew old.time ∷ event_if is_completed,
    )

pub data Announced : Type 0 where
  stored : PeerList → List Event → Announced
  no_memory : Announced
  bad : Announced

abbrev pub as_stored : PeerList × List Event → Announced
as_stored (l, es) = stored l es

abbrev pub at_slot : PeerList → Peer → PeerSlot → Announced
at_slot l p (found_at s b i) = elim (read_peer s b i) [
  | none ↦ bad
  | some old ↦ as_stored (renew_peer l s b i old p)
]
at_slot l p (opened_at s b i) = as_stored (enter_peer l s b i p)
at_slot l p no_room = no_memory
at_slot l p bad_read = bad

-- From the assignment of `base` to the `memcpy` into `peer_dest`.
unfoldable pub announce : (ℕ → Bool) → Peer → ℕ → Peer → PeerList → Announced
announce alloc stale now p l =
    at_slot (record l { base = pos now }) (fresh_peer p)
      (find_or_insert_peer alloc stale l.peers p.key)

abbrev pub uncounted : PeerList → Option (PeerStore × ℕ) → Option PeerList
uncounted l none = none
uncounted l (some (s, code)) = some (record l {
  peers = s;
  seed_count = if code == 2 then sub_size l.seed_count 1 else l.seed_count;
  peer_count = if code == 0 then l.peer_count else sub_size l.peer_count 1;
})

-- The `switch` of `remove_peer_from_torrent`, with its falls through.
unfoldable pub retract : ℕ → PeerList → Option PeerList
retract key l = uncounted l (remove_peer l.peers key)
