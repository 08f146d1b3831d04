-- ===== src/Examples/Tracker.antt =====
-- Requests to the empty tracker.
use bt_server.Prelude.{ℕ, ◌≡◌, refl, Option, none, some, arith}
use mathlib.Core.Path.{subst}
use bt_server.Prelude.Int.{pos}
use bt_server.Tracker.{
  Tracker, Answer, nothing, with_bucket, bucket_index, add_body, mutex_init, add_peer_to_torrent,
  remove_peer_from_torrent, scrape_torrent, add_torrent_from_saved_state,
}
use bt_server.Vector.{find_or_insert, binary_search, make_room, open_slot}
use bt_server.Peers.{find_or_insert_peer, hash_peer, write_peer}
use bt_server.Announce.{announce, fresh_peer, enter_peer}
use bt_server.Tracker.Invariant.{TrackerRight, Serves, add_peer_to_torrent-Serves}
use bt_server.Tracker.Requests.{requests_served}
use bt_server.Tracker.History.{
  start, later, announced, mutex_init-TrackerRight, mutex_init-Roomy, History-TrackerRight,
}
use bt_server.Examples.Data.{env, finisher, seeder}

abbrev a_hash : ℕ
a_hash = 0x0123456789abcdef0123456789abcdef01234567

add_peer_to_torrent-Serves_example : Serves (add_peer_to_torrent env finisher a_hash mutex_init)
add_peer_to_torrent-Serves_example =
    add_peer_to_torrent-Serves mutex_init mutex_init-TrackerRight env finisher a_hash (omega arith)
      mutex_init-Roomy

program : Unit {0}
unfolding mutex_init with_bucket bucket_index add_body add_peer_to_torrent find_or_insert
    binary_search make_room open_slot announce find_or_insert_peer hash_peer fresh_peer enter_peer
    write_peer
program = tt

-- A seeder that reports its download as completed.
abbrev answered : Option (Tracker × Answer)
answered = add_peer_to_torrent env finisher a_hash mutex_init

abbrev pub first_state : Tracker
first_state = elim answered [ none ↦ mutex_init | some (t, a) ↦ t ]

abbrev first_answer : Answer
first_answer = elim answered [ none ↦ nothing | some (t, a) ↦ a ]

first_served : answered ≡ some (first_state, first_answer)
unfolding program
first_served = refl

first_count : first_state.torrent_count ≡ 1
unfolding program
first_count = refl

History-TrackerRight_example : TrackerRight first_state
History-TrackerRight_example = History-TrackerRight (
    later start mutex_init-Roomy
      (announced env finisher a_hash first_answer (omega arith) first_served))

-- The same by its last request alone.
pub first_state-TrackerRight : TrackerRight first_state
first_state-TrackerRight = subst Serves first_served add_peer_to_torrent-Serves_again
  where
    add_peer_to_torrent-Serves_again : Serves answered
    add_peer_to_torrent-Serves_again =
        add_peer_to_torrent-Serves mutex_init mutex_init-TrackerRight env finisher a_hash
          (omega arith) mutex_init-Roomy

requests_served_example :
    Serves (remove_peer_from_torrent env seeder.key a_hash mutex_init)
    × Serves (scrape_torrent env a_hash mutex_init)
    × Serves (add_torrent_from_saved_state env a_hash (pos 90) 7 mutex_init)
requests_served_example =
    requests_served mutex_init mutex_init-TrackerRight env seeder.key a_hash (pos 90) 7
      mutex_init-Roomy.torrent
