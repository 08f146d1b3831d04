-- ===== src/Tracker/Requests.antt =====
-- The requests besides an announce, on all torrents.
use bt_server.Prelude.{ℕ, ◌+◌, ◌<◌}
use bt_server.Prelude.Int.{ℤ}
use bt_server.Clean.{size_mod}
use bt_server.Tracker.{
  Tracker, Env, remove_peer_from_torrent, scrape_torrent, add_torrent_from_saved_state,
}
use bt_server.Tracker.Invariant.{
  TrackerRight, Serves, total, remove_peer_from_torrent-Serves, scrape_torrent-Serves,
  add_torrent_from_saved_state-Serves,
}

-- In a right tracker with room in its counter of torrents, the departure of a peer, a scrape and
-- restoring a torrent from a saved state are always served, whatever memory is refused: they never
-- leave the initialised memory, and the tracker stays right, with its buckets sorted and all counters
-- equal to what is held, whether or not the torrent or the peer is known, and also where a torrent
-- has timed out and is removed.
pub requests_served :
    (s : Tracker) (right : TrackerRight s) (e : Env) (key hash : ℕ) (base : ℤ) (down_count : ℕ)
    → total s + 1 < size_mod
    → Serves (remove_peer_from_torrent e key hash s)
      × Serves (scrape_torrent e hash s)
      × Serves (add_torrent_from_saved_state e hash base down_count s)
requests_served s right e key hash base down_count room = (
  remove_peer_from_torrent-Serves s right e key hash room,
  scrape_torrent-Serves s right e hash room,
  add_torrent_from_saved_state-Serves s right e hash base down_count room,
)
