-- ===== src/Examples/Rounds.antt =====
-- Walks over the tracker after one announce.
use bt_server.Prelude.{true, refl, ◌≡◌, ◌%◌, arith}
use bt_server.Clean.{size_mod}
use bt_server.Rounds.{clean_round}
use bt_server.Rounds.Whole.{Walked, clean_round-Walked}
use bt_server.Rounds.Statistics.{
  statistics, in_tracker, peers_counted, seeds_counted, iterate_all_torrents-statistics,
}
use bt_server.Examples.Data.{env}
use bt_server.Examples.Tracker.{first_state, first_state-TrackerRight}

clean_round-Walked_example :
    Walked first_state (clean_round (λ b n. env) (λ b. true) 1024 first_state)
clean_round-Walked_example =
    clean_round-Walked (λ b n. env) (λ b. true) 1024 first_state first_state-TrackerRight
      (omega arith)

iterate_all_torrents-statistics_example :
    ((statistics (λ b. true) first_state).torrent_count ≡ first_state.torrent_count)
    × ((statistics (λ b. true) first_state).peer_count
        ≡ in_tracker peers_counted first_state % size_mod)
    × ((statistics (λ b. true) first_state).seed_count
        ≡ in_tracker seeds_counted first_state % size_mod)
iterate_all_torrents-statistics_example =
    iterate_all_torrents-statistics (λ b. true) first_state (λ k. refl) first_state-TrackerRight
