-- ===== src/Rounds/Statistics.antt =====
-- The statistics over all torrents agree with what the tracker holds.
use bt_server.Prelude.{
  ℕ, suc, ◌+◌, ◌%◌, ◌<◌, ◌≡◌, refl, List, [], ◌∷◌, Bool, true, some, arith, length, get_elem?,
}
use mathlib.Core.Path.{subst}
use bt_server.Prelude.All.{All}
use bt_server.Vector.{Vector}
use bt_server.Peers.Weight.{sum_over, weight, one, seed}
use bt_server.Clean.{size_mod}
use bt_server.Tracker.{Torrent, Tracker}
use bt_server.Tracker.Bodies.{TorrentRight, BucketRight}
use bt_server.Tracker.Invariant.{TrackerRight, torrents_in}
use bt_server.Rounds.{
  iterate_bucket, iterate_buckets, iterate_all_torrents, TorrentStats, no_stats, torrent_statter,
}

-- The peers of a torrent that count under a weight.
abbrev pub peers_counted : Torrent → ℕ
peers_counted t = weight one t.peer_list.peers

abbrev pub seeds_counted : Torrent → ℕ
seeds_counted t = weight seed t.peer_list.peers

abbrev pub in_bucket : (Torrent → ℕ) → Vector Torrent → ℕ
in_bucket w v = sum_over w v.items

abbrev pub in_tracker : (Torrent → ℕ) → Tracker → ℕ
in_tracker w s = sum_over (in_bucket w) s.buckets

-- Statistics that are ahead of others by three numbers.
record Ahead (d e : TorrentStats) (t p q : ℕ) : Type 0 where
  torrents : e.torrent_count ≡ (d.torrent_count + t) % size_mod
  peers : e.peer_count ≡ (d.peer_count + p) % size_mod
  seeds : e.seed_count ≡ (d.seed_count + q) % size_mod

statter-Ahead :
    (b : ℕ) (ts : List Torrent) (d : TorrentStats)
    → All (TorrentRight b) ts
    → d.torrent_count < size_mod
    → d.peer_count < size_mod
    → d.seed_count < size_mod
    → Ahead d
        (iterate_bucket torrent_statter ts d)
        (length ts)
        (sum_over peers_counted ts)
        (sum_over seeds_counted ts)
unfolding iterate_bucket sum_over torrent_statter
statter-Ahead b [] d h x y z = record {
  torrents = omega arith;
  peers = omega arith;
  seeds = omega arith;
}
statter-Ahead b (t ∷ ts) d h x y z =
    let next = (torrent_statter t d).1 in
    let later = statter-Ahead b ts next h.1 (omega arith) (omega arith) (omega arith) in
    record {
      torrents = omega (arith, later.torrents);
      peers = omega (arith, later.peers, h.0.0.peers_right);
      seeds = omega (arith, later.seeds, h.0.0.seeds_right);
    }

iterate_buckets-step :
    (v : Vector Torrent) (vs : List (Vector Torrent)) (running : ℕ → Bool) (b : ℕ)
    (d : TorrentStats)
    → running b ≡ true
    → iterate_buckets torrent_statter running b (v ∷ vs) d
      ≡ iterate_buckets torrent_statter running
          (b + 1)
          vs
          (iterate_bucket torrent_statter v.items d)
unfolding iterate_buckets
iterate_buckets-step v vs running b d e = ground (arith, e)

-- The same over the buckets, where the program keeps running.
buckets-Ahead :
    (vs : List (Vector Torrent)) (running : ℕ → Bool) (b c : ℕ) (d : TorrentStats)
    → ((k : ℕ) → running k ≡ true)
    → ((i : ℕ) (v : Vector Torrent) → get_elem? vs i ≡ some v → BucketRight (c + i) v)
    → d.torrent_count < size_mod
    → d.peer_count < size_mod
    → d.seed_count < size_mod
    → Ahead d
        (iterate_buckets torrent_statter running b vs d)
        (sum_over torrents_in vs)
        (sum_over (in_bucket peers_counted) vs)
        (sum_over (in_bucket seeds_counted) vs)
unfolding iterate_buckets sum_over
buckets-Ahead [] running b c d run right x y z = record {
  torrents = omega arith;
  peers = omega arith;
  seeds = omega arith;
}
buckets-Ahead (v ∷ vs) running b c d run right x y z =
    let first = statter-Ahead (c + 0) v.items d (right 0 v refl).torrents x y z in
    let next = iterate_bucket torrent_statter v.items d in
    let later =
      buckets-Ahead vs running (b + 1) (c + 1) next run
        (λ i w e. subst (λ k. BucketRight k w) (omega arith) (right (suc i) w e))
        (omega (arith, first.torrents)) (omega (arith, first.peers)) (omega (arith, first.seeds)) in
    rw (iterate_buckets-step v vs running b d (run b)) (record {
      torrents = omega (arith, first.torrents, later.torrents);
      peers = omega (arith, first.peers, later.peers);
      seeds = omega (arith, first.seeds, later.seeds);
    })

abbrev pub statistics : (ℕ → Bool) → Tracker → TorrentStats
statistics running s = iterate_all_torrents torrent_statter running s no_stats

-- Over a right tracker that stays as it is and while the program runs, `iterate_all_torrents` with
-- `torrent_statter` counts the torrents that `g_torrent_count` counts, and the peers and seeders
-- that the lists of all torrents hold, modulo 2 ^ 64.
pub iterate_all_torrents-statistics :
    (running : ℕ → Bool) (s : Tracker)
    → ((k : ℕ) → running k ≡ true)
    → TrackerRight s
    → ((statistics running s).torrent_count ≡ s.torrent_count)
      × ((statistics running s).peer_count ≡ in_tracker peers_counted s % size_mod)
      × ((statistics running s).seed_count ≡ in_tracker seeds_counted s % size_mod)
unfolding iterate_all_torrents
iterate_all_torrents-statistics running s run right =
    let all =
      buckets-Ahead s.buckets running 0 0 no_stats run
        (λ i v e. subst (λ k. BucketRight k v) (omega arith) (right.each i v e)) (omega arith)
        (omega arith) (omega arith) in
    (
      omega (arith, all.torrents, right.counted, right.few),
      omega (arith, all.peers),
      omega (arith, all.seeds),
    )
