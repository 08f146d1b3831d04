-- ===== src/Rounds.antt =====
-- The walks over all torrents: the thread of src/ot_clean.c that ages them (`clean_worker`), and of
-- src/trackerlogic.c `iterate_all_torrents`, with the `torrent_statter` of src/ot_stats.c. A bucket is worked on under its
-- lock, and between two buckets other requests are served.
pub mod Cleaning
pub mod Whole
pub mod Statistics
use bt_server.Prelude.{
  ℕ, zero, suc, ◌+◌, List, [], ◌∷◌, Bool, true, false, Option, none, some, length, get_elem?,
}
use bt_server.Prelude.Int.{ℤ, pos, negsuc}
use bt_server.Vector.{Vector, remove_member}
use bt_server.Clean.{PeerList, clean_single_torrent, add_size}
use bt_server.Tracker.{Torrent, Tracker, Env, Change, write_torrent, with_bucket}

-- What is left of a bucket, and how many torrents were removed: `-delta_torrentcount`.
abbrev pub one_more : Option (Vector Torrent × ℕ) → Option (Vector Torrent × ℕ)
one_more none = none
one_more (some (v, gone)) = some (v, gone + 1)

-- `envs n` is what the code meets outside at the n-th torrent from the end.
module _ (envs : ℕ → Env) where
  -- The loop over a bucket, from the offset `toffs` on; `none` where the fuel ends.
  unfoldable pub clean_torrents : ℕ → ℕ → Vector Torrent → Option (Vector Torrent × ℕ)
  clean_torrents zero toffs v = none
  clean_torrents (suc fuel) toffs v = elim (get_elem? v.items toffs) [
    | none ↦ some (v, 0)
    | some t ↦ elim (clean_single_torrent (envs fuel).grants (envs fuel).now t.peer_list) [
      | none ↦ none
      | some (true, l) ↦ one_more (clean_torrents fuel toffs (remove_member v toffs))
      | some (false, l) ↦
          clean_torrents fuel (toffs + 1) (write_torrent v toffs (record t { peer_list = l }))
    ]
  ]

  abbrev pub minus : ℕ → ℤ
  minus zero = pos 0
  minus (suc n) = negsuc n

  abbrev pub cleaned : Option (Vector Torrent × ℕ) → Option (Change (Unit {0}))
  cleaned none = none
  cleaned (some (v, gone)) = some (record { vector = v; delta = minus gone; answer = tt })

  -- The body of `clean_worker` for one bucket.
  unfoldable pub clean_body : Vector Torrent → Option (Change (Unit {0}))
  clean_body v = cleaned (clean_torrents (suc (length v.items)) 0 v)

  unfoldable pub clean_bucket : ℕ → Tracker → Option (Tracker × Unit {0})
  clean_bucket b = with_bucket b clean_body

-- A round of `clean_worker` over the buckets below the given one, the last first. `running b` is
-- `g_opentracker_running` after the bucket `b`; the result tells whether the thread goes on.
unfoldable pub clean_round : (ℕ → ℕ → Env) → (ℕ → Bool) → ℕ → Tracker → Option (Tracker × Bool)
clean_round envs running zero s = some (s, true)
clean_round envs running (suc b) s = elim (clean_bucket (envs b) b s) [
  | none ↦ none
  | some (t, u) ↦ elim (running b) [ true ↦ clean_round envs running b t | false ↦ some (t, false) ]
]

-- What `for_each` answers: whether the loop over the bucket ends, and its data.
module _ {D : Type 0} (for_each : Torrent → D → Bool × D) where
  unfoldable pub iterate_bucket : List Torrent → D → D
  iterate_bucket [] data_now = data_now
  iterate_bucket (t ∷ ts) data_now = elim (for_each t data_now).0 [
    | true ↦ (for_each t data_now).1
    | false ↦ iterate_bucket ts (for_each t data_now).1
  ]

  -- The loop over the buckets, the number of the first one given.
  unfoldable pub iterate_buckets : (ℕ → Bool) → ℕ → List (Vector Torrent) → D → D
  iterate_buckets running b [] data_now = data_now
  iterate_buckets running b (v ∷ vs) data_now = elim (running b) [
    | true ↦ iterate_buckets running (b + 1) vs (iterate_bucket v.items data_now)
    | false ↦ iterate_bucket v.items data_now
  ]

  -- `iterate_all_torrents`, for a `for_each` that leaves the torrents alone.
  unfoldable pub iterate_all_torrents : (ℕ → Bool) → Tracker → D → D
  iterate_all_torrents running s data_now = iterate_buckets running 0 s.buckets data_now

-- `torrent_stats`, whose members are 64 bits wide
pub record TorrentStats : Type 0 where
  pub torrent_count : ℕ
  pub peer_count : ℕ
  pub seed_count : ℕ

abbrev pub no_stats : TorrentStats
no_stats = record { torrent_count = 0; peer_count = 0; seed_count = 0 }

unfoldable pub torrent_statter : Torrent → TorrentStats → Bool × TorrentStats
torrent_statter t d = (
  false,
  record {
    torrent_count = add_size d.torrent_count 1;
    peer_count = add_size d.peer_count t.peer_list.peer_count;
    seed_count = add_size d.seed_count t.peer_list.seed_count;
  },
)
