-- ===== src/Tracker/History.antt =====
-- Any interleaving of requests: each runs under the lock of its bucket, so a history is a sequence of
-- whole requests.
use bt_server.Prelude.{
  ℕ, zero, suc, ◌<◌, ◌≡◌, refl, sym, [], Option, none, some, arith, get_elem?, length-replicate,
  replicate,
}
use mathlib.Core.Path.{subst}
use bt_server.Prelude.Int.{ℤ}
use bt_server.Vector.{Vector}
use bt_server.Peers.{Peer}
use bt_server.Peers.Weight.{sum_over}
use bt_server.Clean.{PeerList}
use bt_server.Tracker.{
  Torrent, Tracker, Env, Answer, mutex_init, bucket_count, add_peer_to_torrent,
  remove_peer_from_torrent, scrape_torrent, add_torrent_from_saved_state,
}
use bt_server.Tracker.Bodies.{BucketRight}
use bt_server.Tracker.Add.{RoomIn}
use bt_server.Rounds.{clean_bucket}
use bt_server.Rounds.Whole.{Walked, clean_bucket-Walked}
use bt_server.Tracker.Invariant.{
  TrackerRight, Roomy, Serves, total, torrents_in, add_peer_to_torrent-Serves,
  remove_peer_from_torrent-Serves, scrape_torrent-Serves, add_torrent_from_saved_state-Serves,
}

-- One request of any worker, or a bucket visited by the cleaning thread, with whatever memory is
-- refused.
pub data Request (s t : Tracker) : Type 0 where
  announced :
      (e : Env) (p : Peer) (hash : ℕ) (a : Answer)
      → p.flag < 256
      → add_peer_to_torrent e p hash s ≡ some (t, a)
      → Request s t
  stopped :
      (e : Env) (key hash : ℕ) (l : PeerList)
      → remove_peer_from_torrent e key hash s ≡ some (t, l)
      → Request s t
  scraped :
      (e : Env) (hash : ℕ) (l : Option PeerList)
      → scrape_torrent e hash s ≡ some (t, l)
      → Request s t
  restored :
      (e : Env) (hash : ℕ) (base : ℤ) (down_count : ℕ) (u : Unit {0})
      → add_torrent_from_saved_state e hash base down_count s ≡ some (t, u)
      → Request s t
  cleaned :
      (envs : ℕ → Env) (b : ℕ) (u : Unit {0})
      → b < bucket_count
      → clean_bucket envs b s ≡ some (t, u)
      → Request s t

-- A history that starts with the empty tracker and never meets a full counter.
pub data History : Tracker → Type 0 where
  start : History mutex_init
  later : {s t : Tracker} → History s → Roomy s → Request s t → History t

served :
    {R : Type 0} (o : Option (Tracker × R)) (t : Tracker) (r : R)
    → Serves o
    → o ≡ some (t, r)
    → TrackerRight t
served o t r h e = subst Serves e h

Walked-Serves : {R : Type 0} (s : Tracker) (o : Option (Tracker × R)) → Walked s o → Serves o
Walked-Serves s none h = h
Walked-Serves s (some (t, r)) h = h.0

Request-TrackerRight : {s t : Tracker} → TrackerRight s → Roomy s → Request s t → TrackerRight t
Request-TrackerRight {s} {t} v room (announced e p hash a f q) =
    served _ t a (add_peer_to_torrent-Serves s v e p hash f room) q
Request-TrackerRight {s} {t} v room (stopped e key hash l q) =
    served _ t l (remove_peer_from_torrent-Serves s v e key hash room.torrent) q
Request-TrackerRight {s} {t} v room (scraped e hash l q) =
    served _ t l (scrape_torrent-Serves s v e hash room.torrent) q
Request-TrackerRight {s} {t} v room (restored e hash base down_count u q) =
    served _ t u (add_torrent_from_saved_state-Serves s v e hash base down_count room.torrent) q
Request-TrackerRight {s} {t} v room (cleaned envs b u h q) =
    served _ t u (Walked-Serves s _ (clean_bucket-Walked envs s b v h)) q

abbrev empty_vector : Vector Torrent
empty_vector = record { items = []; space = 0 }

replicate-get :
    (n b : ℕ) (v : Vector Torrent)
    → get_elem? (replicate n empty_vector) b ≡ some v
    → empty_vector ≡ v
replicate-get zero b v e = cc
replicate-get (suc n) zero v e = cc
replicate-get (suc n) (suc b) v e = replicate-get n b v e

replicate-sum : (n : ℕ) → sum_over torrents_in (replicate n empty_vector) ≡ 0
unfolding sum_over
replicate-sum zero = refl
replicate-sum (suc n) = omega (arith, replicate-sum n)

empty-BucketRight : (b : ℕ) → BucketRight b empty_vector
empty-BucketRight b = record { ordered = tt; fits = omega arith; torrents = tt }

pub mutex_init-TrackerRight : TrackerRight mutex_init
unfolding mutex_init
mutex_init-TrackerRight = record {
  all_buckets = length-replicate bucket_count empty_vector;
  each = λ b v e. subst (BucketRight b) (replicate-get bucket_count b v e) (empty-BucketRight b);
  counted = sym (replicate-sum bucket_count);
  few = omega (arith, replicate-sum bucket_count);
}

pub mutex_init-total : total mutex_init ≡ 0
unfolding mutex_init
mutex_init-total = replicate-sum bucket_count

pub mutex_init-Roomy : Roomy mutex_init
unfolding mutex_init
mutex_init-Roomy = record {
  torrent = omega (arith, replicate-sum bucket_count);
  peer = λ b v e. subst RoomIn (replicate-get bucket_count b v e) tt;
}

-- After any sequence of announces, departures, scrapes, restored torrents and visits of the
-- cleaning thread from the empty tracker on, with memory refused at any place, and as long as no
-- counter is full before a request, every bucket is sorted by hash, every torrent stands in the
-- bucket of its hash, every peer list has the numbers of peers and of seeders that its counters
-- say, and the number of torrents is the one counted.
pub History-TrackerRight : {s : Tracker} → History s → TrackerRight s
History-TrackerRight start = mutex_init-TrackerRight
History-TrackerRight (later h room r) = Request-TrackerRight (History-TrackerRight h) room r
