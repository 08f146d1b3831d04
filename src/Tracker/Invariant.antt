-- ===== src/Tracker/Invariant.antt =====
-- What holds of all torrents between two requests, and that every request keeps it.
use bt_server.Prelude.{
  ℕ, ◌+◌, ◌≤◌, ◌<◌, ◌≡◌, refl, sym, ◌∙◌, Option, none, some, arith, ◌==◌, length, get_elem?, set,
  length-set, get_elem?-set_self, get_elem?-set_ne, Bool-cases, inl, inr,
}
use mathlib.Core.Path.{subst}
use bt_server.Prelude.Int.{ℤ, pos, negsuc, pos_part, neg_part}
use bt_server.Vector.{Vector}
use bt_server.Peers.{Peer}
use bt_server.Peers.Weight.{sum_over, sum_over-set}
use bt_server.Peers.Census.{get_elem?-total, get_elem?-lt}
use bt_server.Clean.{size_mod}
use bt_server.Tracker.{
  Torrent, Tracker, Env, Change, bucket_index, bucket_count, unlock, with_bucket, add_delta,
  add_peer_to_torrent, add_body, remove_peer_from_torrent, remove_body, scrape_torrent, scrape_body,
  add_torrent_from_saved_state, restore_body,
}
use bt_server.Tracker.Bodies.{BucketRight, Changes, remove_body-Changes}
use bt_server.Tracker.Scrape.{scrape_body-Changes}
use bt_server.Tracker.Add.{RoomIn, add_body-Changes, restore_body-Changes}

abbrev pub torrents_in : Vector Torrent → ℕ
torrents_in v = length v.items

-- The number of torrents.
abbrev pub total : Tracker → ℕ
total s = sum_over torrents_in s.buckets

pub record TrackerRight (s : Tracker) : Type 0 where
  pub all_buckets : length s.buckets ≡ bucket_count
  pub each : (b : ℕ) (v : Vector Torrent) → get_elem? s.buckets b ≡ some v → BucketRight b v
  pub counted : s.torrent_count ≡ total s
  pub few : total s < size_mod

-- A request was served, and what it leaves is right.
abbrev pub Serves : {R : Type 0} → Option (Tracker × R) → Type 0
Serves none = ⊥
Serves (some (s, r)) = TrackerRight s

bucket_index-lt : (hash : ℕ) → bucket_index hash < bucket_count
unfolding bucket_index
bucket_index-lt hash = omega arith

-- The counter follows a reported change.
add_delta-total :
    (n m : ℕ) (d : ℤ)
    → n < size_mod
    → m < size_mod
    → m + neg_part d ≡ n + pos_part d
    → add_delta n d ≡ m
add_delta-total n m (pos k) h q e = omega arith
add_delta-total n m (negsuc k) h q e = omega arith

-- The same, and at most one torrent is new.
abbrev pub Steps : {R : Type 0} → Tracker → Option (Tracker × R) → Type 0
Steps s none = ⊥
Steps s (some (t, r)) = TrackerRight t × (total t ≤ total s + 1)

pub Steps-Serves : {R : Type 0} (s : Tracker) (o : Option (Tracker × R)) → Steps s o → Serves o
Steps-Serves s none h = h
Steps-Serves s (some (t, r)) h = h.0

-- There is room for one more torrent, and in every list for one more peer.
pub record Roomy (s : Tracker) : Type 0 where
  pub torrent : total s + 1 < size_mod
  pub peer : (b : ℕ) (v : Vector Torrent) → get_elem? s.buckets b ≡ some v → RoomIn v

-- The state that a change leaves.
abbrev pub changed : {R : Type 0} → Tracker → ℕ → Change R → Tracker
changed s b c = record {
  buckets = set s.buckets b c.vector;
  torrent_count = add_delta s.torrent_count c.delta;
}

module _ (s : Tracker) (right : TrackerRight s) where
  set-each :
      (b c : ℕ) (u v : Vector Torrent)
      → b < length s.buckets
      → BucketRight b u
      → get_elem? (set s.buckets b u) c ≡ some v
      → BucketRight c v
  set-each b c u v lt h e = elim (Bool-cases (b == c)) [
    | inl same ↦ at_b (ground arith)
    | inr other ↦ right.each c v (sym (get_elem?-set_ne s.buckets u (ground arith)) ∙ e)
  ]
    where
      at_b : b ≡ c → BucketRight c v
      at_b same =
          let i : BucketRight b v =
            subst (BucketRight b) (cc (get_elem?-set_self s.buckets b u lt, e, same)) h in
          subst (λ k. BucketRight k v) same i

  -- A change of one bucket that is reported as it is.
  pub changed-TrackerRight :
      {R : Type 0} (b : ℕ) (v : Vector Torrent) (c : Change R)
      → get_elem? s.buckets b ≡ some v
      → BucketRight b c.vector
      → length c.vector.items + neg_part c.delta ≡ length v.items + pos_part c.delta
      → total s + pos_part c.delta < size_mod
      → Serves (unlock s b (some c))
        × (total (changed s b c) + neg_part c.delta ≡ total s + pos_part c.delta)
  changed-TrackerRight b v c e h counts room =
      let sums = sum_over-set torrents_in s.buckets b v c.vector e in
      (
        record {
          all_buckets = omega (arith, length-set s.buckets b c.vector, right.all_buckets);
          each = λ k w q. set-each b k c.vector w (get_elem?-lt s.buckets b v e) h q;
          counted = rw right.counted (
              add_delta-total (total s) _ c.delta right.few (omega (arith, sums, counts))
                (omega (arith, sums, counts)));
          few = omega (arith, sums, counts);
        },
        omega (arith, sums, counts),
      )

  unlock-Steps :
      {R : Type 0} (b : ℕ) (v : Vector Torrent) (o : Option (Change R))
      → get_elem? s.buckets b ≡ some v
      → total s + 1 < size_mod
      → Changes b v o
      → Steps s (unlock s b o)
  unlock-Steps b v none e room h = h
  unlock-Steps b v (some c) e room (h, counts) =
      let r = changed-TrackerRight b v c e h counts.0 (omega (arith, room, counts.1)) in
      (r.0, omega (arith, r.1, counts.1))

  pub with_bucket-unlock :
      {R : Type 0} (b : ℕ) (v : Vector Torrent) (body : Vector Torrent → Option (Change R))
      → get_elem? s.buckets b ≡ some v
      → with_bucket b body s ≡ unlock s b (body v)
  unfolding with_bucket
  with_bucket-unlock b v body e = ground arith

  -- A body that keeps every right bucket right serves its request.
  with_bucket-Steps :
      {R : Type 0} (hash : ℕ) (body : Vector Torrent → Option (Change R))
      → total s + 1 < size_mod
      → ((v : Vector Torrent)
          → get_elem? s.buckets (bucket_index hash) ≡ some v
          → BucketRight (bucket_index hash) v
          → Changes (bucket_index hash) v (body v))
      → Steps s (with_bucket (bucket_index hash) body s)
  with_bucket-Steps hash body room keep =
      let (v, e) =
        get_elem?-total s.buckets (bucket_index hash)
          (omega (arith, bucket_index-lt hash, right.all_buckets)) in
      rw (with_bucket-unlock (bucket_index hash) v body e) (
        unlock-Steps (bucket_index hash) v (body v) e room
          (keep v e (right.each (bucket_index hash) v e)))

  -- In a right tracker with room in its counters, announcing a peer whose flags are a byte is
  -- always served, whatever memory is refused: it never leaves the initialised memory, all 1024
  -- buckets stay sorted by hash with every torrent in its bucket, the counters of every peer list
  -- stay equal to what it holds, and so does the number of torrents.
  pub add_peer_to_torrent-Serves :
      (e : Env) (p : Peer) (hash : ℕ)
      → p.flag < 256
      → Roomy s
      → Serves (add_peer_to_torrent e p hash s)
  unfolding add_peer_to_torrent
  add_peer_to_torrent-Serves e p hash f room = Steps-Serves s _ (
      with_bucket-Steps hash (add_body e p hash) room.torrent (λ v q h.
        add_body-Changes (bucket_index hash) v h e hash refl p f
          (room.peer (bucket_index hash) v q)))

  -- In a right tracker with room in its counter of torrents, the departure of a peer is always
  -- served: it never leaves the initialised memory, and the tracker stays right, with its buckets
  -- sorted and all counters equal to what is held, whether or not the torrent or the peer is known.
  pub remove_peer_from_torrent-Serves :
      (e : Env) (key hash : ℕ)
      → total s + 1 < size_mod
      → Serves (remove_peer_from_torrent e key hash s)
  unfolding remove_peer_from_torrent
  remove_peer_from_torrent-Serves e key hash room = Steps-Serves s _ (
      with_bucket-Steps hash (remove_body e key hash) room
        (λ v q h. remove_body-Changes (bucket_index hash) v h e key hash))

  pub scrape_torrent-Steps :
      (e : Env) (hash : ℕ) → total s + 1 < size_mod → Steps s (scrape_torrent e hash s)
  unfolding scrape_torrent
  scrape_torrent-Steps e hash room =
      with_bucket-Steps hash (scrape_body e hash) room
        (λ v q h. scrape_body-Changes (bucket_index hash) v h e hash)

  -- In a right tracker with room in its counter of torrents, a scrape is always served, whatever
  -- memory is refused: it never leaves the initialised memory, and the tracker stays right, also
  -- where the torrent has timed out and is removed.
  pub scrape_torrent-Serves :
      (e : Env) (hash : ℕ) → total s + 1 < size_mod → Serves (scrape_torrent e hash s)
  unfolding scrape_torrent
  scrape_torrent-Serves e hash room = Steps-Serves s _ (scrape_torrent-Steps e hash room)

  pub add_torrent_from_saved_state-Steps :
      (e : Env) (hash : ℕ) (base : ℤ) (down_count : ℕ)
      → total s + 1 < size_mod
      → Steps s (add_torrent_from_saved_state e hash base down_count s)
  unfolding add_torrent_from_saved_state
  add_torrent_from_saved_state-Steps e hash base down_count room =
      with_bucket-Steps hash (restore_body e hash base down_count) room
        (λ v q h. restore_body-Changes (bucket_index hash) v h e hash refl base down_count)

  -- In a right tracker with room in its counter of torrents, restoring a torrent from a saved state
  -- is always served, whatever memory is refused: it never leaves the initialised memory, and the
  -- tracker stays right, whether the torrent is new or known.
  pub add_torrent_from_saved_state-Serves :
      (e : Env) (hash : ℕ) (base : ℤ) (down_count : ℕ)
      → total s + 1 < size_mod
      → Serves (add_torrent_from_saved_state e hash base down_count s)
  add_torrent_from_saved_state-Serves e hash base down_count room =
      Steps-Serves s _ (add_torrent_from_saved_state-Steps e hash base down_count room)
