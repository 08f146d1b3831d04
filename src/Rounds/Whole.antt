-- ===== src/Rounds/Whole.antt =====
-- A round of `clean_worker` over the buckets keeps the tracker right.
use bt_server.Prelude.{
  ℕ, zero, suc, ◌≤◌, ◌<◌, ◌≡◌, refl, Bool, Option, none, some, arith, get_elem?, Bool-cases, inl,
  inr,
}
use bt_server.Vector.{Vector}
use bt_server.Peers.Census.{get_elem?-total}
use bt_server.Tracker.{Torrent, Tracker, Env, Change, bucket_count, unlock}
use bt_server.Tracker.Invariant.{TrackerRight, total, changed-TrackerRight, with_bucket-unlock}
use bt_server.Rounds.{clean_body, clean_bucket, clean_round}
use bt_server.Rounds.Cleaning.{Drops, clean_body-Drops}

-- A walk was finished, what it leaves is right, and it has made no torrents.
abbrev pub Walked : {R : Type 0} → Tracker → Option (Tracker × R) → Type 0
Walked s none = ⊥
Walked s (some (t, r)) = TrackerRight t × (total t ≤ total s)

unlock-Walked :
    (envs : ℕ → Env) (s : Tracker) (b : ℕ) (v : Vector Torrent) (o : Option (Change (Unit {0})))
    → TrackerRight s
    → get_elem? s.buckets b ≡ some v
    → Drops envs b v o
    → Walked s (unlock s b o)
unlock-Walked envs s b v none right e h = h
unlock-Walked envs s b v (some c) right e (h, counts, down) =
    let r =
      changed-TrackerRight s right b v c e h (omega (arith, counts, down))
        (omega (arith, down, right.few)) in
    (r.0, omega (arith, r.1, down))

-- Cleaning a bucket under its lock ends, keeps a right tracker right and makes no torrents.
pub clean_bucket-Walked :
    (envs : ℕ → Env) (s : Tracker) (b : ℕ)
    → TrackerRight s
    → b < bucket_count
    → Walked s (clean_bucket envs b s)
unfolding clean_bucket
clean_bucket-Walked envs s b right h =
    let (v, e) = get_elem?-total s.buckets b (omega (arith, right.all_buckets)) in
    rw (with_bucket-unlock s right b v (clean_body envs) e) (
      unlock-Walked envs s b v (clean_body envs v) right e
        (clean_body-Drops envs b v (right.each b v e)))

later-Walked :
    {R : Type 0} (s t : Tracker) (o : Option (Tracker × R))
    → total t ≤ total s
    → Walked t o
    → Walked s o
later-Walked s t none le h = h
later-Walked s t (some (u, r)) le h = (h.0, omega (arith, h.1, le))

clean_round-step :
    (envs : ℕ → ℕ → Env) (running : ℕ → Bool) (b : ℕ) (s : Tracker)
    (o : Option (Tracker × Unit {0}))
    → clean_bucket (envs b) b s ≡ o
    → ((t : Tracker) → TrackerRight t → Walked t (clean_round envs running b t))
    → Walked s o
    → Walked s (clean_round envs running (suc b) s)
unfolding clean_round
clean_round-step envs running b s none e later h = absurd h
clean_round-step envs running b s (some (t, u)) e later h = elim (Bool-cases (running b)) [
  | inl r ↦ rw (e, r, Walked) (later-Walked s t (clean_round envs running b t) h.1 (later t h.0))
  | inr r ↦ rw (e, r, Walked) h
]

-- From a right tracker, a round over the buckets always ends, whatever memory is refused and however
-- time passes at each torrent, and it leaves a right tracker with no more torrents, also where the
-- program stops in between.
pub clean_round-Walked :
    (envs : ℕ → ℕ → Env) (running : ℕ → Bool) (n : ℕ) (s : Tracker)
    → TrackerRight s
    → n ≤ bucket_count
    → Walked s (clean_round envs running n s)
unfolding clean_round
clean_round-Walked envs running zero s right h = (right, omega arith)
clean_round-Walked envs running (suc n) s right h =
    clean_round-step envs running n s (clean_bucket (envs n) n s) refl
      (λ t r. clean_round-Walked envs running n t r (omega arith))
      (clean_bucket-Walked (envs n) s n right (omega arith))
