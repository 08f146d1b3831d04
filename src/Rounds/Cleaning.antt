-- ===== src/Rounds/Cleaning.antt =====
-- The loop of `clean_worker` over a bucket ends, and keeps the bucket right.
use bt_server.Prelude.{
  ℕ, zero, suc, ◌+◌, ◌≤◌, ◌<◌, ◌≡◌, refl, List, [], ◌∷◌, Bool, true, false, Option, none, some,
  arith, length, get_elem?, Option-cases, inl, inr,
}
use mathlib.Core.Path.{subst}
use bt_server.Prelude.All.{All-get_elem?}
use bt_server.Prelude.Int.{pos_part, neg_part}
use bt_server.Vector.{Vector, remove_member}
use bt_server.Vector.Search.{Locates, IsAscending, key_at}
use bt_server.Vector.Sorted.{keys_of, length-keys_of, IsChain→IsAscending}
use bt_server.Peers.Census.{get_elem?-lt}
use bt_server.Clean.{PeerList, clean_single_torrent}
use bt_server.Clean.Counters.{Trimmed, Answers, clean_single_torrent-Trimmed}
use bt_server.Tracker.{Torrent, hash_of, Env, Change, write_torrent}
use bt_server.Tracker.Bodies.{TorrentRight, BucketRight, rewritten-BucketRight, removed-BucketRight}
use bt_server.Rounds.{one_more, clean_torrents, cleaned, clean_body}

-- Every place of an ascending table is the place of its key.
Locates-place :
    (keys : List ℕ) (i : ℕ) → IsAscending keys → i < length keys → Locates (key_at keys i) keys i 1
Locates-place keys i asc h = record {
  inside = omega arith;
  below = λ j p. asc j i p h;
  missing = λ e. absurd (omega arith);
  hit = λ e. (h, refl);
}

key_at-member :
    (xs : List Torrent) (i : ℕ) (t : Torrent)
    → get_elem? xs i ≡ some t
    → key_at (keys_of hash_of xs) i ≡ t.hash
key_at-member [] i t e = cc
key_at-member (x ∷ xs) zero t e = cc
key_at-member (x ∷ xs) (suc i) t e = key_at-member xs i t e

-- A right bucket, and as many torrents fewer as were counted.
abbrev pub Shrunk : ℕ → Vector Torrent → Option (Vector Torrent × ℕ) → Type 0
Shrunk b v none = ⊥
Shrunk b v (some (w, gone)) = BucketRight b w × (length w.items + gone ≡ length v.items)

one_more-Shrunk :
    (b : ℕ) (v w : Vector Torrent) (o : Option (Vector Torrent × ℕ))
    → length w.items + 1 ≡ length v.items
    → Shrunk b w o
    → Shrunk b v (one_more o)
one_more-Shrunk b v w none e h = h
one_more-Shrunk b v w (some (u, gone)) e h = (h.0, omega (arith, h.1))

same-Shrunk :
    (b : ℕ) (v w : Vector Torrent) (o : Option (Vector Torrent × ℕ))
    → length w.items ≡ length v.items
    → Shrunk b w o
    → Shrunk b v o
same-Shrunk b v w none e h = h
same-Shrunk b v w (some (u, gone)) e h = (h.0, omega (arith, h.1))

module _ (envs : ℕ → Env) (b : ℕ) where
  place_of :
      (i : ℕ) (v : Vector Torrent) (t : Torrent)
      → BucketRight b v
      → get_elem? v.items i ≡ some t
      → Locates t.hash (keys_of hash_of v.items) i 1
  place_of i v t right seen =
      subst (λ k. Locates k (keys_of hash_of v.items) i 1) (key_at-member v.items i t seen)
        (Locates-place (keys_of hash_of v.items) i
          (IsChain→IsAscending (keys_of hash_of v.items) right.ordered)
          (omega (arith, get_elem?-lt v.items i t seen, length-keys_of hash_of v.items)))

  abbrev cleaned_one : ℕ → Torrent → Option (Bool × PeerList)
  cleaned_one n t = clean_single_torrent (envs n).grants (envs n).now t.peer_list

  -- One round of the loop.
  module _ (fuel i : ℕ) (v : Vector Torrent) where
    clean_torrents-end :
        get_elem? v.items i ≡ none → clean_torrents envs (suc fuel) i v ≡ some (v, 0)
    unfolding clean_torrents
    clean_torrents-end e = ground (arith, e)

    module _ (t : Torrent) (seen : get_elem? v.items i ≡ some t) (l : PeerList) where
      clean_torrents-gone :
          cleaned_one fuel t ≡ some (true, l)
          → clean_torrents envs (suc fuel) i v
            ≡ one_more (clean_torrents envs fuel i (remove_member v i))
      unfolding clean_torrents
      clean_torrents-gone e = ground (arith, seen, e)

      clean_torrents-kept :
          cleaned_one fuel t ≡ some (false, l)
          → clean_torrents envs (suc fuel) i v
            ≡ clean_torrents envs fuel (i + 1) (write_torrent v i (record t { peer_list = l }))
      unfolding clean_torrents
      clean_torrents-kept e = ground (arith, seen, e)

  -- One round, where all later rounds are known.
  cleaned-Shrunk :
      (fuel i : ℕ) (v : Vector Torrent) (t : Torrent) (o : Option (Bool × PeerList))
      → ((j : ℕ) (w : Vector Torrent)
          → length w.items < fuel + j
          → j ≤ length w.items
          → BucketRight b w
          → Shrunk b w (clean_torrents envs fuel j w))
      → cleaned_one fuel t ≡ o
      → Answers (λ d l. Trimmed t.peer_list l) o
      → get_elem? v.items i ≡ some t
      → length v.items < suc fuel + i
      → BucketRight b v
      → Shrunk b v (clean_torrents envs (suc fuel) i v)
  cleaned-Shrunk fuel i v t none later e h seen enough right = absurd h
  cleaned-Shrunk fuel i v t (some (true, l)) later e h seen enough right =
      let gone = removed-BucketRight b v right i t 1 (λ z. cc) (place_of i v t right seen) in
      rw (clean_torrents-gone fuel i v t seen l e) (
        one_more-Shrunk b v (remove_member v i) _ (omega (arith, gone.1)) (
          later i (remove_member v i) (omega (arith, gone.1, enough))
            (omega (arith, gone.1, get_elem?-lt v.items i t seen)) gone.0))
  cleaned-Shrunk fuel i v t (some (false, l)) later e h seen enough right =
      let kept =
        rewritten-BucketRight b v right i (record t { peer_list = l }) 1 (λ z. cc)
          (place_of i v t right seen)
          (h.0, (All-get_elem? (TorrentRight b) v.items i t right.torrents seen).1) in
      rw (clean_torrents-kept fuel i v t seen l e) (
        same-Shrunk b v (write_torrent v i (record t { peer_list = l })) _ (omega (arith, kept.1)) (
          later (i + 1) (write_torrent v i (record t { peer_list = l }))
            (omega (arith, kept.1, enough)) (omega (arith, kept.1, get_elem?-lt v.items i t seen))
            kept.0))

  clean_torrents-Shrunk :
      (fuel i : ℕ) (v : Vector Torrent)
      → length v.items < fuel + i
      → i ≤ length v.items
      → BucketRight b v
      → Shrunk b v (clean_torrents envs fuel i v)
  clean_torrents-Shrunk zero i v enough inside right = absurd (omega arith)
  clean_torrents-Shrunk (suc fuel) i v enough inside right =
      elim (Option-cases (get_elem? v.items i)) [
        | inl e ↦ rw (clean_torrents-end fuel i v e) (right, omega arith)
        | inr (t, e) ↦
            cleaned-Shrunk fuel i v t (cleaned_one fuel t) (clean_torrents-Shrunk fuel) refl
              (clean_single_torrent-Trimmed (envs fuel).grants (envs fuel).now t.peer_list
                (All-get_elem? (TorrentRight b) v.items i t right.torrents e).0)
              e enough right
      ]

  -- The change of the number of torrents is the one that was counted, and never positive.
  abbrev pub Drops : Vector Torrent → Option (Change (Unit {0})) → Type 0
  Drops v none = ⊥
  Drops v (some c) =
      BucketRight b c.vector
      × (length c.vector.items + neg_part c.delta ≡ length v.items)
      × (pos_part c.delta ≡ 0)

  as_cleaned-Drops :
      (v : Vector Torrent) (o : Option (Vector Torrent × ℕ))
      → Shrunk b v o
      → Drops v (cleaned envs o)
  as_cleaned-Drops v none h = h
  as_cleaned-Drops v (some (w, zero)) h = (h.0, omega (arith, h.1), refl)
  as_cleaned-Drops v (some (w, suc n)) h = (h.0, omega (arith, h.1), refl)

  pub clean_body-Drops : (v : Vector Torrent) → BucketRight b v → Drops v (clean_body envs v)
  unfolding clean_body
  clean_body-Drops v right =
      as_cleaned-Drops v _
        (clean_torrents-Shrunk (suc (length v.items)) 0 v (omega arith) (omega arith) right)
