-- ===== src/Tracker/Bodies.antt =====
-- Every body keeps its bucket sorted, in its place and with right counters, and reports by how many the
-- torrents have changed.
use bt_server.Prelude.{
  ℕ, zero, suc, ◌+◌, ◌≤◌, ◌≡◌, ◌≢◌, refl, sym, ap, ◌∙◌, List, [], ◌∷◌, map, Option, none, some,
  arith, length, length-set,
}
use mathlib.Core.Path.{subst}
use bt_server.Prelude.Int.{ℤ, pos, negsuc, pos_part, neg_part}
use bt_server.Prelude.All.{All, All-get_elem?}
use bt_server.Vector.{Vector, binary_search, remove_member, remove_at, open_slot}
use bt_server.Vector.Search.{Locates, Returns, binary_search-Locates}
use bt_server.Vector.Sorted.{
  IsChain, IsChain→IsAscending, keys_of, length-keys_of, upsert, erase, set-upsert, upsert-IsChain,
  erase-IsChain, remove_at-erase, upsert-All, erase-All,
}
use bt_server.Vector.Insert.{Fits, member_at}
use bt_server.Vector.Shrink.{remove_member-Fits}
use bt_server.Clean.{PeerList}
use bt_server.Clean.Counters.{CountsRight, Holds}
use bt_server.Announce.{retract}
use bt_server.Announce.Counters.{retract-CountsRight}
use bt_server.Tracker.{
  Torrent, hash_of, bucket_index, Env, Change, write_torrent, empty_list, retracted, retract_at,
  remove_body,
}

abbrev pub TorrentRight : ℕ → Torrent → Type 0
TorrentRight b t = CountsRight t.peer_list × (bucket_index t.hash ≡ b)

pub record BucketRight (b : ℕ) (v : Vector Torrent) : Type 0 where
  pub ordered : IsChain (keys_of hash_of v.items)
  pub fits : Fits v
  pub torrents : All (TorrentRight b) v.items

-- The change of the number of torrents is the one that is reported, and at most one torrent is new.
abbrev pub CountedBy : Vector Torrent → Vector Torrent → ℤ → Type 0
CountedBy v w delta =
    (length w.items + neg_part delta ≡ length v.items + pos_part delta) × (pos_part delta ≤ 1)

abbrev pub Changes : {R : Type 0} → ℕ → Vector Torrent → Option (Change R) → Type 0
Changes b v none = ⊥
Changes b v (some c) = BucketRight b c.vector × CountedBy v c.vector c.delta

remove_at-open_slot :
    (stale : Torrent) (i : ℕ) (xs : List Torrent)
    → i ≤ length xs
    → remove_at i (open_slot stale i xs) ≡ xs
unfolding remove_at open_slot
remove_at-open_slot stale zero xs h = refl
remove_at-open_slot stale (suc i) [] h = absurd (omega arith)
remove_at-open_slot stale (suc i) (x ∷ xs) h =
    ap (λ r. x ∷ r) (remove_at-open_slot stale i xs (omega arith))

module _ (b : ℕ) (v : Vector Torrent) (right : BucketRight b v) where
  -- A torrent that is put under its hash.
  pub put-BucketRight :
      (t : Torrent) (w : Vector Torrent)
      → w.items ≡ upsert hash_of t v.items
      → Fits w
      → TorrentRight b t
      → BucketRight b w
  put-BucketRight t w e f h = record {
    ordered =
        subst (λ xs. IsChain (keys_of hash_of xs)) (sym e)
          (upsert-IsChain hash_of t v.items right.ordered);
    fits = f;
    torrents =
        subst (All (TorrentRight b)) (sym e)
          (upsert-All hash_of (TorrentRight b) t v.items right.torrents h);
  }

  pub kept-Changes :
      {R : Type 0} (r : R) → Changes b v (some (record { vector = v; delta = pos 0; answer = r }))
  kept-Changes r = (right, omega arith)

  -- The slot of a new torrent is closed again.
  pub closed-BucketRight :
      (stale : Torrent) (w : Vector Torrent) (i : ℕ)
      → w.items ≡ open_slot stale i v.items
      → i ≤ length v.items
      → length w.items ≡ length v.items + 1
      → Fits w
      → BucketRight b (remove_member w i) × CountedBy v (remove_member w i) (pos 0)
  closed-BucketRight stale w i e h len f =
      let r = remove_member-Fits w i (omega arith) f in
      let same : (remove_member w i).items ≡ v.items =
        r.0 ∙ ap (remove_at i) e ∙ remove_at-open_slot stale i v.items h in
      (
        record {
          ordered = subst (λ xs. IsChain (keys_of hash_of xs)) (sym same) right.ordered;
          fits = r.1;
          torrents = subst (All (TorrentRight b)) (sym same) right.torrents;
        },
        omega (arith, r.2),
      )

  -- A torrent that is rewritten where its hash stands.
  module _ (i : ℕ) (t : Torrent) (m : ℕ) (nz : m ≢ 0) where
    pub rewritten-BucketRight :
        Locates t.hash (keys_of hash_of v.items) i m
        → TorrentRight b t
        → BucketRight b (write_torrent v i t) × CountedBy v (write_torrent v i t) (pos 0)
    rewritten-BucketRight l h = (
      put-BucketRight t (write_torrent v i t) (set-upsert hash_of t v.items i m l nz)
          (omega (arith, length-set v.items i t, right.fits)) h,
      omega (arith, length-set v.items i t),
    )

    pub removed-BucketRight :
        Locates t.hash (keys_of hash_of v.items) i m
        → BucketRight b (remove_member v i) × CountedBy v (remove_member v i) (negsuc 0)
    removed-BucketRight l =
        let r =
          remove_member-Fits v i (omega (arith, (l.hit nz).0, length-keys_of hash_of v.items))
            right.fits in
        let same : (remove_member v i).items ≡ erase hash_of t.hash v.items =
          r.0 ∙ remove_at-erase hash_of t.hash v.items i m l nz in
        (
          record {
            ordered =
                subst (λ xs. IsChain (keys_of hash_of xs)) (sym same)
                  (erase-IsChain hash_of t.hash v.items right.ordered);
            fits = r.1;
            torrents =
                subst (All (TorrentRight b)) (sym same)
                  (erase-All hash_of (TorrentRight b) t.hash v.items right.torrents);
          },
          omega (arith, r.2),
        )

  pub locates :
      (hash : ℕ)
      → Returns (binary_search hash (map hash_of v.items)) (Locates hash (keys_of hash_of v.items))
  locates hash =
      binary_search-Locates hash (keys_of hash_of v.items)
        (IsChain→IsAscending (keys_of hash_of v.items) right.ordered)

  module _ (e : Env) where
    module _ (key hash : ℕ) where
      retracted-Changes :
          (i m : ℕ) (t : Torrent) (o : Option PeerList)
          → m ≢ 0
          → Locates t.hash (keys_of hash_of v.items) i m
          → bucket_index t.hash ≡ b
          → Holds CountsRight o
          → Changes b v (retracted e v i t o)
      retracted-Changes i m t none nz l k h = h
      retracted-Changes i m t (some p) nz l k h =
          rewritten-BucketRight i (record t { peer_list = p }) m nz l (h, k)

      retract_at-Changes :
          (o : Option (ℕ × ℕ))
          → Returns o (Locates hash (keys_of hash_of v.items))
          → Changes b v (retract_at e key v o)
      retract_at-Changes none l = l
      retract_at-Changes (some (i, zero)) l = kept-Changes empty_list
      retract_at-Changes (some (i, suc m)) l =
          let (t, q, k) =
            member_at hash_of v.items i hash (l.hit (λ z. cc)).0 (l.hit (λ z. cc)).1 in
          let h = All-get_elem? (TorrentRight b) v.items i t right.torrents q in
          rw (q, Changes)
            (retracted-Changes i (suc m) t (retract key t.peer_list) (λ z. cc) (rw k l) h.1
              (retract-CountsRight key t.peer_list h.0))

      pub remove_body-Changes : Changes b v (remove_body e key hash v)
      unfolding remove_body
      remove_body-Changes =
          retract_at-Changes (binary_search hash (map hash_of v.items)) (locates hash)
