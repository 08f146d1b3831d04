-- ===== src/Tracker/Scrape.antt =====
-- The body of a scrape keeps its bucket right, also where it removes a torrent.
use bt_server.Prelude.{ℕ, zero, suc, ◌≡◌, ◌≢◌, map, Bool, true, false, Option, none, some}
use bt_server.Prelude.All.{All-get_elem?}
use bt_server.Vector.{Vector, binary_search}
use bt_server.Vector.Search.{Locates, Returns}
use bt_server.Vector.Sorted.{keys_of}
use bt_server.Vector.Insert.{member_at}
use bt_server.Clean.{PeerList}
use bt_server.Clean.Counters.{Trimmed, Answers, clean_single_torrent-Trimmed}
use bt_server.Tracker.{Torrent, hash_of, bucket_index, Env, scraped, scrape_at, scrape_body}
use bt_server.Tracker.Bodies.{
  TorrentRight, BucketRight, Changes, kept-Changes, rewritten-BucketRight, removed-BucketRight,
  locates,
}

module _ (b : ℕ) (v : Vector Torrent) (right : BucketRight b v) (e : Env) where
  scraped-Changes :
      (i m : ℕ) (t : Torrent) (o : Option (Bool × PeerList))
      → m ≢ 0
      → Locates t.hash (keys_of hash_of v.items) i m
      → bucket_index t.hash ≡ b
      → Answers (λ d l. Trimmed t.peer_list l) o
      → Changes b v (scraped e v i t o)
  scraped-Changes i m t none nz l k h = h
  scraped-Changes i m t (some (true, p)) nz l k h = removed-BucketRight b v right i t m nz l
  scraped-Changes i m t (some (false, p)) nz l k h =
      rewritten-BucketRight b v right i (record t { peer_list = p }) m nz l (h.0, k)

  scrape_at-Changes :
      (hash : ℕ) (o : Option (ℕ × ℕ))
      → Returns o (Locates hash (keys_of hash_of v.items))
      → Changes b v (scrape_at e v o)
  scrape_at-Changes hash none l = l
  scrape_at-Changes hash (some (i, zero)) l = kept-Changes b v right {R = Option PeerList} none
  scrape_at-Changes hash (some (i, suc m)) l =
      let (t, q, k) = member_at hash_of v.items i hash (l.hit (λ z. cc)).0 (l.hit (λ z. cc)).1 in
      let h = All-get_elem? (TorrentRight b) v.items i t right.torrents q in
      rw (q, Changes)
        (scraped-Changes i (suc m) t _ (λ z. cc) (rw k l) h.1
          (clean_single_torrent-Trimmed e.grants e.now t.peer_list h.0))

  pub scrape_body-Changes : (hash : ℕ) → Changes b v (scrape_body e hash v)
  unfolding scrape_body
  scrape_body-Changes hash =
      scrape_at-Changes hash (binary_search hash (map hash_of v.items)) (locates b v right hash)
