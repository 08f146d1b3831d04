-- ===== src/Http/Composed.antt =====
-- Announces and scrapes over HTTP, from the request to the tracker.
use bt_server.Prelude.{
  ℕ, suc, ap, ◌+◌, ◌≤◌, ◌<◌, ◌≡◌, refl, List, [], ◌∷◌, Option, none, some, arith, length, inl, inr,
  ◌==◌, Bool-cases, true, false,
}
use bt_server.Peers.{has_flag, flag_stopped}
use bt_server.Clean.{PeerList, size_mod}
use bt_server.Scan.Bounds.{HasEnd}
use bt_server.Http.Queries.{Query, query, Stands, Stands-next}
use bt_server.Tracker.{Tracker, Env, scrape_torrent}
use bt_server.Tracker.Invariant.{
  TrackerRight, Roomy, Serves, Steps, total, add_peer_to_torrent-Serves,
  remove_peer_from_torrent-Serves, scrape_torrent-Steps,
}
use bt_server.Http.{Outcome, parsed, error, faulted, ◌>>=◌}
use bt_server.Http.Announce.{Args, announce_args}
use bt_server.Http.Ends.{Ends, >>=-Ends}
use bt_server.Http.Arguments.{ArgsRight}
use bt_server.Http.Loop.{announce_args-Ends}
use bt_server.Http.Handlers.{
  Reply, no_info_hash, statistics, to_query, query_of, Served, answer, announced, departed, scraped,
  peer_of, big_endian, announce_hash, announce_found, http_handle_announce, scrape_hashes,
  scrape_torrents, scrape_found, add_torrent, http_handle_scrape,
}
use bt_server.Http.Serving.{ScrapeRight, scrape_hashes-Ends}

-- A character that is no newline stands in front of the newline.
end_later : (c : ℕ) (s : List ℕ) → (c == b'\n') ≡ false → HasEnd b'\n' (c ∷ s) → HasEnd b'\n' s
end_later c s other (inl e) = absurd (ground (arith, e, other))
end_later c s other (inr h) = h

query_later : (c : ℕ) (s : List ℕ) → (c == b'?') ≡ true → HasEnd b'\n' (c ∷ s) → HasEnd b'\n' s
query_later c s mark h = end_later c s (ground (arith, mark)) h

module _ (q : Query) where
  to_query-Ends : (s : List ℕ) → Stands q s → Ends q (Stands q) (to_query s)
  unfolding to_query
  to_query-Ends [] h = absurd h.0
  to_query-Ends (c ∷ s) h = elim (Bool-cases (c == b'?')) [
    | inl mark ↦ rw (mark, Ends) (Stands-next q c s (query_later c s mark h.0) h)
    | inr other ↦ elim (Bool-cases (c == b'\n')) [
      | inl end ↦ rw (other, end, Ends) tt
      | inr more ↦ rw (other, more) (to_query-Ends s (Stands-next q c s (end_later c s more h.0) h))
    ]
  ]

  query_of-Ends : (before : ℕ) (s : List ℕ) → Stands q s → Ends q (Stands q) (query_of before s)
  query_of-Ends before s h = elim (Bool-cases (before == b'?')) [
    | inl mark ↦ rw (mark, Ends) h
    | inr other ↦ rw other (to_query-Ends s h)
  ]

-- At most 200 peers are sent to an announced peer, and a scrape gives at most 64 torrents.
abbrev pub Bounded : Reply → Type 0
Bounded no_info_hash = Unit
Bounded (departed l) = Unit
Bounded (announced wanted a) = wanted ≤ 200
Bounded (scraped ls) = length ls ≤ 64
Bounded (statistics a) = Unit

-- A request is answered within bounds, refused, or is a fault that has its cause, and leaves a right
-- tracker.
abbrev pub Answered : Query → Served → Type 0
Answered q none = ⊥
Answered q (some (t, o)) = TrackerRight t × Ends q Bounded o

answer-Answered :
    {R : Type 0} (q : Query) (f : R → Reply) (o : Option (Tracker × R))
    → ((r : R) → Bounded (f r))
    → Serves o
    → Answered q (answer f o)
answer-Answered q f none k h = h
answer-Answered q f (some (t, r)) k h = (h, k r)

module _ (e : Env) (ip : ℕ) (t : Tracker) (right : TrackerRight t) (room : Roomy t) where
  announce_hash-Answered :
      (q : Query) (a : Args) (o : Option (List ℕ))
      → ArgsRight a
      → Answered q (announce_hash e ip t a o)
  announce_hash-Answered q a none r = (right, tt)
  announce_hash-Answered q a (some word) r = elim (Bool-cases (has_flag a.flag flag_stopped)) [
    | inl stops ↦
        rw (stops, Answered)
          (answer-Answered q departed _ (λ l. tt)
            (remove_peer_from_torrent-Serves t right e (peer_of ip e.stale_peer.time a).key
              (big_endian word 0) room.torrent))
    | inr stays ↦
        rw (stays, Answered)
          (answer-Answered q (announced a.numwant) _ (λ l. r.few)
            (add_peer_to_torrent-Serves t right e (peer_of ip e.stale_peer.time a)
              (big_endian word 0) r.flag_byte room))
  ]

  announce_found-Answered :
      (q : Query) (o : Outcome Args) → Ends q ArgsRight o → Answered q (announce_found e ip t o)
  announce_found-Answered q (parsed a) h = announce_hash-Answered q a a.hash h
  announce_found-Answered q (error c) h = (right, tt)
  announce_found-Answered q (faulted x) h = (right, h)

  -- In a right tracker with room in its counters, an announce over HTTP with a newline ahead leaves
  -- a right tracker, and the scan of its arguments always ends and never reads behind the newline.
  -- The announce is answered, with at most 200 peers, or refused, or it is a fault of one of two kinds:
  -- a read behind a keyword, only where the request holds a '%' and two digits that are decoded to 0,
  -- or a number that overflows an `int`.
  pub http_handle_announce-Answered :
      (before : ℕ) (s : List ℕ)
      → HasEnd b'\n' s
      → Answered (query s true) (http_handle_announce e ip before s t)
  unfolding http_handle_announce
  http_handle_announce-Answered before s h =
      let q = query s true in
      announce_found-Answered q (query_of before s >>= announce_args) (
        >>=-Ends q (Stands q) ArgsRight (query_of before s) announce_args
          (query_of-Ends q before s (h, λ e. e)) (announce_args-Ends q refl))

-- The torrents of a scrape.
abbrev pub Scraped : ℕ → Option (Tracker × List (ℕ × Option PeerList)) → Type 0
Scraped n none = ⊥
Scraped n (some (t, ls)) = TrackerRight t × (length ls ≡ n)

add_torrent-Scraped :
    (n hash : ℕ) (l : Option PeerList) (o : Option (Tracker × List (ℕ × Option PeerList)))
    → Scraped n o
    → Scraped (suc n) (add_torrent hash l o)
add_torrent-Scraped n hash l none h = h
add_torrent-Scraped n hash l (some (t, ls)) h = (h.0, ap suc h.1)

scrape_torrents-step :
    (envs : ℕ → Env) (word : List ℕ) (words : List (List ℕ)) (t : Tracker)
    (o : Option (Tracker × Option PeerList))
    → scrape_torrent (envs (length words)) (big_endian word 0) t ≡ o
    → ((u : Tracker)
        → TrackerRight u
        → total u ≤ total t + 1
        → Scraped (length words) (scrape_torrents envs words u))
    → Steps t o
    → Scraped (suc (length words)) (scrape_torrents envs (word ∷ words) t)
unfolding scrape_torrents
scrape_torrents-step envs word words t none e later h = absurd h
scrape_torrents-step envs word words t (some (u, l)) e later h =
    rw (e, Scraped)
      (add_torrent-Scraped (length words) (big_endian word 0) l (scrape_torrents envs words u)
        (later u h.0 h.1))

scrape_torrents-Scraped :
    (envs : ℕ → Env) (words : List (List ℕ)) (t : Tracker)
    → TrackerRight t
    → total t + length words < size_mod
    → Scraped (length words) (scrape_torrents envs words t)
unfolding scrape_torrents
scrape_torrents-Scraped envs [] t right room = (right, refl)
scrape_torrents-Scraped envs (word ∷ words) t right room =
    scrape_torrents-step envs word words t _ refl
      (λ u r le. scrape_torrents-Scraped envs words u r (omega (arith, room, le)))
      (scrape_torrent-Steps t right (envs (length words)) (big_endian word 0) (omega arith))

scraped-Answered :
    (q : Query) (n : ℕ) (o : Option (Tracker × List (ℕ × Option PeerList)))
    → n ≤ 64
    → Scraped n o
    → Answered q (answer scraped o)
scraped-Answered q n none le h = h
scraped-Answered q n (some (t, ls)) le h = (h.0, omega (arith, le, h.1))

module _ (envs : ℕ → Env) (t : Tracker) (right : TrackerRight t) where
  scrape_found-Answered :
      (q : Query) (o : Outcome (List (List ℕ)))
      → total t + 64 < size_mod
      → Ends q (λ hs. length hs ≤ 64) o
      → Answered q (scrape_found envs t o)
  scrape_found-Answered q (parsed hs) room h =
      scraped-Answered q (length hs) (scrape_torrents envs hs t) h
        (scrape_torrents-Scraped envs hs t right (omega (arith, room, h)))
  scrape_found-Answered q (error c) room h = (right, tt)
  scrape_found-Answered q (faulted x) room h = (right, h)

  few_hashes :
      (q : Query) (o : Outcome (List (List ℕ))) (n : ℕ)
      → Ends q (ScrapeRight n) o
      → Ends q (λ hs. length hs ≤ 64) o
  few_hashes q (parsed hs) n h = h.1
  few_hashes q (error c) n h = tt
  few_hashes q (faulted x) n h = h

  -- In a right tracker with room for 64 more torrents in its counter, a scrape over HTTP with a newline
  -- ahead leaves a right tracker, also where torrents have timed out and are removed, and the scan of
  -- its hashes always ends and never reads behind the newline. The scrape is answered, with at most 64
  -- hashes looked up, or refused, or it is a fault, which can only be a read behind a keyword, and only
  -- where the request holds a '%' and two digits that are decoded to 0.
  pub http_handle_scrape-Answered :
      (before : ℕ) (s : List ℕ)
      → total t + 64 < size_mod
      → HasEnd b'\n' s
      → Answered (query s false) (http_handle_scrape envs before s t)
  unfolding http_handle_scrape
  http_handle_scrape-Answered before s room h =
      let q = query s false in
      scrape_found-Answered q (query_of before s >>= scrape_hashes) room (
        >>=-Ends q (Stands q) (λ hs. length hs ≤ 64) (query_of before s) scrape_hashes
          (query_of-Ends q before s (h, λ e. e))
          (λ next k. few_hashes q (scrape_hashes next) (length next) (scrape_hashes-Ends q next k)))
