-- ===== src/Http/Handlers.antt =====
-- What `http_handle_announce`, `http_handle_scrape` and `http_handle_request` do with the tracker, up
-- to the text of their replies.
use bt_server.Prelude.{
  ℕ, zero, suc, ◌+◌, ◌*◌, ◌^◌, List, [], ◌∷◌, ◌++◌, Bool, true, false, Option, none, some, ◌==◌,
  if◌then◌else◌, length, take,
}
use bt_server.Prelude.Int.{pos}
use bt_server.Peers.{Peer, has_flag, flag_stopped}
use bt_server.Clean.{PeerList}
use bt_server.Scan.{scan_param, skipvalue}
use bt_server.Scan.Keywords.{
  Keyword, Lookup, keyword, unknown, malformed, finished, behind_keyword, behind_string,
  scan_find_keywords,
}
use bt_server.Tracker.{
  Tracker, Env, Answer, add_peer_to_torrent, remove_peer_from_torrent, scrape_torrent,
}
use bt_server.Http.{
  Outcome, parsed, error, faulted, ◌>>=◌, error_400_param, keyword_overread, string_overread,
  no_fuel,
}
use bt_server.Http.Stats.{StatsAnswer}
use bt_server.Http.Announce.{Args, announce_args, take_twenty, skipped, go_on}

-- The bytes read as one big-endian number.
unfoldable pub big_endian : List ℕ → ℕ → ℕ
big_endian [] n = n
big_endian (b ∷ bs) n = big_endian bs (n * 256 + b)

-- "This is to hack around stupid clients": `before` is `read_ptr[-1]`.
unfoldable pub to_query : List ℕ → Outcome (List ℕ)
to_query [] = faulted string_overread
to_query (c ∷ s) =
    let rest = to_query s in
    if c == b'?' then parsed s else if c == b'\n' then error error_400_param else rest

abbrev pub query_of : ℕ → List ℕ → Outcome (List ℕ)
query_of before s = if before == b'?' then parsed s else to_query s

-- What a request is answered with: an announce without a hash, a peer that leaves, a peer that is
-- announced and wants so many peers, the torrents of a scrape that are known, and who answers
-- with statistics.
pub data Reply : Type 0 where
  no_info_hash : Reply
  departed : PeerList → Reply
  announced : ℕ → Answer → Reply
  scraped : List (ℕ × Option PeerList) → Reply
  statistics : StatsAnswer → Reply

-- `ws->peer`, with the last four bytes of the address; its time is whatever it was.
abbrev pub peer_of : ℕ → ℕ → Args → Peer
peer_of ip stale_time a = record { key = ip * 2 ^ 16 + a.port; flag = a.flag; time = stale_time }

-- A request leaves a tracker, and is answered, refused or faulted.
abbrev pub Served : Type 0
Served = Option (Tracker × Outcome Reply)

abbrev pub answer : {R : Type 0} → (R → Reply) → Option (Tracker × R) → Served
answer f none = none
answer f (some (t, r)) = some (t, parsed (f r))

module _ (e : Env) (ip : ℕ) where
  abbrev pub announce_hash : Tracker → Args → Option (List ℕ) → Served
  announce_hash t a none = some (t, parsed no_info_hash)
  announce_hash t a (some word) =
      let p = peer_of ip e.stale_peer.time a in
      let hash = big_endian word 0 in
      if has_flag a.flag flag_stopped
      then answer departed (remove_peer_from_torrent e p.key hash t)
      else answer (announced a.numwant) (add_peer_to_torrent e p hash t)

  abbrev pub announce_found : Tracker → Outcome Args → Served
  announce_found t (parsed a) = announce_hash t a a.hash
  announce_found t (error c) = some (t, error c)
  announce_found t (faulted x) = some (t, faulted x)

  unfoldable pub http_handle_announce : ℕ → List ℕ → Tracker → Served
  http_handle_announce before s t = announce_found t (query_of before s >>= announce_args)

-- `keywords_scrape`
abbrev pub scrape_keywords : List Keyword
scrape_keywords =
    record {
      key = b'i' ∷ b'n' ∷ b'f' ∷ b'o' ∷ b'_' ∷ b'h' ∷ b'a' ∷ b's' ∷ b'h' ∷ [];
      value = pos 1;
    }
    ∷ []

-- `multiscrape_buf`, the hashes written at the front of the request, and the next position.
abbrev pub Hashes : Type 0
Hashes = List (List ℕ) × List ℕ

abbrev pub add_hash : List (List ℕ) → List ℕ × List ℕ → Outcome (Bool × Hashes)
add_hash hs (rest, word) = parsed (true, (hs ++ (word ∷ []), rest))

abbrev pub hash_found : List (List ℕ) → List ℕ → Lookup → Outcome (Bool × Hashes)
hash_found hs s (keyword k rest) = take_twenty rest >>= add_hash hs
hash_found hs s (unknown rest) = skipped hs (skipvalue rest) >>= λ t. parsed (true, t)
hash_found hs s malformed = error error_400_param
hash_found hs s finished = parsed (false, (hs, s))
hash_found hs s behind_keyword = faulted keyword_overread
hash_found hs s behind_string = faulted string_overread

-- The loop of `http_handle_scrape`.
unfoldable pub scrape_loop : ℕ → List (List ℕ) → List ℕ → Outcome (List (List ℕ))
scrape_loop zero hs s = faulted no_fuel
scrape_loop (suc fuel) hs s =
    hash_found hs s (scan_find_keywords scrape_keywords scan_param s) >>= go_on (scrape_loop fuel)

-- OT_MAXMULTISCRAPE_COUNT
abbrev pub max_multiscrape : ℕ
max_multiscrape = 64

abbrev pub some_hashes : List (List ℕ) → Outcome (List (List ℕ))
some_hashes [] = error error_400_param
some_hashes (h ∷ hs) = parsed (take max_multiscrape (h ∷ hs))

unfoldable pub scrape_hashes : List ℕ → Outcome (List (List ℕ))
scrape_hashes s = scrape_loop (suc (length s)) [] s >>= some_hashes

abbrev pub add_torrent :
    ℕ
    → Option PeerList
    → Option (Tracker × List (ℕ × Option PeerList))
    → Option (Tracker × List (ℕ × Option PeerList))
add_torrent hash l none = none
add_torrent hash l (some (t, ls)) = some (t, (hash, l) ∷ ls)

-- The loop of `return_tcp_scrape_for_torrent`; `envs n` is what it meets at the n-th hash from the end.
unfoldable pub scrape_torrents :
    (ℕ → Env) → List (List ℕ) → Tracker → Option (Tracker × List (ℕ × Option PeerList))
scrape_torrents envs [] t = some (t, [])
scrape_torrents envs (word ∷ words) t =
    elim (scrape_torrent (envs (length words)) (big_endian word 0) t) [
      | none ↦ none
      | some (u, l) ↦ add_torrent (big_endian word 0) l (scrape_torrents envs words u)
    ]

abbrev pub scrape_found : (ℕ → Env) → Tracker → Outcome (List (List ℕ)) → Served
scrape_found envs t (parsed hs) = answer scraped (scrape_torrents envs hs t)
scrape_found envs t (error c) = some (t, error c)
scrape_found envs t (faulted x) = some (t, faulted x)

unfoldable pub http_handle_scrape : (ℕ → Env) → ℕ → List ℕ → Tracker → Served
http_handle_scrape envs before s t = scrape_found envs t (query_of before s >>= scrape_hashes)
