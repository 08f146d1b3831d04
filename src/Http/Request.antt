-- ===== src/Http/Request.antt =====
-- `http_handle_request`: which handler a request goes to, and how its answer is put behind a header.
use Prim.Native.Nat.pow
use bt_server.Prelude.{
  ℕ, zero, suc, ◌+◌, ◌-◌, ◌/◌, ◌%◌, ◌^◌, ◌≤◌, ◌<◌, ◌≡◌, List, [], ◌∷◌, ◌++◌, Bool, true, false,
  ◌&&◌, ◌||◌, none, some, arith, ltb, ◌==◌, if◌then◌else◌, length, length-append, get_or, drop,
}
use bt_server.Scan.{Scan, scanned, failed, ended, overrun, scan_urlencoded_query, scan_path}
use bt_server.Tracker.{Tracker, Env, nothing}
use bt_server.Http.{
  Outcome, codes, parsed, ◌>>=◌, error, faulted, error_302, error_400, error_404, error_500,
  string_overread,
}
use bt_server.Http.Stats.{Features, StatsAnswer, http_handle_stats}
use bt_server.Http.Handlers.{
  Reply, announced, statistics, Served, http_handle_announce, http_handle_scrape,
}

-- `g_redirecturl`, whether it is set, and `g_stats_path`
pub record Site : Type 0 where
  pub redirects : Bool
  pub stats_path : List ℕ

-- Whether the second string begins with the first.
abbrev pub begins : List ℕ → List ℕ → Bool
begins [] s = true
begins (c ∷ cs) [] = false
begins (c ∷ cs) (d ∷ s) = d == c && begins cs s

abbrev pub same_bytes : List ℕ → List ℕ → Bool
same_bytes [] [] = true
same_bytes [] (d ∷ s) = false
same_bytes (c ∷ cs) [] = false
same_bytes (c ∷ cs) (d ∷ s) = c == d && same_bytes cs s

-- "Skip leading '/'"
unfoldable pub skip_slashes : List ℕ → List ℕ
skip_slashes [] = []
skip_slashes (c ∷ s) = let rest = skip_slashes s in if c == b'/' then rest else c ∷ s

-- The handlers, each with `read_ptr[-1]` and the string at `read_ptr`.
pub data Route : Type 0 where
  to_announce to_scrape : ℕ → List ℕ → Route
  to_stats : List ℕ → Route

-- The second character at `write_ptr`: decoded, or where only one was decoded, still as it arrived.
abbrev pub second : List ℕ → List ℕ → ℕ
second path [] = get_or path 1 0
second path (d ∷ ds) = d

abbrev pub route : Site → List ℕ → Scan → Outcome Route
route site path ended = if site.redirects then error error_302 else error error_404
route site path failed = error error_404
route site path overrun = faulted string_overread
route site path (scanned rest []) = error error_404
route site path (scanned rest (c ∷ cs)) =
    let before = get_or path (length path - length rest - 1) 0 in
    if c == b'a' || c == b'?'
    then parsed (to_announce before rest)
    else if c == b's' && second path cs == b'c'
    then parsed (to_scrape before rest)
    else if same_bytes (c ∷ cs) site.stats_path
    then parsed (to_stats rest)
    else error error_404

unfoldable pub routed : Site → List ℕ → Outcome Route
routed site s =
    if begins (codes "GET /") s
    then (let path = skip_slashes (drop 4 s) in
        route site path (scan_urlencoded_query scan_path path))
    else error error_400

-- An answer without a byte is an error.
abbrev pub not_empty : Outcome Reply → Outcome Reply
not_empty (parsed (announced n nothing)) = error error_500
not_empty o = o

abbrev pub finished : Served → Served
finished none = none
finished (some (t, o)) = some (t, not_empty o)

abbrev pub given_stats : Outcome StatsAnswer → Outcome Reply
given_stats o = o >>= λ a. parsed (statistics a)

abbrev pub handle : Features → Bool → Env → (ℕ → Env) → ℕ → Tracker → Outcome Route → Served
handle f may_stat e envs ip t (parsed (to_announce before s)) = http_handle_announce e ip before s t
handle f may_stat e envs ip t (parsed (to_scrape before s)) = http_handle_scrape envs before s t
handle f may_stat e envs ip t (parsed (to_stats s)) =
    some (t, given_stats (http_handle_stats f may_stat s))
handle f may_stat e envs ip t (error c) = some (t, error c)
handle f may_stat e envs ip t (faulted x) = some (t, faulted x)

-- `http_handle_request`, up to the text of its answer
unfoldable pub http_handle_request :
    Features → Bool → Env → (ℕ → Env) → Site → ℕ → List ℕ → Tracker → Served
http_handle_request f may_stat e envs site ip s t =
    finished (handle f may_stat e envs ip t (routed site s))

-- The decimal digits of a number, by `%zd`.
unfoldable pub decimal : ℕ → ℕ → List ℕ
decimal zero n = []
decimal (suc fuel) n =
    let rest = decimal fuel (n / 10) in
    if ltb n 10 then (n + b'0') ∷ [] else rest ++ ((n % 10 + b'0') ∷ [])

-- Enough for a `ssize_t`.
abbrev pub zd : ℕ → List ℕ
zd n = decimal 20 n

-- SUCCESS_HTTP_HEADER_LENGTH, SUCCESS_HTTP_SIZE_OFF
abbrev pub header_length : ℕ
header_length = 80

abbrev pub size_off : ℕ
size_off = 17

abbrev pub reply_off : ℕ → ℕ
reply_off n = size_off - length (zd n)

abbrev pub header_start : List ℕ
header_start = codes "HTTP/1.1 200 OK\r\nContent-Type: text/plain\r\nContent-Length: "

-- What `sprintf` writes at `reply_off` for an answer of `n` bytes.
unfoldable pub header : ℕ → List ℕ
header n = header_start ++ (zd n ++ (b'\r' ∷ b'\n' ∷ b'\r' ∷ []))

-- `ws->reply_size` in the end
unfoldable pub framed_size : ℕ → ℕ
framed_size n = n + (1 + length (header n))

length-decimal : (fuel n k : ℕ) → n < 10 ^ k → 0 < k → length (decimal fuel n) ≤ k
unfolding decimal
length-decimal zero n k h p = omega arith
length-decimal (suc fuel) n zero h p = absurd (omega arith)
length-decimal (suc fuel) n (suc zero) h p = ground arith
length-decimal (suc fuel) n (suc (suc k)) h p = ground (
  arith,
  length-append (decimal fuel (n / 10)) ((n % 10 + b'0') ∷ []),
  length-decimal fuel (n / 10) (suc k) (omega (arith, pow.suc 10 (suc k), h)) (omega arith),
)

-- For an answer of less than 10 ^ 17 bytes the header is written inside the work buffer and ends exactly
-- where its last byte, and then the answer, stand: header and answer are one text, of the size that
-- is sent.
pub header_frame :
    (n : ℕ)
    → n < 10 ^ 17
    → (reply_off n + length (zd n) ≡ size_off)
      × (reply_off n + length (header n) + 1 ≡ header_length)
      × (reply_off n + framed_size n ≡ header_length + n)
unfolding header framed_size
header_frame n h =
    let digits = length-decimal 20 n 17 h (omega arith) in
    let sizes : length (header n) ≡ 59 + (length (zd n) + 3) = omega (
      arith,
      length-append header_start (zd n ++ (b'\r' ∷ b'\n' ∷ b'\r' ∷ [])),
      length-append (zd n) (b'\r' ∷ b'\n' ∷ b'\r' ∷ []),
    ) in
    (omega (arith, digits), omega (arith, digits, sizes), omega (arith, digits, sizes))
