-- ===== src/Http/Stats.antt =====
-- `http_handle_stats`: which statistics a request asks for, and who answers it. Whether the code is built
-- with WANT_RESTRICT_STATS and with WANT_FULLSCRAPE is an argument; it is built without
-- WANT_COMPRESSION_GZIP and WANT_LOG_NUMWANT.
use Prim.Native.Nat.{bit_and}
use Prim.Native.String.{String}
use bt_server.Prelude.{
  ℕ, zero, suc, List, [], ◌∷◌, Bool, true, false, not, ◌||◌, ◌==◌, if◌then◌else◌, length,
}
use bt_server.Prelude.Int.{ℤ, pos, negsuc}
use bt_server.Mutex.{task_class_mask}
use bt_server.Scan.{scan_param, scan_value, skipvalue}
use bt_server.Scan.Keywords.{
  Keyword, Lookup, keyword, unknown, malformed, finished, behind_keyword, behind_string,
  scan_find_keywords,
}
use bt_server.Http.{
  Outcome, check, codes, error, error_400_param, error_403_ip, faulted, keyword_overread, no_fuel,
  parsed, string_overread, ◌>>=◌, ◌>>◌,
}
use bt_server.Http.Announce.{skipped, go_on}

-- Of `ot_tasktype`
abbrev pub task_stats : ℕ
task_stats = 0x100

abbrev pub task_stats_peers : ℕ
task_stats_peers = 0x102

abbrev pub task_stats_tpb : ℕ
task_stats_tpb = 6

abbrev pub task_fullscrape : ℕ
task_fullscrape = 0x200

abbrev pub task_fullscrape_trackerstate : ℕ
task_fullscrape_trackerstate = 0x205

abbrev pub names : String → ℕ → Keyword
names s n = record { key = codes s; value = pos n }

abbrev pub keywords_main : List Keyword
keywords_main = names "mode" 1 ∷ names "format" 2 ∷ []

abbrev pub keywords_mode : List Keyword
keywords_mode =
    names "peer" task_stats_peers
    ∷ names "conn" 1
    ∷ names "scrp" 4
    ∷ names "udp4" 3
    ∷ names "tcp4" 2
    ∷ names "busy" 9
    ∷ names "torr" 0x101
    ∷ names "fscr" 5
    ∷ names "s24s" 0x103
    ∷ names "tpbs" task_stats_tpb
    ∷ names "herr" 7
    ∷ names "completed" 0xc
    ∷ names "top100" 0x105
    ∷ names "top10" 0x104
    ∷ names "renew" 0xa
    ∷ names "syncs" 0xb
    ∷ names "version" 8
    ∷ names "everything" 0x106
    ∷ names "statedump" task_fullscrape_trackerstate
    ∷ names "fulllog" 0x107
    ∷ names "woodpeckers" 0x108
    ∷ []

abbrev pub keywords_format : List Keyword
keywords_format =
    names "bin" 0x201
    ∷ names "ben" task_fullscrape
    ∷ names "url" 0x204
    ∷ names "txt" 0x202
    ∷ names "txtp" 0x203
    ∷ []

pub record Asked : Type 0 where
  pub mode : ℕ
  pub format : ℕ

abbrev pub default : Asked
default = record { mode = task_stats_peers; format = 0 }

-- The value of a keyword, where it is above 0, and the next position.
abbrev pub above_zero : Lookup → Outcome (ℕ × List ℕ)
above_zero (keyword (pos zero) rest) = error error_400_param
above_zero (keyword (pos (suc n)) rest) = parsed (suc n, rest)
above_zero (keyword (negsuc n) rest) = error error_400_param
above_zero (unknown rest) = error error_400_param
above_zero malformed = error error_400_param
above_zero finished = error error_400_param
above_zero behind_keyword = faulted keyword_overread
above_zero behind_string = faulted string_overread

unfoldable pub take_value : List Keyword → List ℕ → Outcome (ℕ × List ℕ)
take_value ks s = above_zero (scan_find_keywords ks scan_value s)

abbrev pub set_mode : Asked → ℕ × List ℕ → Outcome (Asked × List ℕ)
set_mode a (n, rest) = parsed (record a { mode = n }, rest)

abbrev pub set_format : Asked → ℕ × List ℕ → Outcome (Asked × List ℕ)
set_format a (n, rest) = parsed (record a { format = n }, rest)

-- The cases of the `switch`.
abbrev pub take_parameter : ℤ → Asked → List ℕ → Outcome (Asked × List ℕ)
take_parameter (negsuc k) a s = parsed (a, s)
take_parameter (pos k) a s =
    if k == 1
    then take_value keywords_mode s >>= set_mode a
    else if k == 2
    then take_value keywords_format s >>= set_format a
    else parsed (a, s)

abbrev pub parameter_found : Asked → List ℕ → Lookup → Outcome (Bool × (Asked × List ℕ))
parameter_found a s (keyword k rest) = take_parameter k a rest >>= λ t. parsed (true, t)
parameter_found a s (unknown rest) = skipped a (skipvalue rest) >>= λ t. parsed (true, t)
parameter_found a s malformed = error error_400_param
parameter_found a s finished = parsed (false, (a, s))
parameter_found a s behind_keyword = faulted keyword_overread
parameter_found a s behind_string = faulted string_overread

-- The loop of `http_handle_stats`.
unfoldable pub stats_loop : ℕ → Asked → List ℕ → Outcome Asked
stats_loop zero a s = faulted no_fuel
stats_loop (suc fuel) a s =
    parameter_found a s (scan_find_keywords keywords_main scan_param s) >>= go_on (stats_loop fuel)

-- Who answers: the thread of the full scrapes, that of the statistics, or this one at once.
pub data StatsAnswer : Type 0 where
  by_fullscrape by_stats at_once : ℕ → StatsAnswer

pub record Features : Type 0 where
  pub restricts_stats : Bool
  pub fullscrapes : Bool

-- "statedump" is a format of full scrapes.
abbrev pub statedump : Asked → Asked
statedump a =
    if a.mode == task_fullscrape_trackerstate
    then record { mode = task_stats_tpb; format = a.mode }
    else a

abbrev pub deliver_stats : ℕ → StatsAnswer
deliver_stats mode =
    if bit_and mode task_class_mask == task_stats then by_stats mode else at_once mode

abbrev pub deliver_fullscrape : Asked → StatsAnswer
deliver_fullscrape a =
    if a.mode == task_stats_tpb then by_fullscrape a.format else deliver_stats a.mode

unfoldable pub deliver : Features → Asked → StatsAnswer
deliver f a = if f.fullscrapes then deliver_fullscrape (statedump a) else deliver_stats a.mode

-- `http_handle_stats`; `may_stat` is whether the address is blessed with OT_PERMISSION_MAY_STAT.
unfoldable pub http_handle_stats : Features → Bool → List ℕ → Outcome StatsAnswer
http_handle_stats f may_stat s =
    check (not f.restricts_stats || may_stat) error_403_ip
    >> (stats_loop (suc (length s)) default s >>= λ a. parsed (deliver f a))
