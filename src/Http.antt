-- ===== src/Http.antt =====
-- src/ot_http.c: the arguments of an announce and of a scrape, and what is done with them. Built
-- without WANT_IP_FROM_QUERY_STRING, WANT_IP_FROM_PROXY, WANT_FULLLOG_NETWORKS and WANT_LOG_NUMWANT.
-- A string is the list of its characters from the pointer on. A keyword's value is decoded where it
-- stands, behind the position of the scan.
pub mod Announce
pub mod Queries
pub mod Ends
pub mod Arguments
pub mod Lookups
pub mod Loop
pub mod Handlers
pub mod Serving
pub mod Composed
pub mod Request
pub mod Stats
pub mod Tables
pub mod Delivery
use Prim.Native.Char.{code}
use Prim.Native.String.{String}
use bt_server.Prelude.{
  ℕ, zero, suc, ◌+◌, ◌-◌, ◌*◌, ◌%◌, ◌^◌, List, [], ◌∷◌, Bool, true, false, not, ◌||◌, Option, none,
  some, ltb, ◌==◌, if◌then◌else◌, length,
}
use bt_server.Prelude.Int.{ℤ, pos, negsuc}
use bt_server.Peers.{flag_seeding, flag_completed, flag_stopped}
use bt_server.Scan.{
  Scan, scanned, failed, ended, overrun, scan_urlencoded_query, scan_param, scan_value, skipvalue,
}
use bt_server.Scan.Keywords.{
  Keyword, Lookup, keyword, unknown, malformed, finished, behind_keyword, behind_string,
  scan_find_keywords,
}
use bt_server.Scan.Number.{scan_fixed_int}

-- The code points of a text.
abbrev pub codes : String → List ℕ
codes String.[] = []
codes (String.◌∷◌ c s) = code c ∷ codes s

-- The codes of include/ot_stats.h that are issued here.
pub data HttpError : Type 0 where
  error_302 error_400 error_400_param error_400_compact error_403_ip error_404 error_500 : HttpError

-- What ends a request otherwise: reads behind a keyword or behind the string, an `int` that overflows,
-- and the end of the fuel.
pub data Fault : Type 0 where
  keyword_overread string_overread int_overflow no_fuel : Fault

pub data Outcome (A : Type 0) : Type 0 where
  parsed : A → Outcome A
  error : HttpError → Outcome A
  faulted : Fault → Outcome A

infixl 5 ◌>>=◌ ◌>>◌
abbrev pub ◌>>=◌ : {A B : Type 0} → Outcome A → (A → Outcome B) → Outcome B
parsed a >>= f = f a
error c >>= f = error c
faulted x >>= f = faulted x

abbrev pub ◌>>◌ : {B : Type 0} → Outcome (Unit {0}) → Outcome B → Outcome B
m >> k = m >>= λ _. k

abbrev pub check : Bool → HttpError → Outcome (Unit {0})
check true c = parsed tt
check false c = error c

-- A value with at least one character: the next position and the decoded characters.
abbrev pub text_of : Scan → Outcome (List ℕ × List ℕ)
text_of (scanned rest []) = error error_400_param
text_of (scanned rest (c ∷ cs)) = parsed (rest, c ∷ cs)
text_of failed = error error_400_param
text_of ended = error error_400_param
text_of overrun = faulted string_overread

unfoldable pub scan_text : List ℕ → Outcome (List ℕ × List ℕ)
scan_text s = text_of (scan_urlencoded_query scan_value s)

abbrev pub number_of : Option (ℕ × ℤ) → Outcome (ℕ × ℤ)
number_of none = faulted int_overflow
number_of (some r) = parsed r

-- `scan_fixed_int` over all of a value: what is left of its length, and the number.
unfoldable pub scan_number : List ℕ → Outcome (ℕ × ℤ)
scan_number word = number_of (scan_fixed_int word (length word))
