-- ===== src/Http/Announce.antt =====
-- The arguments of an announce: the loop of `http_handle_announce` over a request's parameters.
use Prim.Native.Nat.{bit_or}
use bt_server.Prelude.{
  ℕ, zero, suc, ◌-◌, ◌%◌, ◌^◌, List, [], ◌∷◌, Bool, true, false, not, ◌||◌, Option, none, some, ltb,
  ◌==◌, if◌then◌else◌, length,
}
use bt_server.Prelude.Int.{ℤ, pos, negsuc}
use bt_server.Peers.{flag_seeding, flag_completed, flag_stopped}
use bt_server.Scan.{scan_param, scan_value, skipvalue}
use bt_server.Scan.Keywords.{
  Keyword, Lookup, keyword, unknown, malformed, finished, behind_keyword, behind_string,
  scan_find_keywords,
}
use bt_server.Http.{
  Outcome, check, error, error_400_compact, error_400_param, faulted, keyword_overread, no_fuel,
  parsed, scan_number, scan_text, string_overread, ◌>>=◌, ◌>>◌,
}

-- The members of `ws->peer` besides the address, `numwant`, `ws->hash` and `ws->peer_id`. The port is
-- the number of its two bytes.
pub record Args : Type 0 where
  pub port : ℕ
  pub flag : ℕ
  pub numwant : ℕ
  pub hash : Option (List ℕ)
  pub peer_id : Option (List ℕ)

abbrev pub no_args : Args
no_args = record { port = 0; flag = 0; numwant = 50; hash = none; peer_id = none }

abbrev pub set_flag : ℕ → Args → Args
set_flag f a = record a { flag = bit_or a.flag f }

-- `tmp > 0xffff`
abbrev pub fits_port : ℤ → Bool
fits_port (pos n) = ltb n 0x1_0000
fits_port (negsuc n) = true

-- `htons( tmp )`
abbrev pub to_port : ℤ → ℕ
to_port (pos n) = n % 2 ^ 16
to_port (negsuc n) = 2 ^ 16 - 1 - n % 2 ^ 16

-- The bounds of `numwant`.
abbrev pub to_numwant : ℤ → ℕ
to_numwant (pos n) = if ltb 200 n then 200 else n
to_numwant (negsuc n) = 50

abbrev pub is_zero : ℤ → Bool
is_zero (pos n) = n == 0
is_zero (negsuc n) = false

-- What a step of the loop leaves: the arguments and the next position.
abbrev pub State : Type 0
State = Args × List ℕ

-- The cases of the `switch` of `http_handle_announce`.
unfoldable pub take_port : Args → List ℕ → Outcome State
take_port a s = do
  (rest, word) ← scan_text s
  (left, n) ← scan_number word
  check (left == 0) error_400_param
  check (fits_port n) error_400_param
  parsed (record a { port = to_port n }, rest)

unfoldable pub take_left : Args → List ℕ → Outcome State
take_left a s = do
  (rest, word) ← scan_text s
  (left, n) ← scan_number word
  let no_bytes = not (left == 0) || is_zero n
  parsed (if no_bytes then set_flag flag_seeding a else a, rest)

-- `keywords_announce_event`
abbrev pub event_keywords : List Keyword
event_keywords =
    record {
      key = b'c' ∷ b'o' ∷ b'm' ∷ b'p' ∷ b'l' ∷ b'e' ∷ b't' ∷ b'e' ∷ b'd' ∷ [];
      value = pos 1;
    }
    ∷ record { key = b's' ∷ b't' ∷ b'o' ∷ b'p' ∷ b'p' ∷ b'e' ∷ b'd' ∷ []; value = pos 2 }
    ∷ []

abbrev pub event_flag : ℤ → ℕ
event_flag (pos n) = if n == 1 then flag_completed else if n == 2 then flag_stopped else 0
event_flag (negsuc n) = 0

abbrev pub event_found : Args → List ℕ → Lookup → Outcome State
event_found a s (keyword k rest) = parsed (set_flag (event_flag k) a, rest)
event_found a s (unknown rest) = parsed (a, rest)
event_found a s malformed = error error_400_param
event_found a s finished = parsed (a, s)
event_found a s behind_keyword = faulted keyword_overread
event_found a s behind_string = faulted string_overread

unfoldable pub take_event : Args → List ℕ → Outcome State
take_event a s = event_found a s (scan_find_keywords event_keywords scan_value s)

unfoldable pub take_numwant : Args → List ℕ → Outcome State
take_numwant a s = do
  (rest, word) ← scan_text s
  (left, n) ← scan_number word
  check (left == 0) error_400_param
  parsed (record a { numwant = to_numwant n }, rest)

unfoldable pub take_compact : Args → List ℕ → Outcome State
take_compact a s = do
  (rest, word) ← scan_text s
  (left, n) ← scan_number word
  check (left == 0) error_400_param
  check (not (is_zero n)) error_400_compact
  parsed (a, rest)

-- A value of exactly 20 characters.
unfoldable pub take_twenty : List ℕ → Outcome (List ℕ × List ℕ)
take_twenty s = do
  (rest, word) ← scan_text s
  check (length word == 20) error_400_param
  parsed (rest, word)

abbrev pub is_none : {A : Type 0} → Option A → Bool
is_none none = true
is_none (some a) = false

unfoldable pub take_info_hash : Args → List ℕ → Outcome State
take_info_hash a s = do
  check (is_none a.hash) error_400_param
  (rest, word) ← take_twenty s
  parsed (record a { hash = some word }, rest)

unfoldable pub take_peer_id : Args → List ℕ → Outcome State
take_peer_id a s = do (rest, word) ← take_twenty s; parsed (record a { peer_id = some word }, rest)

-- `scan_urlencoded_skipvalue` after an unknown keyword.
abbrev pub skipped : {A : Type 0} → A → Option (List ℕ) → Outcome (A × List ℕ)
skipped a none = faulted string_overread
skipped a (some rest) = parsed (a, rest)

-- `keywords_announce`
abbrev pub announce_keywords : List Keyword
announce_keywords =
    record { key = b'p' ∷ b'o' ∷ b'r' ∷ b't' ∷ []; value = pos 1 }
    ∷ record { key = b'l' ∷ b'e' ∷ b'f' ∷ b't' ∷ []; value = pos 2 }
    ∷ record { key = b'e' ∷ b'v' ∷ b'e' ∷ b'n' ∷ b't' ∷ []; value = pos 3 }
    ∷ record { key = b'n' ∷ b'u' ∷ b'm' ∷ b'w' ∷ b'a' ∷ b'n' ∷ b't' ∷ []; value = pos 4 }
    ∷ record { key = b'c' ∷ b'o' ∷ b'm' ∷ b'p' ∷ b'a' ∷ b'c' ∷ b't' ∷ []; value = pos 5 }
    ∷ record { key = b'c' ∷ b'o' ∷ b'm' ∷ b'p' ∷ b'a' ∷ b'c' ∷ b't' ∷ b'6' ∷ []; value = pos 5 }
    ∷ record {
      key = b'i' ∷ b'n' ∷ b'f' ∷ b'o' ∷ b'_' ∷ b'h' ∷ b'a' ∷ b's' ∷ b'h' ∷ [];
      value = pos 6;
    }
    ∷ record { key = b'p' ∷ b'e' ∷ b'e' ∷ b'r' ∷ b'_' ∷ b'i' ∷ b'd' ∷ []; value = pos 9 }
    ∷ []

abbrev pub take_argument : ℤ → Args → List ℕ → Outcome State
take_argument (negsuc k) = λ a s. parsed (a, s)
take_argument (pos k) =
    if k == 1
    then take_port
    else if k == 2
    then take_left
    else if k == 3
    then take_event
    else if k == 4
    then take_numwant
    else if k == 5
    then take_compact
    else if k == 6
    then take_info_hash
    else if k == 9
    then take_peer_id
    else λ a s. parsed (a, s)

-- A round of the loop: whether it goes on, and with what.
abbrev pub argument_found : Args → List ℕ → Lookup → Outcome (Bool × State)
argument_found a s (keyword k rest) = take_argument k a rest >>= λ t. parsed (true, t)
argument_found a s (unknown rest) = skipped a (skipvalue rest) >>= λ t. parsed (true, t)
argument_found a s malformed = error error_400_param
argument_found a s finished = parsed (false, (a, s))
argument_found a s behind_keyword = faulted keyword_overread
argument_found a s behind_string = faulted string_overread

unfoldable pub announce_round : Args → List ℕ → Outcome (Bool × State)
announce_round a s = argument_found a s (scan_find_keywords announce_keywords scan_param s)

abbrev pub go_on : {A : Type 0} → (A → List ℕ → Outcome A) → Bool × (A × List ℕ) → Outcome A
go_on f (true, (a, s)) = f a s
go_on f (false, (a, s)) = parsed a

-- The loop of `http_handle_announce`.
unfoldable pub announce_loop : ℕ → Args → List ℕ → Outcome Args
announce_loop zero a s = faulted no_fuel
announce_loop (suc fuel) a s = announce_round a s >>= go_on (announce_loop fuel)

unfoldable pub announce_args : List ℕ → Outcome Args
announce_args s = announce_loop (suc (length s)) no_args s
