-- ===== src/SavedState.antt =====
-- `load_state` of src/opentracker.c: the torrents of a file that a full scrape with the mode
-- TASK_FULLSCRAPE_TRACKERSTATE has left. `scan_fromhex` and `scan_ulonglong` of libowfat are arguments:
-- the first is `none` where it answers -1, and the second gives the number of the characters it took
-- and what they say.
pub mod Lines
pub mod Texts
pub mod RoundTrip
pub mod Loading
use bt_server.Prelude.{
  ℕ, zero, suc, ◌+◌, ◌-◌, ◌*◌, ◌%◌, ◌^◌, List, [], ◌∷◌, ◌++◌, Bool, true, false, Option, none, some,
  ltb, ◌==◌, if◌then◌else◌, length, get_or, drop,
}
use bt_server.Prelude.Int.{ℤ, pos, negsuc}
use bt_server.Prelude.Partial.{◌>>=◌}
use bt_server.Http.Handlers.{big_endian}
use bt_server.Tracker.{Tracker, Env, add_torrent_from_saved_state}

-- The size of `inbuf`.
abbrev pub inbuf_size : ℕ
inbuf_size = 512

-- What `fgets` takes of a file: no more than so many characters, and none behind the end of a line.
unfoldable pub line_of : ℕ → List ℕ → List ℕ × List ℕ
line_of zero file = ([], file)
line_of (suc k) [] = ([], [])
line_of (suc k) (c ∷ file) =
    let rest = line_of k file in if c == 10 then (c ∷ [], file) else (c ∷ rest.0, rest.1)

-- A line in `inbuf`, with a 0 behind it; the rest of `inbuf` stays.
abbrev pub in_buffer : List ℕ → List ℕ → List ℕ
in_buffer line inbuf = line ++ (0 ∷ drop (length line + 1) inbuf)

-- `16 * scan_fromhex( … ) + scan_fromhex( … )`, `none` where that is negative.
abbrev pub eger : Option ℕ → Option ℕ → Option ℕ
eger none low = none
eger (some h) (some l) = some (16 * h + l)
eger (some h) none = if h == 0 then none else some (16 * h - 1)

abbrev pub byte_or : ℕ → Option ℕ → ℕ
byte_or old none = old
byte_or old (some n) = n % 256

-- An `unsigned long long` as an `ot_time`.
abbrev pub as_time : ℕ → ℤ
as_time n = if ltb n (2 ^ 63) then pos n else negsuc (2 ^ 64 - 1 - n)

module _ (scan_fromhex : ℕ → Option ℕ) where
  -- The loop over the bytes of a hash: its `continue` goes on with the next byte, so that it always
  -- ends behind the last one.
  unfoldable pub scan_hash : List ℕ → List ℕ → List ℕ
  scan_hash (old ∷ infohash) (h ∷ l ∷ inbuf) =
      byte_or old (eger (scan_fromhex h) (scan_fromhex l)) ∷ scan_hash infohash inbuf
  scan_hash infohash inbuf = infohash

module _ (scan_ulonglong : List ℕ → ℕ × ℕ) where
  -- The number behind a colon, and the place behind the number.
  unfoldable pub scan_field : List ℕ → ℕ → Option (ℕ × ℕ)
  scan_field inbuf i =
      if get_or inbuf i 0 == 58
      then (let n = scan_ulonglong (drop (suc i) inbuf) in
          if n.0 == 0 then none else some (i + 1 + n.0, n.1))
      else none

  -- `base` and `downcount` of the line in `inbuf`, from behind its hash on.
  unfoldable pub scan_counts : List ℕ → Option (ℕ × ℕ)
  scan_counts inbuf = do
    (i, base) ← scan_field inbuf 40
    (j, downcount) ← scan_field inbuf i
    some (base, downcount)

-- `envs n` is what the code meets outside at the line n.
module _ (envs : ℕ → Env) where
  abbrev pub restore : ℕ → List ℕ → Option (ℕ × ℕ) → Tracker → Option Tracker
  restore n infohash none s = some s
  restore n infohash (some (base, downcount)) s = do
    (t, u) ←
        add_torrent_from_saved_state (envs n) (big_endian infohash 0) (as_time base) downcount s
    some t

module _ (scan_fromhex : ℕ → Option ℕ) (scan_ulonglong : List ℕ → ℕ × ℕ) (envs : ℕ → Env) where
  -- The loop over the lines, the number of the first one given; every round takes a character, and
  -- the fuel is one more than these.
  unfoldable pub load_lines : ℕ → ℕ → List ℕ → List ℕ → List ℕ → Tracker → Option Tracker
  load_lines zero n infohash inbuf file s = none
  load_lines (suc fuel) n infohash inbuf [] s = some s
  load_lines (suc fuel) n infohash inbuf (c ∷ file) s =
      let line = line_of (inbuf_size - 1) (c ∷ file) in
      let buffer = in_buffer line.0 inbuf in
      let hash = scan_hash scan_fromhex infohash buffer in
      do
        t ← restore envs n hash (scan_counts scan_ulonglong buffer) s
        load_lines fuel (n + 1) hash buffer line.1 t

  -- `load_state` on a file that can be opened; `infohash` and `inbuf` are what the memory holds.
  unfoldable pub load_state : List ℕ → List ℕ → List ℕ → Tracker → Option Tracker
  load_state infohash inbuf file = load_lines (suc (length file)) 0 infohash inbuf file
