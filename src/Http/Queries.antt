-- ===== src/Http/Queries.antt =====
-- Scanning the query of a request, which goes on to a newline: where it stands, and where a decoded 0
-- comes from.
use bt_server.Prelude.{ℕ, ◌≡◌, refl, List, ◌∷◌, Bool, true}
use bt_server.Scan.{Scan, scanned, failed, ended, overrun, scan_urlencoded_query, scan_loop}
use bt_server.Scan.Decode.{IsFlag}
use bt_server.Scan.Bounds.{HasEnd, IsInside, InPlace, scan_urlencoded_query-IsInside}
use bt_server.Scan.Zeros.{has_zero, escapes_zero, escapes_later, Tells, scan_loop-Tells}
use bt_server.Http.{Fault, keyword_overread, string_overread, int_overflow, no_fuel}

-- The request from the scanned part on, and whether numbers are read in it.
pub record Query : Type 0 where
  pub whole : List ℕ
  pub numbers : Bool

abbrev pub query : List ℕ → Bool → Query
query s numbers = record { whole = s; numbers = numbers }

module _ (q : Query) where
  -- The cause of a fault: an escaped 0 in the request for a read behind a keyword, and for an `int`
  -- that overflows a request in which numbers are read. The others have none.
  abbrev pub Cause : Fault → Type 0
  Cause keyword_overread = escapes_zero q.whole ≡ true
  Cause int_overflow = q.numbers ≡ true
  Cause string_overread = ⊥
  Cause no_fuel = ⊥

  -- A newline is ahead, and an escaped 0 that is ahead is one in the request.
  abbrev pub Stands : List ℕ → Type 0
  Stands s = HasEnd b'\n' s × (escapes_zero s ≡ true → escapes_zero q.whole ≡ true)

  pub Stands-next : (c : ℕ) (s : List ℕ) → HasEnd b'\n' s → Stands (c ∷ s) → Stands s
  Stands-next c s h k = (h, λ e. k.1 (escapes_later c s e))

  abbrev pub Within : Scan → Type 0
  Within (scanned rest decoded) =
      Stands rest × (has_zero decoded ≡ true → escapes_zero q.whole ≡ true)
  Within failed = Unit
  Within ended = Unit
  Within overrun = ⊥

  told-Within : (s : List ℕ) (r : Scan) → Stands s → IsInside b'\n' r → Tells s r → Within r
  told-Within s (scanned rest decoded) h k t = ((k, λ e. h.1 (t.0 e)), λ e. h.1 (t.1 e))
  told-Within s failed h k t = tt
  told-Within s ended h k t = tt
  told-Within s overrun h k t = k

  pub scan_urlencoded_query-Within :
      (flags : ℕ) (s : List ℕ)
      → IsFlag flags
      → Stands s
      → Within (scan_urlencoded_query flags s) × InPlace s (scan_urlencoded_query flags s)
  unfolding scan_urlencoded_query
  scan_urlencoded_query-Within flags s f h =
      let r = scan_urlencoded_query-IsInside b'\n' refl flags s f h.0 in
      (told-Within s (scan_loop flags true s) h r.0 (scan_loop-Tells flags true s f), r.1)
