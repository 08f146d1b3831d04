-- ===== src/Scan.antt =====
-- src/scan_urlencoded_query.c: decoding the parts of a request line. A string is the list of the
-- unsigned characters from the pointer on, up to and past its terminator, as far as the buffer goes.
pub mod Decode
pub mod Terminators
pub mod Bounds
pub mod Zeros
pub mod Keywords
pub mod Lookup
pub mod Number
use Prim.Native.Nat.{bit_or}
use bt_server.Prelude.{
  ℕ, zero, suc, ◌+◌, ◌-◌, ◌*◌, ◌%◌, List, [], ◌∷◌, ◌++◌, Bool, true, false, not, ◌&&◌, ◌||◌, Option,
  none, some, bit_and, ltb, leb, ◌==◌, if◌then◌else◌, length, get_elem?, get_or, replicate,
}

-- SCAN_PATH, SCAN_SEARCHPATH_PARAM, SCAN_SEARCHPATH_VALUE, SCAN_SEARCHPATH_TERMINATOR
abbrev pub scan_path : ℕ
scan_path = 1

abbrev pub scan_param : ℕ
scan_param = 2

abbrev pub scan_value : ℕ
scan_value = 4

abbrev pub scan_terminator : ℕ
scan_terminator = 8

-- The rows of `is_unreserved` for the characters 0x20 to 0x7f, by sixteens.
abbrev pub row_20 : List ℕ
row_20 = 8 ∷ 7 ∷ 8 ∷ 8 ∷ 8 ∷ 7 ∷ 0 ∷ 7 ∷ 7 ∷ 7 ∷ 7 ∷ 7 ∷ 7 ∷ 7 ∷ 7 ∷ 7 ∷ []

abbrev pub row_30 : List ℕ
row_30 = 7 ∷ 7 ∷ 7 ∷ 7 ∷ 7 ∷ 7 ∷ 7 ∷ 7 ∷ 7 ∷ 7 ∷ 7 ∷ 7 ∷ 7 ∷ 4 ∷ 7 ∷ 6 ∷ []

abbrev pub row_40 : List ℕ
row_40 = 4 ∷ 7 ∷ 7 ∷ 7 ∷ 7 ∷ 7 ∷ 7 ∷ 7 ∷ 7 ∷ 7 ∷ 7 ∷ 7 ∷ 7 ∷ 7 ∷ 7 ∷ 7 ∷ []

abbrev pub row_50 : List ℕ
row_50 = 7 ∷ 7 ∷ 7 ∷ 7 ∷ 7 ∷ 7 ∷ 7 ∷ 7 ∷ 7 ∷ 7 ∷ 7 ∷ 8 ∷ 8 ∷ 8 ∷ 8 ∷ 7 ∷ []

abbrev pub row_60 : List ℕ
row_60 = 8 ∷ 7 ∷ 7 ∷ 7 ∷ 7 ∷ 7 ∷ 7 ∷ 7 ∷ 7 ∷ 7 ∷ 7 ∷ 7 ∷ 7 ∷ 7 ∷ 7 ∷ 7 ∷ []

abbrev pub row_70 : List ℕ
row_70 = 7 ∷ 7 ∷ 7 ∷ 7 ∷ 7 ∷ 7 ∷ 7 ∷ 7 ∷ 7 ∷ 7 ∷ 7 ∷ 8 ∷ 8 ∷ 8 ∷ 7 ∷ 0 ∷ []

-- `is_unreserved`: below 0x20 only 0, newline and carriage return are set, and above 0x7f nothing.
unfoldable pub is_unreserved : List ℕ
is_unreserved =
    (8 ∷ replicate 9 0)
    ++ (8 ∷ 0 ∷ 0 ∷ 8 ∷ replicate 18 0)
    ++ row_20
    ++ row_30
    ++ row_40
    ++ row_50
    ++ row_60
    ++ row_70
    ++ replicate 128 0

-- `is_unreserved[ c ] & flags`
unfoldable pub continues : ℕ → ℕ → Bool
unfolding is_unreserved
continues flags c = not (bit_and (get_or is_unreserved c 0) flags == 0)

-- `fromhex`, on `unsigned char`
unfoldable pub fromhex : ℕ → ℕ
fromhex c =
    let x = (c + 256 - 48) % 256 in
    if leb x 9
    then x
    else let y = (bit_and x 0xdf + 256 - 17) % 256 in if ltb y 6 then y + 10 else 0xff

-- What a scan returns: the next position and the decoded characters, or -1, or -2; `overrun` is a
-- read behind the buffer.
pub data Scan : Type 0 where
  scanned : List ℕ → List ℕ → Scan
  failed : Scan
  ended : Scan
  overrun : Scan

abbrev pub push : ℕ → Scan → Scan
push c (scanned rest decoded) = scanned rest (c ∷ decoded)
push c failed = failed
push c ended = ended
push c overrun = overrun

-- The `switch` on the character that stops the loop; `at_start` tells whether nothing was decoded.
unfoldable pub stop : ℕ → Bool → ℕ → List ℕ → Scan
stop flags at_start c s =
    if c == 0 || c == b'\r' || c == b'\n' || c == b' '
    then if at_start then ended else scanned (c ∷ s) []
    else if c == b'?'
    then if flags == scan_path then scanned s [] else failed
    else if c == b'='
    then if flags == scan_param then scanned s [] else failed
    else if c == b'&'
    then if flags == scan_path
      then failed
      else if flags == scan_param
      then scanned (c ∷ s) []
      else scanned s []
    else failed

pub data Escape : Type 0 where
  decodes : ℕ → Escape
  bad_escape : Escape

-- The two characters behind a '%'; the second is not read where the first is no hex digit.
unfoldable pub unescape : ℕ → ℕ → Escape
unescape h l =
    if fromhex h == 0xff
    then bad_escape
    else if fromhex l == 0xff
    then bad_escape
    else decodes (bit_or (fromhex l) (fromhex h * 16))

-- The loop of `scan_urlencoded_query`. The writes go to positions that have been read, also where the
-- string is decoded in place.
unfoldable pub scan_loop : ℕ → Bool → List ℕ → Scan
scan_loop flags at_start [] = overrun
scan_loop flags at_start (c ∷ []) = if continues flags c then overrun else stop flags at_start c []
scan_loop flags at_start (c ∷ h ∷ []) = elim (continues flags c) [
  | true ↦ elim (c == b'%') [
    | true ↦ if fromhex h == 0xff then failed else overrun
    | false ↦ push c (scan_loop flags false (h ∷ []))
  ]
  | false ↦ stop flags at_start c (h ∷ [])
]
scan_loop flags at_start (c ∷ h ∷ l ∷ s) = elim (continues flags c) [
  | true ↦ elim (c == b'%') [
    | true ↦ elim (unescape h l) [
      | decodes b ↦ push b (scan_loop flags false s)
      | bad_escape ↦ failed
    ]
    | false ↦ push c (scan_loop flags false (h ∷ l ∷ s))
  ]
  | false ↦ stop flags at_start c (h ∷ l ∷ s)
]

-- `scan_urlencoded_query`
unfoldable pub scan_urlencoded_query : ℕ → List ℕ → Scan
scan_urlencoded_query flags s = scan_loop flags true s

-- `scan_urlencoded_skipvalue`: the next position, or `none` for a read behind the buffer
unfoldable pub skipvalue : List ℕ → Option (List ℕ)
skipvalue [] = none
skipvalue (c ∷ s) =
    let rest = skipvalue s in
    if continues scan_value c
    then rest
    else if continues scan_terminator c
    then some (c ∷ s)
    else some s
