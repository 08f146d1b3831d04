-- ===== src/Scan/Keywords.antt =====
-- `scan_find_keywords` of src/scan_urlencoded_query.c: the decoded word is looked up in a table of
-- keywords, C strings with a 0 behind their characters.
use bt_server.Prelude.{
  ℕ, zero, suc, List, [], ◌∷◌, ◌++◌, Bool, true, false, Option, none, some, ◌==◌, if◌then◌else◌,
  length, get_elem?,
}
use bt_server.Prelude.Int.{ℤ}
use bt_server.Scan.{Scan, scanned, failed, ended, overrun, scan_urlencoded_query}

-- `ot_keywords`, the key without its terminator
pub record Keyword : Type 0 where
  pub key : List ℕ
  pub value : ℤ

-- What a lookup returns: the value of a keyword, or -3, each with the next position; or -1, or -2.
-- Last, a read behind a keyword, and a read behind the string.
pub data Lookup : Type 0 where
  keyword : ℤ → List ℕ → Lookup
  unknown : List ℕ → Lookup
  malformed : Lookup
  finished : Lookup
  behind_keyword : Lookup
  behind_string : Lookup

-- `!strncmp( a, b, n )`; `none` is a read behind the end of `a` or `b`.
unfoldable pub strncmp_equal : ℕ → List ℕ → List ℕ → Option Bool
strncmp_equal zero a b = some true
strncmp_equal (suc n) [] b = none
strncmp_equal (suc n) (x ∷ a) [] = none
strncmp_equal (suc n) (x ∷ a) (y ∷ b) =
    let rest = strncmp_equal n a b in
    if x == y then if x == 0 then some true else rest else some false

abbrev ends_at : List ℕ → ℕ → Option Bool
ends_at a n = elim (get_elem? a n) [ none ↦ none | some c ↦ some (c == 0) ]

-- `!strncmp( keywords->key, deststring, match_length ) && !keywords->key[match_length]`
unfoldable pub match_keyword : List ℕ → List ℕ → Option Bool
match_keyword key word =
    let stored = key ++ (0 ∷ []) in
    elim (strncmp_equal (length word) stored word) [
      | none ↦ none
      | some false ↦ some false
      | some true ↦ ends_at stored (length word)
    ]

-- The loop over the keywords.
unfoldable pub find_keyword : List Keyword → List ℕ → List ℕ → Lookup
find_keyword [] rest word = unknown rest
find_keyword (k ∷ ks) rest word =
    let later = find_keyword ks rest word in
    elim (match_keyword k.key word) [
      | none ↦ behind_keyword
      | some true ↦ keyword (k.value) rest
      | some false ↦ later
    ]

abbrev pub looked_up : List Keyword → Scan → Lookup
looked_up ks failed = malformed
looked_up ks ended = finished
looked_up ks overrun = behind_string
looked_up ks (scanned rest []) = unknown rest
looked_up ks (scanned rest (b ∷ bs)) = find_keyword ks rest (b ∷ bs)

unfoldable pub scan_find_keywords : List Keyword → ℕ → List ℕ → Lookup
scan_find_keywords ks flags s = looked_up ks (scan_urlencoded_query flags s)
