-- ===== src/Http/Lookups.antt =====
-- Where a lookup in a table of keywords leaves the position in a request with a newline ahead.
use bt_server.Prelude.{
  ℕ, ◌+◌, ◌≤◌, ◌<◌, ◌≡◌, refl, List, [], ◌∷◌, true, false, arith, length, ◌⊎◌, inl, inr,
  Option-cases, Bool-cases,
}
use bt_server.Scan.{Scan, scanned, failed, ended, overrun, scan_urlencoded_query, scan_param}
use bt_server.Scan.Bounds.{InPlace}
use bt_server.Scan.Zeros.{has_zero, escapes_zero}
use bt_server.Scan.Lookup.{match_keyword_compares}
use bt_server.Http.Queries.{Query, Stands, Within, scan_urlencoded_query-Within}
use bt_server.Scan.Keywords.{
  Keyword, Lookup, keyword, unknown, malformed, finished, behind_keyword, behind_string,
  find_keyword, match_keyword, looked_up, scan_find_keywords,
}
use bt_server.Http.Ends.{Advances, scan_loop-Advances}

module _ (q : Query) where
  -- A lookup that has decoded a word keeps the position behind it.
  abbrev AtRest : List ℕ → Lookup → Type 0
  AtRest rest (keyword k next) = next ≡ rest
  AtRest rest (unknown next) = next ≡ rest
  AtRest rest malformed = ⊥
  AtRest rest finished = ⊥
  AtRest rest behind_keyword = escapes_zero q.whole ≡ true
  AtRest rest behind_string = ⊥

  find_keyword-AtRest :
      (ks : List Keyword) (rest word : List ℕ)
      → (has_zero word ≡ true → escapes_zero q.whole ≡ true)
      → AtRest rest (find_keyword ks rest word)
  unfolding find_keyword
  find_keyword-AtRest [] rest word zero = refl
  find_keyword-AtRest (k ∷ ks) rest word zero = elim (Option-cases (match_keyword k.key word)) [
    | inl e ↦
        rw (e, find_keyword, AtRest)
          (elim (Bool-cases (has_zero word)) [
            | inl nul ↦ zero nul
            | inr none_there ↦ absurd (match_keyword_compares k.key word none_there e)
          ])
    | inr (true, e) ↦ rw (e, find_keyword, AtRest) refl
    | inr (false, e) ↦ rw (e, find_keyword, AtRest) (find_keyword-AtRest ks rest word zero)
  ]

  -- Where a lookup leaves the position: `less` characters further on at least.
  abbrev pub Looks : List ℕ → Lookup → Type 0
  Looks s (keyword k rest) = Stands q rest × (length rest + 1 ≤ length s)
  Looks s (unknown rest) =
      Stands q rest
      × (length rest ≤ length s)
      × ((length rest < length s) ⊎ ((t : List ℕ) × (rest ≡ b'&' ∷ t)))
  Looks s malformed = Unit
  Looks s finished = Unit
  Looks s behind_keyword = escapes_zero q.whole ≡ true
  Looks s behind_string = ⊥

  AtRest-Looks :
      (s rest : List ℕ) (r : Lookup)
      → Stands q rest
      → length rest + 1 ≤ length s
      → AtRest rest r
      → Looks s r
  AtRest-Looks s rest (keyword k next) h le e = rw e (h, le)
  AtRest-Looks s rest (unknown next) h le e = rw e (h, omega arith, inl (omega arith))
  AtRest-Looks s rest malformed h le e = tt
  AtRest-Looks s rest finished h le e = tt
  AtRest-Looks s rest behind_keyword h le e = e
  AtRest-Looks s rest behind_string h le e = e

  looked_up-Looks :
      (ks : List Keyword) (s : List ℕ) (r : Scan)
      → Within q r
      → InPlace s r
      → Advances s r
      → Looks s (looked_up ks r)
  looked_up-Looks ks s failed h k m = tt
  looked_up-Looks ks s ended h k m = tt
  looked_up-Looks ks s overrun h k m = h
  looked_up-Looks ks s (scanned rest []) h k m = (h.0, omega arith, m)
  looked_up-Looks ks s (scanned rest (b ∷ bs)) h k m =
      AtRest-Looks s rest (find_keyword ks rest (b ∷ bs)) h.0 (omega arith)
        (find_keyword-AtRest ks rest (b ∷ bs) h.1)

  pub scan_find_keywords-Looks :
      (ks : List Keyword) (s : List ℕ) → Stands q s → Looks s (scan_find_keywords ks scan_param s)
  unfolding scan_find_keywords scan_urlencoded_query
  scan_find_keywords-Looks ks s h =
      let r = scan_urlencoded_query-Within q scan_param s (inr (inl refl)) h in
      looked_up-Looks ks s (scan_urlencoded_query scan_param s) r.0 r.1 (scan_loop-Advances s)

  -- The same for a value, which may be empty.
  abbrev pub ValueLooks : List ℕ → Lookup → Type 0
  ValueLooks s (keyword k rest) = Stands q rest × (length rest ≤ length s)
  ValueLooks s (unknown rest) = Stands q rest × (length rest ≤ length s)
  ValueLooks s malformed = Unit
  ValueLooks s finished = Unit
  ValueLooks s behind_keyword = escapes_zero q.whole ≡ true
  ValueLooks s behind_string = ⊥

  AtRest-ValueLooks :
      (s rest : List ℕ) (r : Lookup)
      → Stands q rest
      → length rest ≤ length s
      → AtRest rest r
      → ValueLooks s r
  AtRest-ValueLooks s rest (keyword k next) h le e = rw e (h, le)
  AtRest-ValueLooks s rest (unknown next) h le e = rw e (h, le)
  AtRest-ValueLooks s rest malformed h le e = tt
  AtRest-ValueLooks s rest finished h le e = tt
  AtRest-ValueLooks s rest behind_keyword h le e = e
  AtRest-ValueLooks s rest behind_string h le e = e

  pub looked_up-ValueLooks :
      (ks : List Keyword) (s : List ℕ) (r : Scan)
      → Within q r
      → InPlace s r
      → ValueLooks s (looked_up ks r)
  looked_up-ValueLooks ks s failed h k = tt
  looked_up-ValueLooks ks s ended h k = tt
  looked_up-ValueLooks ks s overrun h k = h
  looked_up-ValueLooks ks s (scanned rest []) h k = (h.0, omega arith)
  looked_up-ValueLooks ks s (scanned rest (b ∷ bs)) h k =
      AtRest-ValueLooks s rest (find_keyword ks rest (b ∷ bs)) h.0 (omega arith)
        (find_keyword-AtRest ks rest (b ∷ bs) h.1)
