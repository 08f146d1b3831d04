-- ===== src/Http/Tables.antt =====
-- What is found in the tables of keywords of `http_handle_stats`, and where the position is then.

use bt_server.Prelude.{
  ℕ, zero, suc, ◌≤◌, ◌≡◌, refl, List, [], ◌∷◌, Bool, true, false, ◌&&◌, arith, length, inl, inr,
  Option-cases,
}
use bt_server.Prelude.Int.{ℤ, pos, negsuc}
use bt_server.Scan.{Scan, scanned, failed, ended, overrun, scan_urlencoded_query, scan_value}
use bt_server.Http.Queries.{Query, Stands, scan_urlencoded_query-Within}
use bt_server.Scan.Keywords.{
  Keyword, Lookup, keyword, unknown, malformed, finished, behind_keyword, behind_string,
  match_keyword, find_keyword, looked_up, scan_find_keywords,
}
use bt_server.Http.Ends.{Ends}
use bt_server.Http.Lookups.{ValueLooks, looked_up-ValueLooks}
use bt_server.Http.Stats.{above_zero, take_value}

module _ (q : Query) where
  -- The values of a table that pass a test.
  module _ (test : ℕ → Bool) where
    abbrev pub passes : ℤ → Bool
    passes (pos n) = test n
    passes (negsuc n) = true

    abbrev pub values_pass : List Keyword → Bool
    values_pass [] = true
    values_pass (k ∷ ks) = passes k.value && values_pass ks

    abbrev pub Found : Lookup → Type 0
    Found (keyword k rest) = passes k ≡ true
    Found (unknown rest) = Unit
    Found malformed = Unit
    Found finished = Unit
    Found behind_keyword = Unit
    Found behind_string = Unit

    first_passes :
        (k : Keyword) (ks : List Keyword) → values_pass (k ∷ ks) ≡ true → passes k.value ≡ true
    first_passes k ks h = ground (arith, h)

    rest_passes :
        (k : Keyword) (ks : List Keyword) → values_pass (k ∷ ks) ≡ true → values_pass ks ≡ true
    rest_passes k ks h = ground (arith, h)

    find_keyword-Found :
        (ks : List Keyword) (rest word : List ℕ)
        → values_pass ks ≡ true
        → Found (find_keyword ks rest word)
    unfolding find_keyword
    find_keyword-Found [] rest word h = tt
    find_keyword-Found (k ∷ ks) rest word h = elim (Option-cases (match_keyword k.key word)) [
      | inl e ↦ rw (e, find_keyword, Found) tt
      | inr (true, e) ↦ rw (e, find_keyword, Found) (first_passes k ks h)
      | inr (false, e) ↦
          rw (e, find_keyword, Found) (find_keyword-Found ks rest word (rest_passes k ks h))
    ]

    looked_up-Found :
        (ks : List Keyword) (r : Scan) → values_pass ks ≡ true → Found (looked_up ks r)
    looked_up-Found ks failed h = tt
    looked_up-Found ks ended h = tt
    looked_up-Found ks overrun h = tt
    looked_up-Found ks (scanned rest []) h = tt
    looked_up-Found ks (scanned rest (b ∷ bs)) h = find_keyword-Found ks rest (b ∷ bs) h

    -- The value of a parameter passes, and the next position is not further back.
    abbrev pub ValueIn : ℕ → ℕ × List ℕ → Type 0
    ValueIn n (v, rest) = (test v ≡ true) × Stands q rest × (length rest ≤ n)

    above_zero-Ends :
        (s : List ℕ) (r : Lookup)
        → Found r
        → ValueLooks q s r
        → Ends q (ValueIn (length s)) (above_zero r)
    above_zero-Ends s (keyword (pos zero) rest) h l = tt
    above_zero-Ends s (keyword (pos (suc n)) rest) h l = (h, l.0, l.1)
    above_zero-Ends s (keyword (negsuc n) rest) h l = tt
    above_zero-Ends s (unknown rest) h l = tt
    above_zero-Ends s malformed h l = tt
    above_zero-Ends s finished h l = tt
    above_zero-Ends s behind_keyword h l = l
    above_zero-Ends s behind_string h l = absurd l

    pub take_value-Ends :
        (ks : List Keyword) (s : List ℕ)
        → values_pass ks ≡ true
        → Stands q s
        → Ends q (ValueIn (length s)) (take_value ks s)
    unfolding take_value scan_find_keywords
    take_value-Ends ks s p h =
        let r = scan_urlencoded_query-Within q scan_value s (inr (inr refl)) h in
        let scan = scan_urlencoded_query scan_value s in
        above_zero-Ends s (looked_up ks scan) (looked_up-Found ks scan p)
          (looked_up-ValueLooks q ks s scan r.0 r.1)
