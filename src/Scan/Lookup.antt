-- ===== src/Scan/Lookup.antt =====
-- `scan_find_keywords` of src/scan_urlencoded_query.c finds the keyword that is the decoded word, but a
-- decoded 0 leads it out of the table.
use bt_server.Prelude.{
  ℕ, ◌≡◌, ◌≢◌, refl, ap, List, [], ◌∷◌, ◌++◌, true, false, none, some, ◌==◌, arith, ◌⊎◌, inl, inr,
  Bool-cases, ◌∙◌, sym, false,
}
use bt_server.Prelude.All.{All}
use bt_server.Scan.Zeros.{has_zero}
use bt_server.Scan.{scanned, scan_urlencoded_query}
use bt_server.Scan.Keywords.{
  Keyword, Lookup, keyword, unknown, malformed, finished, behind_keyword, behind_string,
  strncmp_equal, match_keyword, find_keyword, scan_find_keywords,
}

-- A word or a key without a 0 in it.
abbrev pub HasNoNul : List ℕ → Type 0
HasNoNul = All (λ c. c ≢ 0)

match_keyword-cons :
    (x y : ℕ) (key word : List ℕ)
    → x ≡ y
    → x ≢ 0
    → match_keyword (x ∷ key) (y ∷ word) ≡ match_keyword key word
unfolding match_keyword strncmp_equal
match_keyword-cons x y key word e nz = ground arith

match_keyword-other :
    (x y : ℕ) (key word : List ℕ) → x ≢ y → match_keyword (x ∷ key) (y ∷ word) ≡ some false
unfolding match_keyword strncmp_equal
match_keyword-other x y key word ne = ground arith

match_keyword-short : (y : ℕ) (word : List ℕ) → y ≢ 0 → match_keyword [] (y ∷ word) ≡ some false
unfolding match_keyword strncmp_equal
match_keyword-short y word nz = ground arith

match_keyword-long : (x : ℕ) (key : List ℕ) → x ≢ 0 → match_keyword (x ∷ key) [] ≡ some false
unfolding match_keyword strncmp_equal
match_keyword-long x key nz = ground arith

match_keyword-whole : match_keyword [] [] ≡ some true
unfolding match_keyword strncmp_equal
match_keyword-whole = refl

-- A word without a 0 is compared inside the keyword.
pub match_keyword_compares :
    (key word : List ℕ) → has_zero word ≡ false → match_keyword key word ≢ none
unfolding match_keyword strncmp_equal
match_keyword_compares [] [] h = λ q. cc
match_keyword_compares [] (y ∷ word) h =
    let nz : y ≢ 0 = λ e. ground (arith, h) in rw (match_keyword-short y word nz) (λ q. cc)
match_keyword_compares (x ∷ key) [] h = λ q. cc
match_keyword_compares (x ∷ key) (y ∷ word) h =
    let nz : y ≢ 0 = λ e. ground (arith, h) in
    let rest : has_zero word ≡ false = ground (arith, h) in
    elim (Bool-cases (x == y)) [
      | inl same ↦
          let e : x ≡ y = ground (arith, same) in
          rw (match_keyword-cons x y key word e (λ k. nz (sym e ∙ k)))
            (match_keyword_compares key word rest)
      | inr other ↦
          let ne : x ≢ y = λ e. ground (arith, other) in
          rw (match_keyword-other x y key word ne) (λ q. cc)
    ]

-- The comparison tells whether the word is the key.
abbrev Decided : List ℕ → List ℕ → Type 0
Decided key word =
    ((match_keyword key word ≡ some true) × (key ≡ word))
    ⊎ ((match_keyword key word ≡ some false) × (key ≢ word))

match_keyword-Decided : (key word : List ℕ) → HasNoNul key → HasNoNul word → Decided key word
match_keyword-Decided [] [] h g = inl (match_keyword-whole, refl)
match_keyword-Decided [] (y ∷ word) h g = inr (match_keyword-short y word g.0, λ e. cc)
match_keyword-Decided (x ∷ key) [] h g = inr (match_keyword-long x key h.0, λ e. cc)
match_keyword-Decided (x ∷ key) (y ∷ word) h g = elim (Bool-cases (x == y)) [
  | inl same ↦
      let e : x ≡ y = ground arith in
      rw (match_keyword-cons x y key word e h.0) (elim (match_keyword-Decided key word h.1 g.1) [
        | inl (m, k) ↦ inl (m, cc)
        | inr (m, k) ↦ inr (m, λ q. k (cc))
      ])
  | inr other ↦
      let ne : x ≢ y = λ e. ground arith in inr (match_keyword-other x y key word ne, λ q. ne (cc))
]

-- The first keyword with the key that is the word, or none has it.
abbrev pub Finds : List Keyword → List ℕ → List ℕ → Lookup → Type 0
Finds ks rest word (keyword v next) =
    (before : List Keyword) × (after : List Keyword) × (k : Keyword) × (ks ≡ before ++ (k ∷ after))
    × All (λ j. j.key ≢ word) before
    × (k.key ≡ word)
    × (k.value ≡ v)
    × (next ≡ rest)
Finds ks rest word (unknown next) = All (λ j. j.key ≢ word) ks × (next ≡ rest)
Finds ks rest word malformed = ⊥
Finds ks rest word finished = ⊥
Finds ks rest word behind_keyword = ⊥
Finds ks rest word behind_string = ⊥

later-Finds :
    (k : Keyword) (ks : List Keyword) (rest word : List ℕ) (r : Lookup)
    → k.key ≢ word
    → Finds ks rest word r
    → Finds (k ∷ ks) rest word r
later-Finds k ks rest word (keyword v next) ne (before, after, j, e, others, found, v_eq, n_eq) =
    (k ∷ before, after, j, ap (λ l. k ∷ l) e, (ne, others), found, v_eq, n_eq)
later-Finds k ks rest word (unknown next) ne (others, same) = ((ne, others), same)
later-Finds k ks rest word malformed ne h = h
later-Finds k ks rest word finished ne h = h
later-Finds k ks rest word behind_keyword ne h = h
later-Finds k ks rest word behind_string ne h = h

find_keyword-hit :
    (k : Keyword) (ks : List Keyword) (rest word : List ℕ)
    → match_keyword k.key word ≡ some true
    → find_keyword (k ∷ ks) rest word ≡ keyword (k.value) rest
unfolding find_keyword
find_keyword-hit k ks rest word e = ground arith

find_keyword-miss :
    (k : Keyword) (ks : List Keyword) (rest word : List ℕ)
    → match_keyword k.key word ≡ some false
    → find_keyword (k ∷ ks) rest word ≡ find_keyword ks rest word
unfolding find_keyword
find_keyword-miss k ks rest word e = ground arith

find_keyword-out :
    (k : Keyword) (ks : List Keyword) (rest word : List ℕ)
    → match_keyword k.key word ≡ none
    → find_keyword (k ∷ ks) rest word ≡ behind_keyword
unfolding find_keyword
find_keyword-out k ks rest word e = ground arith

find_keyword-Finds :
    (ks : List Keyword) (rest word : List ℕ)
    → All (λ k. HasNoNul k.key) ks
    → HasNoNul word
    → Finds ks rest word (find_keyword ks rest word)
unfolding find_keyword
find_keyword-Finds [] rest word h g = (tt, refl)
find_keyword-Finds (k ∷ ks) rest word h g = elim (match_keyword-Decided k.key word h.0 g) [
  | inl (m, e) ↦ rw (find_keyword-hit k ks rest word m) ([], ks, k, refl, tt, e, refl, refl)
  | inr (m, ne) ↦ rw (find_keyword-miss k ks rest word m) (
      later-Finds k ks rest word (find_keyword ks rest word) ne
        (find_keyword-Finds ks rest word h.1 g))
]

nul_read : (more : List ℕ) → match_keyword [] (0 ∷ more) ≡ none
unfolding match_keyword strncmp_equal
nul_read more = ground arith

ends_at-nul : (key more : List ℕ) → HasNoNul key → match_keyword key (key ++ (0 ∷ more)) ≡ none
ends_at-nul [] more h = nul_read more
ends_at-nul (x ∷ key) more h =
    match_keyword-cons x x key (key ++ (0 ∷ more)) refl h.0 ∙ ends_at-nul key more h.1

scan_find_keywords-word :
    (ks : List Keyword) (flags : ℕ) (s rest word : List ℕ)
    → word ≢ []
    → scan_urlencoded_query flags s ≡ scanned rest word
    → scan_find_keywords ks flags s ≡ find_keyword ks rest word
unfolding scan_find_keywords
scan_find_keywords-word ks flags s rest [] ne e = absurd (ne refl)
scan_find_keywords-word ks flags s rest (b ∷ bs) ne e = rw (e, scan_find_keywords) refl

-- What the lookup of a word comes to: the value of a keyword where no 0 is in the word, and a read
-- behind the first keyword where the word is that keyword, a 0 and more.
abbrev pub LooksUp : Keyword → List Keyword → List ℕ → List ℕ → Lookup → Type 0
LooksUp k ks rest word r =
    (HasNoNul word × Finds (k ∷ ks) rest word r)
    ⊎ (((more : List ℕ) × (word ≡ k.key ++ (0 ∷ more))) × (r ≡ behind_keyword))

-- Where the keys have no 0 in them, and the string decodes to a word of one or more characters: without a
-- 0 in the word, the lookup reads nothing behind a keyword, and returns the value of the first keyword
-- that is the word, or -3 where none is; a word that is the first keyword, a 0 and any further characters
-- makes it read behind that keyword's terminator.
pub scan_find_keywords-LooksUp :
    (k : Keyword) (ks : List Keyword) (flags : ℕ) (s rest word : List ℕ)
    → All (λ k. HasNoNul k.key) (k ∷ ks)
    → scan_urlencoded_query flags s ≡ scanned rest word
    → word ≢ []
    → HasNoNul word ⊎ ((more : List ℕ) × (word ≡ k.key ++ (0 ∷ more)))
    → LooksUp k ks rest word (scan_find_keywords (k ∷ ks) flags s)
scan_find_keywords-LooksUp k ks flags s rest word h e ne (inl g) =
    rw (scan_find_keywords-word (k ∷ ks) flags s rest word ne e)
      (inl (g, find_keyword-Finds (k ∷ ks) rest word h g))
scan_find_keywords-LooksUp k ks flags s rest word h e ne (inr (more, same)) = inr (
  (more, same),
  scan_find_keywords-word (k ∷ ks) flags s rest word ne e
      ∙ ap (λ w. find_keyword (k ∷ ks) rest w) same
      ∙ find_keyword-out k ks rest (k.key ++ (0 ∷ more)) (ends_at-nul k.key more h.0),
)
