-- ===== src/Http/Serving.antt =====
-- The loop of `http_handle_scrape` ends, with hashes of 20 characters.
use bt_server.Prelude.{
  ℕ, zero, suc, ◌+◌, ◌*◌, ◌≤◌, ◌<◌, ◌≡◌, ap, ◌∙◌, List, [], ◌∷◌, ◌++◌, Bool, true, false, Option,
  none, some, arith, length, length-append, inl, inr, take,
}
use mathlib.Core.Path.{subst}
use bt_server.Prelude.All.{All}
use bt_server.Scan.{skipvalue, scan_param}
use bt_server.Http.Queries.{Query, Stands}
use bt_server.Scan.Keywords.{
  Lookup, keyword, unknown, malformed, finished, behind_keyword, behind_string, scan_find_keywords,
}
use bt_server.Http.{Outcome}
use bt_server.Http.Announce.{take_twenty, skipped, go_on}
use bt_server.Http.Ends.{Ends, >>=-Ends, Skips, skipvalue-Skips, skipvalue-amp}
use bt_server.Http.Arguments.{TwentyIn, take_twenty-Ends}
use bt_server.Http.Lookups.{Looks, scan_find_keywords-Looks}
use bt_server.Http.Loop.{behind_amp}
use bt_server.Http.Handlers.{
  Hashes, add_hash, hash_found, scrape_loop, scrape_keywords, some_hashes, scrape_hashes,
  max_multiscrape,
}

abbrev pub IsTwenty : List ℕ → Type 0
IsTwenty w = length w ≡ 20

-- The hashes that are looked up: 20 characters each, at most 64, and no longer than the request.
abbrev pub ScrapeRight : ℕ → List (List ℕ) → Type 0
ScrapeRight n hs = All IsTwenty hs × (length hs ≤ 64) × (20 * length hs ≤ n)

module _ (q : Query) where
  -- The hashes that were written fit in front of the position, in a request of `n` characters.
  abbrev pub HashesIn : ℕ → Hashes → Type 0
  HashesIn n (hs, s) = All IsTwenty hs × Stands q s × (20 * length hs + length s ≤ n)

  abbrev pub ScrapeRound : ℕ → ℕ → Bool × Hashes → Type 0
  ScrapeRound n k (true, (hs, s)) = HashesIn n (hs, s) × (length s < k)
  ScrapeRound n k (false, (hs, s)) = HashesIn n (hs, s)

  All-snoc :
      (hs : List (List ℕ)) (w : List ℕ)
      → All IsTwenty hs
      → IsTwenty w
      → All IsTwenty (hs ++ (w ∷ []))
  All-snoc [] w h k = (k, tt)
  All-snoc (x ∷ hs) w h k = (h.0, All-snoc hs w h.1 k)

  module _ (n : ℕ) (hs : List (List ℕ)) (s : List ℕ) (h : HashesIn n (hs, s)) where
    add_hash-Ends :
        (rest : List ℕ) (t : List ℕ × List ℕ)
        → length rest + 1 ≤ length s
        → TwentyIn q rest t
        → Ends q (ScrapeRound n (length s)) (add_hash hs t)
    add_hash-Ends rest (next, word) le k = (
      (All-snoc hs word h.0 k.2, k.0, omega (arith, length-append hs (word ∷ []), h.2, k.1, le)),
      omega (arith, k.1, le),
    )

    skipped-Ends :
        (o : Option (List ℕ)) (rest : List ℕ)
        → Skips q rest o
        → length rest < length s
        → Ends q (λ t. ScrapeRound n (length s) (true, t)) (skipped hs o)
    skipped-Ends none rest k lt = absurd k
    skipped-Ends (some t) rest k lt = ((h.0, k.0, omega (arith, h.2, k.1)), omega (arith, k.1))

    hash_found-Ends :
        (r : Lookup) → Looks q s r → Ends q (ScrapeRound n (length s)) (hash_found hs s r)
    hash_found-Ends (keyword k rest) l =
        >>=-Ends q (TwentyIn q rest) _ (take_twenty rest) (add_hash hs)
          (take_twenty-Ends q rest l.0) λ t q. add_hash-Ends rest t l.1 q
    hash_found-Ends (unknown rest) (k, le, inl lt) =
        >>=-Ends q (λ t. ScrapeRound n (length s) (true, t)) _ (skipped hs (skipvalue rest)) _
          (skipped-Ends (skipvalue rest) rest (skipvalue-Skips q rest k) lt) λ t q. q
    hash_found-Ends (unknown rest) (k, le, inr (t, amp)) =
        let skip : skipvalue rest ≡ some t = ap skipvalue amp ∙ skipvalue-amp t in
        rw skip (
          (h.0, behind_amp q t (subst (Stands q) amp k), omega (arith, h.2, le, ap length amp)),
          omega (arith, le, ap length amp),
        )
    hash_found-Ends malformed l = tt
    hash_found-Ends finished l = h
    hash_found-Ends behind_keyword l = l
    hash_found-Ends behind_string l = absurd l

  abbrev pub HashesFit : ℕ → List (List ℕ) → Type 0
  HashesFit n hs = All IsTwenty hs × (20 * length hs ≤ n)

  go_on-HashesFit :
      (n k : ℕ) (f : List (List ℕ) → List ℕ → Outcome (List (List ℕ)))
      → ((hs : List (List ℕ)) (s : List ℕ)
          → HashesIn n (hs, s)
          → length s < k
          → Ends q (HashesFit n) (f hs s))
      → (t : Bool × Hashes) → ScrapeRound n k t
      → Ends q (HashesFit n) (go_on f t)
  go_on-HashesFit n k f later (true, (hs, s)) h = later hs s h.0 h.1
  go_on-HashesFit n k f later (false, (hs, s)) h = (h.0, omega (arith, h.2))

  scrape_loop-Ends :
      (n fuel : ℕ) (hs : List (List ℕ)) (s : List ℕ)
      → length s < fuel
      → HashesIn n (hs, s)
      → Ends q (HashesFit n) (scrape_loop fuel hs s)
  unfolding scrape_loop
  scrape_loop-Ends n zero hs s enough h = absurd (omega arith)
  scrape_loop-Ends n (suc fuel) hs s enough h =
      >>=-Ends q (ScrapeRound n (length s)) (HashesFit n)
        (hash_found hs s (scan_find_keywords scrape_keywords scan_param s))
        (go_on (scrape_loop fuel))
        (hash_found-Ends n hs s h (scan_find_keywords scrape_keywords scan_param s)
          (scan_find_keywords-Looks q scrape_keywords s h.1))
        (go_on-HashesFit n (length s) (scrape_loop fuel)
          λ ks t k lt. scrape_loop-Ends n fuel ks t (omega (arith, enough, lt)) k)

  All-take : (k : ℕ) (hs : List (List ℕ)) → All IsTwenty hs → All IsTwenty (take k hs)
  All-take zero hs h = tt
  All-take (suc k) [] h = tt
  All-take (suc k) (x ∷ hs) h = (h.0, All-take k hs h.1)

  length-take_le :
      (k : ℕ) (hs : List (List ℕ)) → (length (take k hs) ≤ k) × (length (take k hs) ≤ length hs)
  length-take_le zero hs = (omega arith, omega arith)
  length-take_le (suc k) [] = (omega arith, omega arith)
  length-take_le (suc k) (x ∷ hs) =
      (omega (arith, length-take_le k hs), omega (arith, length-take_le k hs))

  some_hashes-Ends :
      (n : ℕ) (hs : List (List ℕ)) → HashesFit n hs → Ends q (ScrapeRight n) (some_hashes hs)
  some_hashes-Ends n [] h = tt
  some_hashes-Ends n (x ∷ hs) h =
      let le = length-take_le max_multiscrape (x ∷ hs) in
      (All-take max_multiscrape (x ∷ hs) h.0, le.0, omega (arith, le.1, h.1))

  -- With a newline ahead the loop over the hashes of a scrape always ends and never reads behind the
  -- newline: it answers with an error, or finds at most 64 hashes of 20 characters each that together
  -- are no longer than the request, in front of which they are written, or it is a fault that has its
  -- cause.
  pub scrape_hashes-Ends :
      (s : List ℕ) → Stands q s → Ends q (ScrapeRight (length s)) (scrape_hashes s)
  unfolding scrape_hashes
  scrape_hashes-Ends s h =
      >>=-Ends q (HashesFit (length s)) (ScrapeRight (length s)) (scrape_loop (suc (length s)) [] s)
        some_hashes
        (scrape_loop-Ends (length s) (suc (length s)) [] s (omega arith) (tt, h, omega arith))
        (some_hashes-Ends (length s))
