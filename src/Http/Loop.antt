-- ===== src/Http/Loop.antt =====
-- The loop of `http_handle_announce` ends, inside the request, with arguments in range.
use bt_server.Prelude.{
  ℕ, zero, suc, ◌<◌, ◌≡◌, refl, ap, ◌∙◌, List, ◌∷◌, Bool, true, false, Option, none, some, arith,
  length, inl, inr,
}
use mathlib.Core.Path.{subst}
use bt_server.Prelude.Int.{ℤ, pos, negsuc}
use bt_server.Scan.{scan_urlencoded_query, scan_value, scan_param, skipvalue}
use bt_server.Http.Queries.{Query, Stands, Stands-next, scan_urlencoded_query-Within}
use bt_server.Scan.Keywords.{
  Lookup, keyword, unknown, malformed, finished, behind_keyword, behind_string, looked_up,
  scan_find_keywords,
}
use bt_server.Http.{Outcome}
use bt_server.Http.Announce.{
  Args, no_args, State, take_event, take_argument, event_found, argument_found, event_keywords,
  skipped, announce_keywords, announce_round, go_on, announce_loop, announce_args,
}
use bt_server.Http.Ends.{Ends, >>=-Ends, Skips, skipvalue-Skips, skipvalue-amp}
use bt_server.Http.Arguments.{
  ArgsRight, StateIn, event_flag-ArgsRight, take_port-Ends, take_left-Ends, take_numwant-Ends,
  take_compact-Ends, take_info_hash-Ends, take_peer_id-Ends,
}
use bt_server.Http.Lookups.{Looks, ValueLooks, looked_up-ValueLooks, scan_find_keywords-Looks}

module _ (q : Query) where
  event_found-Ends :
      (a : Args) (s : List ℕ) (r : Lookup)
      → ArgsRight a
      → Stands q s
      → ValueLooks q s r
      → Ends q (StateIn q (length s)) (event_found a s r)
  event_found-Ends a s (keyword k rest) right h l = (event_flag-ArgsRight k a right, l.0, l.1)
  event_found-Ends a s (unknown rest) right h l = (right, l.0, l.1)
  event_found-Ends a s malformed right h l = tt
  event_found-Ends a s finished right h l = (right, h, omega arith)
  event_found-Ends a s behind_keyword right h l = l
  event_found-Ends a s behind_string right h l = absurd l

  pub behind_amp : (t : List ℕ) → Stands q (b'&' ∷ t) → Stands q t
  behind_amp t (inl e, later) = absurd (omega arith)
  behind_amp t (inr h, later) = Stands-next q b'&' t h (inr h, later)

  module _ (a : Args) (right : ArgsRight a) (reads : q.numbers ≡ true) where
    take_event-Ends : (s : List ℕ) → Stands q s → Ends q (StateIn q (length s)) (take_event a s)
    unfolding take_event scan_find_keywords
    take_event-Ends s h =
        let r = scan_urlencoded_query-Within q scan_value s (inr (inr refl)) h in
        event_found-Ends a s (looked_up event_keywords (scan_urlencoded_query scan_value s)) right h
          (looked_up-ValueLooks q event_keywords s (scan_urlencoded_query scan_value s) r.0 r.1)

    take_argument-Ends :
        (k : ℤ) (s : List ℕ) → Stands q s → Ends q (StateIn q (length s)) (take_argument k a s)
    take_argument-Ends (negsuc k) s h = (right, h, omega arith)
    take_argument-Ends (pos k) s h = ground (
      arith,
      right,
      take_port-Ends q a right s h reads,
      take_left-Ends q a right s h reads,
      take_event-Ends s h,
      take_numwant-Ends q a right s h reads,
      take_compact-Ends q a right s h reads,
      take_info_hash-Ends q a right s h reads,
      take_peer_id-Ends q a right s h reads,
      h,
    )

    -- A round goes on further on in the request, or stops with right arguments.
    abbrev RoundIn : ℕ → Bool × State → Type 0
    RoundIn n (true, (b, rest)) = ArgsRight b × Stands q rest × (length rest < n)
    RoundIn n (false, (b, rest)) = ArgsRight b

    shorter : (n k : ℕ) (t : State) → k < n → StateIn q k t → RoundIn n (true, t)
    shorter n k (b, rest) le h = (h.0, h.1, omega (arith, h.2))

    skipped-Ends :
        (n : ℕ) (o : Option (List ℕ)) (s : List ℕ)
        → Skips q s o
        → length s < n
        → Ends q (λ t. RoundIn n (true, t)) (skipped a o)
    skipped-Ends n none s h le = absurd h
    skipped-Ends n (some t) s h le = (right, h.0, omega (arith, h.1))

    argument_found-Ends :
        (s : List ℕ) (r : Lookup) → Looks q s r → Ends q (RoundIn (length s)) (argument_found a s r)
    argument_found-Ends s (keyword k rest) l =
        >>=-Ends q _ _ (take_argument k a rest) _ (take_argument-Ends k rest l.0)
          λ t h. shorter (length s) (length rest) t (omega (arith, l.1)) h
    argument_found-Ends s (unknown rest) (h, le, inl lt) =
        >>=-Ends q (λ t. RoundIn (length s) (true, t)) _ (skipped a (skipvalue rest)) _
          (skipped-Ends (length s) (skipvalue rest) rest (skipvalue-Skips q rest h) lt) λ t k. k
    argument_found-Ends s (unknown rest) (h, le, inr (t, amp)) =
        let skip : skipvalue rest ≡ some t = ap skipvalue amp ∙ skipvalue-amp t in
        rw skip (right, behind_amp t (subst (Stands q) amp h), omega (arith, le, ap length amp))
    argument_found-Ends s malformed l = tt
    argument_found-Ends s finished l = right
    argument_found-Ends s behind_keyword l = l
    argument_found-Ends s behind_string l = absurd l

    announce_round-Ends :
        (s : List ℕ) → Stands q s → Ends q (RoundIn (length s)) (announce_round a s)
    unfolding announce_round
    announce_round-Ends s h =
        argument_found-Ends s (scan_find_keywords announce_keywords scan_param s)
          (scan_find_keywords-Looks q announce_keywords s h)

  go_on-Ends :
      (a : Args) (right : ArgsRight a) (reads : q.numbers ≡ true) (n : ℕ)
      (f : Args → List ℕ → Outcome Args)
      → ((b : Args) (rest : List ℕ)
          → ArgsRight b
          → Stands q rest
          → length rest < n
          → Ends q ArgsRight (f b rest))
      → (t : Bool × State) → RoundIn a right reads n t
      → Ends q ArgsRight (go_on f t)
  go_on-Ends a right reads n f later (true, (b, rest)) k = later b rest k.0 k.1 k.2
  go_on-Ends a right reads n f later (false, (b, rest)) k = k

  announce_loop-Ends :
      (reads : q.numbers ≡ true) (fuel : ℕ) (a : Args) (s : List ℕ)
      → length s < fuel
      → ArgsRight a
      → Stands q s
      → Ends q ArgsRight (announce_loop fuel a s)
  unfolding announce_loop
  announce_loop-Ends reads zero a s enough right h = absurd (omega arith)
  announce_loop-Ends reads (suc fuel) a s enough right h =
      >>=-Ends q (RoundIn a right reads (length s)) ArgsRight (announce_round a s)
        (go_on (announce_loop fuel)) (announce_round-Ends a right reads s h)
        (go_on-Ends a right reads (length s) (announce_loop fuel)
          λ b rest r k lt. announce_loop-Ends reads fuel b rest (omega (arith, enough, lt)) r k)

  -- With a newline ahead the loop over the arguments of an announce always ends and never reads behind
  -- the newline: it answers with an error, or finds flags of a byte, a port of two bytes, at most 200
  -- wanted peers and a hash, if any, of 20 bytes, or it is a fault that has its cause.
  pub announce_args-Ends :
      q.numbers ≡ true → (s : List ℕ) → Stands q s → Ends q ArgsRight (announce_args s)
  unfolding announce_args
  announce_args-Ends reads s h =
      announce_loop-Ends reads (suc (length s)) no_args s (omega arith)
        (record {
          flag_byte = omega arith;
          port_word = omega arith;
          few = omega arith;
          hash_twenty = λ w e. cc;
        })
        h
