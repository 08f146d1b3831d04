-- ===== src/Replies/Places.antt =====
-- The loop over the buckets finds a peer.
use bt_server.Prelude.{
  ℕ, zero, suc, ◌+◌, ◌-◌, ◌*◌, ◌%◌, ◌^◌, ◌≤◌, ◌<◌, ◌≡◌, ◌⊎◌, refl, sym, ap, ◌∙◌, List, [], ◌∷◌,
  Option, none, some, arith, leb, Bool-cases, Option-cases, inl, inr, length, length-append,
  get_elem?, drop,
}
use bt_server.Prelude.All.{All}
use bt_server.Prelude.Partial.{◌>>=◌, >>=-cong}
use bt_server.Vector.{Vector}
use bt_server.Peers.{Peer}
use bt_server.Replies.{Reply, put_peer, put_peers}
use bt_server.Replies.Whole.{all_peers}
use bt_server.Replies.Steps.{step_range-positive}
use bt_server.Replies.Selection.{
  step_range, Place, Pass, stops, goes_on, outside, pass_buckets, pass_rounds, find_place,
  select_peers,
}

-- A peer is in one of the buckets.
abbrev pub Holds : List (Vector Peer) → Peer → Type 0
Holds [] p = ⊥
Holds (v ∷ vs) p = ((i : ℕ) × (get_elem? v.items i ≡ some p)) ⊎ Holds vs p

Holds-drop :
    (n : ℕ) (lists : List (Vector Peer)) (p : Peer) → Holds (drop n lists) p → Holds lists p
Holds-drop zero lists p h = h
Holds-drop (suc n) [] p h = h
Holds-drop (suc n) (v ∷ vs) p h = inr (Holds-drop n vs p h)

-- A pass stops at a peer, or takes all these peers from the offset.
abbrev PassRight : List (Vector Peer) → ℕ → Pass → Type 0
PassRight lists off (stops place) = Holds lists place.peer
PassRight lists off (goes_on rest) = rest + length (all_peers lists) ≡ off
PassRight lists off outside = ⊥

get_elem?-inside : (ps : List Peer) (i : ℕ) → i < length ps → (p : Peer) × (get_elem? ps i ≡ some p)
get_elem?-inside [] i h = absurd (omega (arith, h))
get_elem?-inside (p ∷ ps) zero h = (p, refl)
get_elem?-inside (p ∷ ps) (suc i) h = get_elem?-inside ps i (omega (arith, h))

later_pass :
    (v : Vector Peer) (vs : List (Vector Peer)) (off : ℕ) (o : Pass)
    → length v.items ≤ off
    → PassRight vs (off - length v.items) o
    → PassRight (v ∷ vs) off o
unfolding all_peers
later_pass v vs off (stops place) le h = inr h
later_pass v vs off (goes_on rest) le h = omega (arith, h, le, length-append v.items (all_peers vs))
later_pass v vs off outside le h = h

pass_buckets-PassRight :
    (i off : ℕ) (lists : List (Vector Peer)) → PassRight lists off (pass_buckets i off lists)
unfolding pass_buckets all_peers
pass_buckets-PassRight i off [] = omega arith
pass_buckets-PassRight i off (v ∷ vs) = elim (Bool-cases (leb (length v.items) off)) [
  | inl past ↦ rw past (
      later_pass v vs off (pass_buckets (i + 1) (off - length v.items) vs) (ground (arith, past))
        (pass_buckets-PassRight (i + 1) (off - length v.items) vs))
  | inr here ↦
      let (p, e) = get_elem?-inside v.items off (ground (arith, here)) in
      rw (here, e) (inl (off, e))
]

-- A place with a peer of these buckets.
abbrev Finds : List (Vector Peer) → Option Place → Type 0
Finds lists none = ⊥
Finds lists (some place) = Holds lists place.peer

-- Less is left of the offset than there is fuel.
abbrev Continues : ℕ → List (Vector Peer) → Pass → Type 0
Continues fuel lists (stops place) = Holds lists place.peer
Continues fuel lists (goes_on rest) = rest < fuel
Continues fuel lists outside = ⊥

next_pass :
    (fuel off : ℕ) (lists : List (Vector Peer)) (o : Pass)
    → 0 < length (all_peers lists)
    → off < suc fuel
    → PassRight lists off o
    → Continues fuel lists o
next_pass fuel off lists (stops place) some_peer less h = h
next_pass fuel off lists (goes_on rest) some_peer less h = omega (arith, h, less, some_peer)
next_pass fuel off lists outside some_peer less h = h

pass_rounds-Finds :
    (fuel : ℕ) (lists : List (Vector Peer)) (o : Pass)
    → 0 < length (all_peers lists)
    → Continues fuel lists o
    → Finds lists (pass_rounds fuel lists o)
unfolding pass_rounds
pass_rounds-Finds zero lists (stops place) some_peer h = h
pass_rounds-Finds (suc fuel) lists (stops place) some_peer h = h
pass_rounds-Finds zero lists (goes_on off) some_peer h = absurd (omega (arith, h))
pass_rounds-Finds (suc fuel) lists (goes_on off) some_peer h =
    pass_rounds-Finds fuel lists (pass_buckets 0 off lists) some_peer (
      next_pass fuel off lists (pass_buckets 0 off lists) some_peer h
        (pass_buckets-PassRight 0 off lists))
pass_rounds-Finds zero lists outside some_peer h = h
pass_rounds-Finds (suc fuel) lists outside some_peer h = h

first_pass :
    (n off : ℕ) (lists : List (Vector Peer)) (o : Pass)
    → PassRight (drop n lists) off o
    → Continues (off + 1) lists o
first_pass n off lists (stops place) h = Holds-drop n lists place.peer h
first_pass n off lists (goes_on rest) h = omega (arith, h)
first_pass n off lists outside h = h

find_place-Finds :
    (lists : List (Vector Peer)) (n off : ℕ)
    → 0 < length (all_peers lists)
    → Finds lists (find_place lists n off)
unfolding find_place
find_place-Finds lists n off some_peer =
    pass_rounds-Finds (off + 1) lists (pass_buckets n off (drop n lists)) some_peer (
      first_pass n off lists (pass_buckets n off (drop n lists))
        (pass_buckets-PassRight n off (drop n lists)))

found_place :
    (lists : List (Vector Peer)) (o : Option Place)
    → Finds lists o
    → (place : Place) × (o ≡ some place) × Holds lists place.peer
found_place lists none h = absurd h
found_place lists (some place) h = (place, refl, h)

-- Peers of these buckets, of which the code makes the reply.
abbrev pub Chosen : List (Vector Peer) → ℕ → (Reply → Option Reply) → Type 0
Chosen lists amount write =
    (ps : List Peer) × (length ps ≡ amount)
    × All (Holds lists) ps
    × ((r : Reply) → write r ≡ put_peers ps r)

put_peers-step :
    (p : Peer) (ps : List Peer) (r : Reply) → put_peers (p ∷ ps) r ≡ (put_peer p r >>= put_peers ps)
unfolding put_peers
put_peers-step p ps r = elim (Option-cases (put_peer p r)) [
  | inl e ↦ ground arith
  | inr (q, e) ↦ ground arith
]

module _ (random : ℕ → ℕ) (lists : List (Vector Peer))
    (some_peer : 0 < length (all_peers lists)) where
  pub select_peers-Chosen :
      (step shift amount n off : ℕ)
      → 2 ^ shift ≤ step
      → 0 < 2 ^ shift
      → amount * step < 2 ^ 30
      → Chosen lists amount (select_peers random lists step shift amount n off)
  unfolding select_peers put_peers
  select_peers-Chosen step shift zero n off one positive small = ([], refl, tt, λ r. refl)
  select_peers-Chosen step shift (suc amount) n off one positive small =
      let diff = step_range step shift amount in
      let offset = (off + (1 + random amount % diff)) % 2 ^ 32 in
      let range = step_range-positive step shift amount one positive (omega (arith, small)) in
      let (place, e, holds) = found_place lists _ (find_place-Finds lists n offset some_peer) in
      let (ps, len, all, same) =
        select_peers-Chosen step shift amount place.bucket_index place.bucket_offset one positive
          (omega (arith, small)) in
      (
        place.peer ∷ ps,
        ap suc len,
        (holds, all),
        λ r.
            rw (range, e)
              (>>=-cong (put_peer place.peer r) _ _ same ∙ sym (put_peers-step place.peer ps r)),
      )
