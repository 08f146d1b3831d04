-- ===== src/Announce/Counters.antt =====
-- The counters of a peer list stay right when peers come and go, and the list never has more seeders
-- than peers.
use bt_server.Prelude.{
  ℕ, ◌+◌, ◌<◌, ◌≡◌, inl, inr, Bool, true, false, not, ◌&&◌, Option, none, some, arith,
  if◌then◌else◌, ap, length, ◌∙◌, sym, get_elem?, length-set, set, Option-cases,
}
use bt_server.Prelude.Int.{pos}
use bt_server.Peers.{
  Peer, PeerStore, PeerSlot, found_at, opened_at, no_room, bad_read, write_peer, read_peer,
  remove_peer, is_seeding,
}
use bt_server.Peers.Weight.{weight, one, seed}
use bt_server.Peers.Census.{
  IsShaped, SlotCensus, find_or_insert_peer-SlotCensus, write_peer-weight, RemoveCensus,
  remove_peer-RemoveCensus,
}
use bt_server.Clean.{PeerList, size_mod}
use bt_server.Clean.Counters.{CountsRight, seeds_le_peers, Holds}
use bt_server.Announce.{
  fresh_peer, enter_peer, renew_peer, renewed_peer, Announced, stored, no_memory, bad, at_slot,
  announce, uncounted, retract, add_if, sub_if,
}
use bt_server.Announce.Flags.{seeding-or_completed, fresh_peer-IsFresh}

write_peer-shape :
    (s : PeerStore) (b i : ℕ) (p : Peer)
    → ((write_peer s b i p).has_buckets ≡ s.has_buckets)
      × (length (write_peer s b i p).lists ≡ length s.lists)
unfolding write_peer
write_peer-shape s b i p = elim (Option-cases (get_elem? s.lists b)) [
  | inl e ↦ ground arith
  | inr (v, e) ↦ ground (arith, length-set s.lists b (record v { items = set v.items i p }))
]

IsShaped-like :
    (s t : PeerStore)
    → t.has_buckets ≡ s.has_buckets
    → length t.lists ≡ length s.lists
    → IsShaped s
    → IsShaped t
IsShaped-like s t h k v = record {
  some_list = omega (arith, v.some_list);
  single = λ e. omega (arith, v.single (sym h ∙ e));
}

renewed_peer-seeding :
    (old p : Peer) → p.flag < 256 → is_seeding (renewed_peer old p) ≡ is_seeding p
renewed_peer-seeding old p h = ground (arith, seeding-or_completed p.flag h)

abbrev pub Stored : (PeerList → Type 0) → Announced → Type 0
Stored P (stored l es) = P l
Stored P no_memory = Unit
Stored P bad = ⊥

-- One more peer fits into the counters.
abbrev pub HasRoom : PeerList → Type 0
HasRoom l = weight one l.peers + 1 < size_mod

enter_peer-CountsRight :
    (l : PeerList) (s : PeerStore) (b i : ℕ) (p : Peer)
    → CountsRight l
    → HasRoom l
    → s.has_buckets ≡ l.peers.has_buckets
    → length s.lists ≡ length l.peers.lists
    → ((w : Peer → ℕ) (x : Peer) → weight w (write_peer s b i x) ≡ weight w l.peers + w x)
    → CountsRight (enter_peer l s b i p).0
unfolding enter_peer
enter_peer-CountsRight l s b i p v room hb hl hw =
    let shape = write_peer-shape s b i p in
    record {
      shaped = IsShaped-like l.peers _ (shape.0 ∙ hb) (shape.1 ∙ hl) v.shaped;
      peers_right = omega (arith, hw one p, v.peers_right);
      seeds_right = ground (arith, hw seed p, v.seeds_right, seeds_le_peers l.peers);
      small = omega (arith, hw one p);
    }

abbrev bit : Bool → ℕ
bit b = if b then 1 else 0

-- The seed counter follows the SEEDING bit of a peer that comes back.
seed_step :
    (was is : Bool) (m m' : ℕ)
    → m < size_mod
    → m' < size_mod
    → m' + bit was ≡ m + bit is
    → add_if (not was && is) (sub_if (was && not is) m) ≡ m'
seed_step true true m m' h k e = omega arith
seed_step true false m m' h k e = omega arith
seed_step false true m m' h k e = omega arith
seed_step false false m m' h k e = omega arith

renew_peer-CountsRight :
    (l : PeerList) (s : PeerStore) (b i : ℕ) (old p : Peer)
    → CountsRight l
    → p.flag < 256
    → s.has_buckets ≡ l.peers.has_buckets
    → length s.lists ≡ length l.peers.lists
    → ((w : Peer → ℕ) → weight w s ≡ weight w l.peers)
    → read_peer s b i ≡ some old
    → CountsRight (renew_peer l s b i old p).0
unfolding renew_peer
renew_peer-CountsRight l s b i old p v h hb hl hw e =
    let q = renewed_peer old p in
    let shape = write_peer-shape s b i q in
    let ones = write_peer-weight one s b i old q e in
    let seeds = write_peer-weight seed s b i old q e in
    record {
      shaped = IsShaped-like l.peers _ (shape.0 ∙ hb) (shape.1 ∙ hl) v.shaped;
      peers_right = omega (arith, ones, hw one, v.peers_right);
      seeds_right = rw v.seeds_right (
          seed_step (is_seeding old) (is_seeding p) (weight seed l.peers)
            (weight seed (write_peer s b i q)) (omega (arith, v.small, seeds_le_peers l.peers))
            (omega (arith, ones, hw one, v.small, seeds_le_peers (write_peer s b i q)))
            (omega (arith, seeds, hw seed, ap bit (renewed_peer-seeding old p h))));
      small = omega (arith, ones, hw one, v.small);
    }

at_slot-CountsRight :
    (l : PeerList) (p : Peer) (o : PeerSlot)
    → CountsRight l
    → HasRoom l
    → p.flag < 256
    → SlotCensus l.peers p.key o
    → Stored CountsRight (at_slot l p o)
at_slot-CountsRight l p (found_at s b i) v room h (old, e, k, hb, hl, hw) =
    rw (e, Stored) (renew_peer-CountsRight l s b i old p v h hb hl hw e)
at_slot-CountsRight l p (opened_at s b i) v room h (hb, hl, hw) =
    enter_peer-CountsRight l s b i p v room hb hl hw
at_slot-CountsRight l p no_room v room h c = tt
at_slot-CountsRight l p bad_read v room h c = c

-- Where the counters of a list are right and have room for one more, announcing a peer whose flags
-- are a byte never reads outside the vectors, and unless memory is refused, it ends with a list
-- whose counters are equal to what it holds, whether the peer was new or known.
pub announce-CountsRight :
    (alloc : ℕ → Bool) (stale : Peer) (now : ℕ) (p : Peer) (l : PeerList)
    → CountsRight l
    → HasRoom l
    → p.flag < 256
    → Stored CountsRight (announce alloc stale now p l)
unfolding announce
announce-CountsRight alloc stale now p l v room h =
    let f = fresh_peer-IsFresh p h in
    let based : CountsRight (record l { base = pos now }) = record {
      shaped = v.shaped;
      peers_right = v.peers_right;
      seeds_right = v.seeds_right;
      small = v.small;
    } in
    at_slot-CountsRight (record l { base = pos now }) (fresh_peer p) _ based room f.byte
      (rw f.same_key (find_or_insert_peer-SlotCensus alloc stale l.peers p.key v.shaped))

uncounted-CountsRight :
    (l : PeerList) (key : ℕ) (o : Option (PeerStore × ℕ))
    → CountsRight l
    → RemoveCensus l.peers key o
    → Holds CountsRight (uncounted l o)
uncounted-CountsRight l key none v c = c
uncounted-CountsRight l key (some (s, code)) v (hb, hl, inl (z, hw)) = record {
  shaped = IsShaped-like l.peers s hb hl v.shaped;
  peers_right = ground (arith, hw one, v.peers_right);
  seeds_right = ground (arith, hw seed, v.seeds_right);
  small = omega (arith, hw one, v.small);
}
uncounted-CountsRight l key (some (s, code)) v (hb, hl, inr (p, k, c, hw)) = record {
  shaped = IsShaped-like l.peers s hb hl v.shaped;
  peers_right = ground (arith, hw one, v.peers_right, v.small);
  seeds_right = ground (arith, hw seed, v.seeds_right, v.small, seeds_le_peers l.peers);
  small = omega (arith, hw one, v.small);
}

-- Where the counters of a list are right, taking a peer out never reads outside the vectors, and
-- keeps the counters equal to what the list holds, whether the peer was there or not.
pub retract-CountsRight :
    (key : ℕ) (l : PeerList) → CountsRight l → Holds CountsRight (retract key l)
unfolding retract
retract-CountsRight key l v =
    uncounted-CountsRight l key (remove_peer l.peers key) v
      (remove_peer-RemoveCensus l.peers key v.shaped)
