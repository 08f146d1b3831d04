-- ===== src/Replies/Whole.antt =====
-- `return_peers_all` writes every peer of a list into the reply once, and nothing else.
use bt_server.Prelude.{
  ℕ, ◌+◌, ◌*◌, ◌≤◌, ◌≡◌, refl, sym, ◌∙◌, List, [], ◌∷◌, ◌++◌, Option, none, some, arith, length,
  take, drop, length-append, length-take, take-append-drop, Option-cases, inl, inr,
}
use bt_server.Vector.{Vector}
use bt_server.Peers.{Peer}
use bt_server.Peers.Weight.{sum_over, vector_weight, one, seed}
use bt_server.Clean.{PeerList}
use bt_server.Clean.Counters.{CountsRight}
use bt_server.Replies.{
  Reply, put_peer, put_peers, put_lists, return_peers_all, compare_size, with_size,
}
use bt_server.Replies.Layout.{leechers, seeders_backwards, put_peers-Lays, Lays}

-- The peers of all buckets, one bucket after the other.
unfoldable pub all_peers : List (Vector Peer) → List Peer
all_peers [] = []
all_peers (v ∷ vs) = v.items ++ all_peers vs

put_peers-append :
    (ps qs : List Peer) (r : Reply)
    → put_peers (ps ++ qs) r ≡ elim (put_peers ps r) [ none ↦ none | some q ↦ put_peers qs q ]
unfolding put_peers
put_peers-append [] qs r = refl
put_peers-append (p ∷ ps) qs r = elim (Option-cases (put_peer p r)) [
  | inl e ↦ ground arith
  | inr (q, e) ↦ ground (arith, put_peers-append ps qs q)
]

put_lists-all : (vs : List (Vector Peer)) (r : Reply) → put_lists vs r ≡ put_peers (all_peers vs) r
unfolding put_lists all_peers put_peers
put_lists-all [] r = refl
put_lists-all (v ∷ vs) r = elim (Option-cases (put_peers v.items r)) [
  | inl e ↦ ground (arith, put_peers-append v.items (all_peers vs) r)
  | inr (q, e) ↦ ground (arith, put_peers-append v.items (all_peers vs) r, put_lists-all vs q)
]

sum_over-one : (ps : List Peer) → sum_over one ps ≡ length ps
unfolding sum_over
sum_over-one [] = refl
sum_over-one (p ∷ ps) = omega (arith, sum_over-one ps)

pub length-all_peers :
    (vs : List (Vector Peer)) → length (all_peers vs) ≡ sum_over (vector_weight one) vs
unfolding all_peers sum_over
length-all_peers [] = refl
length-all_peers (v ∷ vs) =
    omega (arith, length-append v.items (all_peers vs), sum_over-one v.items, length-all_peers vs)

abbrev pub peers_of_list : PeerList → List Peer
peers_of_list l = all_peers l.peers.lists

length-seeders_backwards : (ps : List Peer) → length (seeders_backwards ps) ≡ sum_over seed ps
unfolding seeders_backwards sum_over
length-seeders_backwards [] = refl
length-seeders_backwards (p ∷ ps) =
    ground (arith, length-seeders_backwards ps, length-append (seeders_backwards ps) (p.key ∷ []))

pub length-leechers :
    (ps : List Peer) → length (leechers ps) + length (seeders_backwards ps) ≡ length ps
unfolding leechers seeders_backwards
length-leechers [] = refl
length-leechers (p ∷ ps) =
    ground (arith, length-leechers ps, length-append (seeders_backwards ps) (p.key ∷ []))

sum_over-append :
    (w : Peer → ℕ) (ps qs : List Peer) → sum_over w (ps ++ qs) ≡ sum_over w ps + sum_over w qs
unfolding sum_over
sum_over-append w [] qs = omega arith
sum_over-append w (p ∷ ps) qs = omega (arith, sum_over-append w ps qs)

seeds-all_peers :
    (vs : List (Vector Peer)) → sum_over seed (all_peers vs) ≡ sum_over (vector_weight seed) vs
unfolding all_peers sum_over
seeds-all_peers [] = refl
seeds-all_peers (v ∷ vs) =
    omega (arith, sum_over-append seed v.items (all_peers vs), seeds-all_peers vs)

-- A filled reply: its cells, and its size in bytes.
abbrev pub Fills : PeerList → List ℕ → Option (List ℕ × ℕ) → Type 0
Fills l cells none = ⊥
Fills l cells (some (out, size)) =
    (out
      ≡ leechers (peers_of_list l)
        ++ (seeders_backwards (peers_of_list l) ++ drop l.peer_count cells))
    × (size ≡ compare_size * l.peer_count)
    × (length (seeders_backwards (peers_of_list l)) ≡ l.seed_count)
    × (length (leechers (peers_of_list l)) + l.seed_count ≡ l.peer_count)

sized-Fills :
    (l : PeerList) (cells : List ℕ) (o : Option Reply)
    → CountsRight l
    → Lays [] (drop l.peer_count cells) (peers_of_list l) o
    → Fills l cells (with_size l.peer_count o)
sized-Fills l cells none c h = h
sized-Fills l cells (some r) c h =
    let seeds = length-seeders_backwards (peers_of_list l) ∙ seeds-all_peers l.peers.lists in
    (
      h,
      refl,
      omega (arith, seeds, c.seeds_right),
      omega (
        arith,
        seeds,
        c.seeds_right,
        c.peers_right,
        length-leechers (peers_of_list l),
        length-all_peers l.peers.lists,
      ),
    )

-- Where the counters of a list are right and the reply has a cell for each of its peers, all writes
-- stay inside those cells. They hold the peers that are not seeding, in their order, and behind them
-- the seeders, the last one first, each as many as the counters say, the cells behind them are as
-- before, and the returned size is theirs.
pub return_peers_all-Fills :
    (l : PeerList) (cells : List ℕ)
    → CountsRight l
    → l.peer_count ≤ length cells
    → Fills l cells (return_peers_all l cells)
unfolding return_peers_all
return_peers_all-Fills l cells c h =
    let start : Reply = record { cells = cells; front = 0; back = l.peer_count } in
    let taken : length (take l.peer_count cells) ≡ l.peer_count =
      omega (arith, length-take l.peer_count cells) in
    sized-Fills l cells (put_lists l.peers.lists start) c (
      rw (put_lists-all l.peers.lists start) (
        put_peers-Lays (peers_of_list l) [] (take l.peer_count cells) (drop l.peer_count cells)
          start (omega (arith, taken, c.peers_right, length-all_peers l.peers.lists))
          (record {
            cells_are = sym (take-append-drop l.peer_count cells);
            front_is = refl;
            back_is = omega (arith, taken);
          })))
