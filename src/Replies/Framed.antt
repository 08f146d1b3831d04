-- ===== src/Replies/Framed.antt =====
-- The reply that `return_peers_for_torrent` leaves.
use bt_server.Prelude.{
  ℕ, ◌+◌, ◌*◌, ◌/◌, ◌^◌, ◌≤◌, ◌<◌, ◌≡◌, ◌⊎◌, inl, inr, refl, List, [], ◌∷◌, ◌++◌, Bool, true, false,
  Option, none, some, arith, length, length-append, length-take, take, drop,
}
use bt_server.Prelude.Partial.{◌>>=◌}
use mathlib.Core.Path.{subst, sym}
use bt_server.Prelude.Decimal.{length-zd, big_bytes, length-big_bytes}
use bt_server.Clean.{PeerList}
use bt_server.Clean.Counters.{CountsRight}
use bt_server.Replies.{compare_size}
use bt_server.Replies.Layout.{leechers, seeders_backwards}
use bt_server.Replies.Whole.{Fills, peers_of_list, length-leechers}
use bt_server.Replies.Selection.{return_peers, amount_of}
use bt_server.Replies.Wanted.{Selects, return_peers-Selects}
use bt_server.Replies.Torrent.{
  cell_bytes, tcp_head, udp_head, head_of, tail_of, return_peers_for_torrent,
}

bytes_append : (xs ys : List ℕ) → length (xs ++ ys) ≡ length xs + length ys
bytes_append xs ys = length-append xs ys

length-cell_bytes : (cells : List ℕ) → length (cell_bytes cells) ≡ 6 * length cells
unfolding cell_bytes
length-cell_bytes [] = refl
length-cell_bytes (c ∷ cells) = omega (
  arith,
  bytes_append (big_bytes 6 c) (cell_bytes cells),
  length-big_bytes 6 c,
  length-cell_bytes cells,
)

-- What the reply's cells hold: all peers, or as many as are wanted.
abbrev pub Peers : PeerList → ℕ → List ℕ → Option (List ℕ × ℕ) → Type 0
Peers l wanted cells o =
    ((l.peer_count ≤ wanted) × Fills l cells o)
    ⊎ ((wanted < l.peer_count) × Selects l wanted cells o)

length-head_of :
    (tcp : Bool) (l : PeerList) (amount erval : ℕ) → length (head_of tcp l amount erval) ≤ 206
unfolding tcp_head udp_head
length-head_of true l amount erval = omega (arith, bytes_append, length-zd)
length-head_of false l amount erval = omega (arith, bytes_append, length-big_bytes)

-- A reply of these peers: its bytes are a head, six for each peer, and "e" over TCP.
abbrev pub Framed : PeerList → ℕ → List ℕ → Bool → ℕ → Option (List ℕ) → Type 0
Framed l wanted cells tcp erval none = ⊥
Framed l wanted cells tcp erval (some reply) =
    (out : List ℕ) × (body : List ℕ) × Peers l wanted cells
      (some (out, compare_size * amount_of l wanted))
    × (body ≡ cell_bytes (take (amount_of l wanted) out))
    × (length body ≡ compare_size * amount_of l wanted)
    × (reply ≡ head_of tcp l (amount_of l wanted) erval ++ (body ++ tail_of tcp))
    × (length reply ≤ 207 + compare_size * amount_of l wanted)

abbrev reply_of : PeerList → ℕ → Bool → ℕ → List ℕ → ℕ → List ℕ
reply_of l wanted tcp erval out size =
    head_of tcp l (amount_of l wanted) erval
    ++ (cell_bytes (take (size / compare_size) out) ++ tail_of tcp)

length-tail_of : (tcp : Bool) → length (tail_of tcp) ≤ 1
length-tail_of true = omega arith
length-tail_of false = omega arith

frame_of :
    (l : PeerList) (wanted : ℕ) (cells : List ℕ) (tcp : Bool) (erval : ℕ) (out : List ℕ)
    → amount_of l wanted ≤ length out
    → Peers l wanted cells (some (out, compare_size * amount_of l wanted))
    → Framed l wanted cells tcp erval
        (some (reply_of l wanted tcp erval out (compare_size * amount_of l wanted)))
frame_of l wanted cells tcp erval out room peers =
    let amount = amount_of l wanted in
    let whole : compare_size * amount / compare_size ≡ amount = omega arith in
    let body = cell_bytes (take amount out) in
    let size : length body ≡ compare_size * amount =
      omega (arith, length-cell_bytes (take amount out), length-take amount out, room) in
    rw whole (
      out,
      body,
      peers,
      refl,
      size,
      refl,
      omega (
        arith,
        bytes_append (head_of tcp l amount erval) (body ++ tail_of tcp),
        bytes_append body (tail_of tcp),
        length-head_of tcp l amount erval,
        length-tail_of tcp,
        size,
      ),
    )

-- The size that the peers have is that of the amount.
sized_frame :
    (l : PeerList) (wanted : ℕ) (cells : List ℕ) (tcp : Bool) (erval : ℕ) (out : List ℕ) (size : ℕ)
    → size ≡ compare_size * amount_of l wanted
    → amount_of l wanted ≤ length out
    → Peers l wanted cells (some (out, size))
    → Framed l wanted cells tcp erval (some (reply_of l wanted tcp erval out size))
sized_frame l wanted cells tcp erval out size e room =
    subst
      (λ z.
        Peers l wanted cells (some (out, z))
        → Framed l wanted cells tcp erval (some (reply_of l wanted tcp erval out z)))
      (sym e) (frame_of l wanted cells tcp erval out room)

amount_of_all :
    (l : PeerList) (wanted : ℕ) → l.peer_count ≤ wanted → amount_of l wanted ≡ l.peer_count
amount_of_all l wanted le = ground (arith, le)

amount_of_some : (l : PeerList) (wanted : ℕ) → wanted < l.peer_count → amount_of l wanted ≡ wanted
amount_of_some l wanted less = ground (arith, less)

framed :
    (l : PeerList) (wanted : ℕ) (cells : List ℕ) (tcp : Bool) (erval : ℕ) (o : Option (List ℕ × ℕ))
    → Peers l wanted cells o
    → Framed l wanted cells tcp erval
        (o >>= λ (out, size). some (reply_of l wanted tcp erval out size))
framed l wanted cells tcp erval none (inl h) = absurd h.1
framed l wanted cells tcp erval none (inr h) = absurd h.1
framed l wanted cells tcp erval (some (out, size)) (inl (le, fills)) =
    let amount = amount_of_all l wanted le in
    let ps = peers_of_list l in
    let long : l.peer_count ≤ length out = rw (fills.0) (
      omega (
        arith,
        bytes_append (leechers ps) (seeders_backwards ps ++ drop l.peer_count cells),
        bytes_append (seeders_backwards ps) (drop l.peer_count cells),
        fills.2,
        fills.3,
      )) in
    sized_frame l wanted cells tcp erval out size (omega (arith, fills.1, amount))
      (omega (arith, amount, long)) (inl (le, fills))
framed l wanted cells tcp erval (some (out, size)) (inr (less, (chosen, e))) =
    let amount = amount_of_some l wanted less in
    let (ps, len, all, laid) = chosen in
    let long : wanted ≤ length out = rw laid (
      omega (
        arith,
        bytes_append (leechers ps) (seeders_backwards ps ++ drop wanted cells),
        bytes_append (seeders_backwards ps) (drop wanted cells),
        length-leechers ps,
        len,
      )) in
    sized_frame l wanted cells tcp erval out size (omega (arith, e, amount))
      (omega (arith, amount, long)) (inr (less, (chosen, e)))

-- Where the counters of a list are right, it has some and fewer than 2 ^ 30 peers, some are wanted, and
-- the reply has a cell for each of these, the reply is a head, over TCP with the number of bytes that
-- follow as the length of the string, six bytes for each peer, and "e" over TCP; it has no more than 207
-- bytes besides the peers. The peers are all of the list, the seeders last, where as many are wanted;
-- otherwise as many of them as are wanted, whatever `random` returns. No remainder by 0 is taken, no peer
-- behind a bucket is read, and no cell behind the wanted ones is written.
pub return_peers_for_torrent-Framed :
    (random : ℕ → ℕ) (l : PeerList) (cells : List ℕ)
    → CountsRight l
    → (wanted : ℕ) (tcp : Bool) (erval : ℕ) → 0 < wanted
    → 0 < l.peer_count
    → l.peer_count < 2 ^ 30
    → wanted ≤ length cells
    → Framed l wanted cells tcp erval (return_peers_for_torrent random l wanted cells tcp erval)
unfolding return_peers_for_torrent
return_peers_for_torrent-Framed random l cells right wanted tcp erval positive some_peer few room =
    framed l wanted cells tcp erval (return_peers random l wanted cells)
      (return_peers-Selects random l cells right wanted positive some_peer few room)
