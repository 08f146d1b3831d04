-- ===== src/Replies/Wanted.antt =====
-- The peers that `return_peers_for_torrent` writes, for any number of wanted peers.
use bt_server.Prelude.{
  ℕ, ◌*◌, ◌/◌, ◌%◌, ◌^◌, ◌≤◌, ◌<◌, ◌≡◌, ◌⊎◌, refl, sym, List, [], ◌++◌, true, false, Option, none,
  some, arith, ltb, ◌==◌, Bool-cases, inl, inr, length, take, drop, length-take, take-append-drop,
}
use native.Mathlib.Nat.{
  le-div_iff_mul-le, div-mul-le_self, mul-le-mul_left, div-le_self, pow-le-pow_right,
}
use bt_server.Prelude.All.{All}
use mathlib.Core.Path.{subst}
use bt_server.Peers.{Peer}
use bt_server.Clean.{PeerList}
use bt_server.Clean.Counters.{CountsRight}
use bt_server.Replies.{Reply, compare_size, with_size}
use bt_server.Replies.Layout.{leechers, seeders_backwards, put_peers-Lays, Lays}
use bt_server.Replies.Whole.{all_peers, length-all_peers, Fills, return_peers_all-Fills}
use bt_server.Replies.Selection.{shift_up, select_peers, return_peers_selection, return_peers}
use bt_server.Replies.Steps.{shift_up-Shifts}
use bt_server.Replies.Places.{Holds, Chosen, select_peers-Chosen}

-- Peers of the list, as many as wanted, with nothing behind them changed.
abbrev pub Selects : PeerList → ℕ → List ℕ → Option (List ℕ × ℕ) → Type 0
Selects l amount cells none = ⊥
Selects l amount cells (some (out, size)) =
    ((ps : List Peer) × (length ps ≡ amount)
      × All (Holds l.peers.lists) ps
      × (out ≡ leechers ps ++ (seeders_backwards ps ++ drop amount cells)))
    × (size ≡ compare_size * amount)

laid-Selects :
    (l : PeerList) (amount : ℕ) (cells : List ℕ) (ps : List Peer) (o : Option Reply)
    → length ps ≡ amount
    → All (Holds l.peers.lists) ps
    → Lays [] (drop amount cells) ps o
    → Selects l amount cells (with_size amount o)
laid-Selects l amount cells ps none len all h = h
laid-Selects l amount cells ps (some r) len all h = ((ps, len, all, h), refl)

-- What the code makes of chosen peers.
written-Selects :
    (l : PeerList) (amount : ℕ) (cells : List ℕ) (write : Reply → Option Reply)
    → amount ≤ length cells
    → Chosen l.peers.lists amount write
    → Selects l amount cells
        (with_size amount (write (record { cells = cells; front = 0; back = amount })))
written-Selects l amount cells write room (ps, len, all, same) =
    let start : Reply = record { cells = cells; front = 0; back = amount } in
    let taken : length (take amount cells) ≡ amount =
      omega (arith, length-take amount cells, room) in
    laid-Selects l amount cells ps (write start) len all (
      rw (same start) (
        put_peers-Lays ps [] (take amount cells) (drop amount cells) start
          (omega (arith, taken, len))
          (record {
            cells_are = sym (take-append-drop amount cells);
            front_is = refl;
            back_is = omega (arith, taken);
          })))

module _ (random : ℕ → ℕ) (l : PeerList) (cells : List ℕ) (right : CountsRight l) where
  return_peers_selection-Selects :
      (amount : ℕ)
      → 0 < amount
      → amount < l.peer_count
      → l.peer_count < 2 ^ 30
      → amount ≤ length cells
      → Selects l amount cells (return_peers_selection random l amount cells)
  unfolding return_peers_selection
  return_peers_selection-Selects amount positive less few room =
      let n : l.peer_count % 2 ^ 32 ≡ l.peer_count = omega (arith, few) in
      let (j, e, small) = shift_up-Shifts 32 l.peer_count 0 (omega (arith, positive, less)) few in
      let shifted_pc = l.peer_count * 2 ^ j in
      let q = shifted_pc / amount in
      let e' : shift_up 33 l.peer_count 0 ≡ some (shifted_pc, j) =
        subst (λ k. shift_up 33 l.peer_count 0 ≡ some (shifted_pc, k)) (omega arith) e in
      let one : 1 ≤ 2 ^ j = pow-le-pow_right {n = 2} (omega arith) {i = 0} {j = j} (omega arith) in
      let under : amount * q ≤ shifted_pc = omega (arith, div-mul-le_self shifted_pc amount) in
      let below : q ≤ shifted_pc = div-le_self shifted_pc amount in
      let same : q % 2 ^ 32 ≡ q = omega (arith, below, small) in
      let each : 2 ^ j ≤ q = (le-div_iff_mul-le positive).1 (
        omega
          (arith, mul-le-mul_left {m = amount} {n = l.peer_count} (2 ^ j) (omega (arith, less)))) in
      let some_peer : 0 < length (all_peers l.peers.lists) =
        omega (arith, less, right.peers_right, length-all_peers l.peers.lists) in
      rw (n, e', same)
        (written-Selects l amount cells
          (select_peers random l.peers.lists q j amount 0 (random amount % l.peer_count % 2 ^ 32))
          room
          (select_peers-Chosen random l.peers.lists some_peer q j amount 0
            (random amount % l.peer_count % 2 ^ 32) each (omega (arith, one))
            (omega (arith, under, small))))

  -- Where the counters of a list are right, it has fewer than 2 ^ 30 peers, and the reply has a cell for
  -- each wanted peer: where all peers are wanted, the reply is as `return_peers_all` leaves it, and
  -- otherwise it holds as many peers of the list as are wanted, whatever `random` returns, those that
  -- are not seeding from the start on and the seeders behind them. No remainder by 0 is taken, no peer
  -- behind a bucket is read, and nothing behind the wanted peers is written.
  pub return_peers-Selects :
      (wanted : ℕ)
      → 0 < wanted
      → 0 < l.peer_count
      → l.peer_count < 2 ^ 30
      → wanted ≤ length cells
      → ((l.peer_count ≤ wanted) × Fills l cells (return_peers random l wanted cells))
        ⊎ ((wanted < l.peer_count) × Selects l wanted cells (return_peers random l wanted cells))
  unfolding return_peers
  return_peers-Selects wanted positive some_peer few room =
      elim (Bool-cases (ltb l.peer_count wanted)) [
        | inl more ↦
            let some_amount : (l.peer_count == 0) ≡ false = ground (arith, some_peer) in
            let whole : (l.peer_count == l.peer_count) ≡ true = ground arith in
            rw (more, some_amount, whole)
              (inl (
                ground (arith, more),
                return_peers_all-Fills l cells right (ground (arith, more, room)),
              ))
        | inr no_more ↦ elim (Bool-cases (wanted == l.peer_count)) [
          | inl whole ↦
              let some_amount : (wanted == 0) ≡ false = ground (arith, positive) in
              rw (no_more, some_amount, whole)
                (inl (
                  ground (arith, whole),
                  return_peers_all-Fills l cells right (ground (arith, whole, room)),
                ))
          | inr part ↦
              let some_amount : (wanted == 0) ≡ false = ground (arith, positive) in
              let less : wanted < l.peer_count = ground (arith, no_more, part) in
              rw (no_more, some_amount, part)
                (inr (less, return_peers_selection-Selects wanted positive less few room))
        ]
      ]
