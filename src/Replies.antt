-- ===== src/Replies.antt =====
-- `return_peers_all` of src/trackerlogic.c: all peers of a list are written into the reply, those that
-- want the torrent from its start on, the seeders from its end backwards. The reply is a row of cells
-- of OT_PEER_COMPARE_SIZE bytes, from the pointer on, and a cell holds a peer's compared bytes.
pub mod Layout
pub mod Whole
pub mod Selection
pub mod Steps
pub mod Places
pub mod Wanted
pub mod Torrent
pub mod Framed
use bt_server.Prelude.{
  ℕ, ◌+◌, ◌-◌, ◌*◌, List, [], ◌∷◌, Option, none, some, ltb, ◌==◌, if◌then◌else◌, length, set,
}
use bt_server.Vector.{Vector}
use bt_server.Peers.{Peer, is_seeding}
use bt_server.Clean.{PeerList}

-- OT_PEER_COMPARE_SIZE, without WANT_V6
abbrev pub compare_size : ℕ
compare_size = 6

-- `reply` and `r_end` as the numbers of their cells
pub record Reply : Type 0 where
  pub cells : List ℕ
  pub front : ℕ
  pub back : ℕ

-- A `memcpy` into a cell; `none` is a write outside.
abbrev pub write_cell : List ℕ → ℕ → ℕ → Option (List ℕ)
write_cell cells i key = if ltb i (length cells) then some (set cells i key) else none

abbrev pub at_back : Reply → ℕ → Option (List ℕ) → Option Reply
at_back r i none = none
at_back r i (some cells) = some (record r { cells = cells; back = i })

abbrev pub at_front : Reply → Option (List ℕ) → Option Reply
at_front r none = none
at_front r (some cells) = some (record r { cells = cells; front = r.front + 1 })

-- One round of the inner loop; in front of the reply there is no cell.
unfoldable pub put_peer : Peer → Reply → Option Reply
put_peer p r =
    if is_seeding p
    then if r.back == 0
      then none
      else at_back r (r.back - 1) (write_cell r.cells (r.back - 1) p.key)
    else at_front r (write_cell r.cells r.front p.key)

unfoldable pub put_peers : List Peer → Reply → Option Reply
put_peers [] r = some r
put_peers (p ∷ ps) r = elim (put_peer p r) [ none ↦ none | some q ↦ put_peers ps q ]

-- The loop over the buckets.
unfoldable pub put_lists : List (Vector Peer) → Reply → Option Reply
put_lists [] r = some r
put_lists (v ∷ vs) r = elim (put_peers v.items r) [ none ↦ none | some q ↦ put_lists vs q ]

-- The reply's cells and the returned number of bytes.
abbrev pub with_size : ℕ → Option Reply → Option (List ℕ × ℕ)
with_size n none = none
with_size n (some r) = some (r.cells, compare_size * n)

unfoldable pub return_peers_all : PeerList → List ℕ → Option (List ℕ × ℕ)
return_peers_all l cells =
    with_size l.peer_count
      (put_lists l.peers.lists (record { cells = cells; front = 0; back = l.peer_count }))
