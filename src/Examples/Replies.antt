-- ===== src/Examples/Replies.antt =====
-- Replies.
use bt_server.Prelude.{ℕ, ◌+◌, ◌∷◌, [], ◌≡◌, refl, some, true, arith, ◌++◌}
use bt_server.Prelude.Decimal.{zd, digits, big_bytes}
use bt_server.Http.{codes}
use bt_server.Replies.{put_peer}
use bt_server.Replies.Selection.{
  shift_up, step_range, pass_buckets, pass_rounds, find_place, select_peers, return_peers_selection,
  return_peers,
}
use bt_server.Replies.Torrent.{cell_bytes, tcp_head, return_peers_for_torrent}
use bt_server.Replies.Framed.{Framed, return_peers_for_torrent-Framed}
use bt_server.Examples.Data.{two_peer_list}
use bt_server.Examples.Peers.{two_peer_list-CountsRight}

abbrev dice : ℕ → ℕ
dice n = 7 + n

-- One of two peers, and a cell behind it.
return_peers_for_torrent-Framed_example :
    Framed two_peer_list 1
      (0 ∷ 7 ∷ [])
      true
      1800
      (return_peers_for_torrent dice two_peer_list 1 (0 ∷ 7 ∷ []) true 1800)
return_peers_for_torrent-Framed_example =
    return_peers_for_torrent-Framed dice two_peer_list (0 ∷ 7 ∷ []) two_peer_list-CountsRight 1 true
      1800 (omega arith) (omega arith) (omega arith) (omega arith)

selection_run :
    return_peers_for_torrent dice two_peer_list 1 (0 ∷ 7 ∷ []) true 1800
    ≡ some (
        codes
          "d8:completei1e10:downloadedi0e10:incompletei1e8:intervali1800e12:min intervali900e5:peers6:"
        ++ (0x7f ∷ 0 ∷ 0 ∷ 1 ∷ 0x1a ∷ 0xe1 ∷ codes "e"))
unfolding shift_up step_range pass_buckets pass_rounds find_place select_peers put_peer
    return_peers_selection return_peers cell_bytes tcp_head return_peers_for_torrent zd digits
    big_bytes
selection_run = refl
