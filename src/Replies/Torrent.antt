-- ===== src/Replies/Torrent.antt =====
-- `return_peers_for_torrent` of src/trackerlogic.c: the reply to an announce, as bytes. `erval` is
-- OT_CLIENT_REQUEST_INTERVAL_RANDOM.
use bt_server.Prelude.{ℕ, ◌*◌, ◌/◌, List, [], ◌∷◌, ◌++◌, Bool, Option, some, if◌then◌else◌, take}
use bt_server.Prelude.Partial.{◌>>=◌}
use bt_server.Prelude.Decimal.{zd, big_bytes}
use bt_server.Http.{codes}
use bt_server.Clean.{PeerList, sub_size}
use bt_server.Fullscrape.{complete_word, downloaded_word, incomplete_word, net32}
use bt_server.Replies.{compare_size}
use bt_server.Replies.Selection.{return_peers, amount_of}

-- Cells as bytes.
unfoldable pub cell_bytes : List ℕ → List ℕ
cell_bytes [] = []
cell_bytes (c ∷ cells) = big_bytes 6 c ++ cell_bytes cells

-- What `sprintf` prints for a request over TCP.
unfoldable pub tcp_head : PeerList → ℕ → ℕ → List ℕ
tcp_head l amount erval =
    complete_word
    ++ (zd l.seed_count
        ++ (downloaded_word
            ++ (zd l.down_count
                ++ (incomplete_word
                    ++ (zd (sub_size l.peer_count l.seed_count)
                        ++ (codes "e8:intervali"
                            ++ (zd erval
                                ++ (codes "e12:min intervali"
                                    ++ (zd (erval / 2)
                                        ++ (codes "e5:peers"
                                            ++ (zd (compare_size * amount) ++ codes ":")))))))))))

unfoldable pub udp_head : PeerList → ℕ → List ℕ
udp_head l erval = net32 erval ++ (net32 (sub_size l.peer_count l.seed_count) ++ net32 l.seed_count)

abbrev pub head_of : Bool → PeerList → ℕ → ℕ → List ℕ
head_of tcp l amount erval = if tcp then tcp_head l amount erval else udp_head l erval

abbrev pub tail_of : Bool → List ℕ
tail_of tcp = if tcp then codes "e" else []

-- The bytes of the reply; `cells` is what its memory holds for the peers.
unfoldable pub return_peers_for_torrent :
    (ℕ → ℕ) → PeerList → ℕ → List ℕ → Bool → ℕ → Option (List ℕ)
return_peers_for_torrent random l wanted cells tcp erval = do
  (out, size) ← return_peers random l wanted cells
  some (
      head_of tcp l (amount_of l wanted) erval
      ++ (cell_bytes (take (size / compare_size) out) ++ tail_of tcp))
