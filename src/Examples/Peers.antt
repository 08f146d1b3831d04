-- ===== src/Examples/Peers.antt =====
-- Peer lists.
use bt_server.Prelude.{refl, [], ◌∷◌, arith}
use bt_server.Prelude.Int.{pos}
use bt_server.Peers.Weight.{seed, sum_over}
use bt_server.Peers.Census.{IsShaped}
use bt_server.Peers.Redistribute.{redistribute}
use bt_server.Peers.Redistribute.Census.{Redistributed, redistribute-Redistributed}
use bt_server.Clean.{clean_single_bucket, clean_single_torrent}
use bt_server.Clean.Bucket.{CleanedRight, clean_single_bucket-CleanedRight}
use bt_server.Clean.Counters.{CountsRight, Trimmed, Answers, clean_single_torrent-Trimmed}
use bt_server.Examples.Data.{seeder, leecher, two_peers, two_peer_list, all_grants}

two_peers-IsShaped : IsShaped two_peers
two_peers-IsShaped = record { some_list = omega arith; single = λ e. refl }

redistribute-Redistributed_example :
    Redistributed two_peers seed (redistribute all_grants 600 two_peers)
redistribute-Redistributed_example =
    redistribute-Redistributed all_grants 600 two_peers seed two_peers-IsShaped

clean_single_bucket-CleanedRight_example :
    CleanedRight
      (pos 10)
      (seeder ∷ leecher ∷ [])
      (clean_single_bucket (pos 10) (seeder ∷ leecher ∷ []))
clean_single_bucket-CleanedRight_example =
    clean_single_bucket-CleanedRight (pos 10) (seeder ∷ leecher ∷ [])

pub two_peer_list-CountsRight : CountsRight two_peer_list
unfolding sum_over
two_peer_list-CountsRight = record {
  shaped = two_peers-IsShaped;
  peers_right = refl;
  seeds_right = refl;
  small = omega arith;
}

clean_single_torrent-Trimmed_example :
    Answers (λ b l. Trimmed two_peer_list l) (clean_single_torrent all_grants 110 two_peer_list)
clean_single_torrent-Trimmed_example =
    clean_single_torrent-Trimmed all_grants 110 two_peer_list two_peer_list-CountsRight
