-- ===== src/Examples/Network.antt =====
-- A tree of networks with one peer.
use bt_server.Prelude.{ℕ, ◌≡◌, refl, List, [], ◌∷◌, true, ltb, arith}
use bt_server.Peers.Weight.{sum_over}
use bt_server.Network.{
  Node, absent, levels, digit, stat_increase_network_count, stats_shift_down_network_count,
}
use bt_server.Network.Counts.{
  count_at, Increased, stat_increase_network_count-Increased, absent-IsFull,
}
use bt_server.Network.Shifting.{shifted_sum, Halved, stats_shift_down_network_count-Halved}

abbrev a_host : List ℕ
a_host = 192 ∷ 168 ∷ 17 ∷ 5 ∷ []

abbrev a_neighbour : List ℕ
a_neighbour = 192 ∷ 168 ∷ 17 ∷ 9 ∷ []

abbrev tree : Node levels
tree = (stat_increase_network_count (λ n. true) levels 0 a_host (absent levels)).0

tree_counts : count_at levels 0 a_neighbour tree ≡ 1
unfolding count_at stat_increase_network_count digit
tree_counts = refl

stat_increase_network_count-Increased_example :
    Increased levels 0 a_host
      (absent levels)
      (stat_increase_network_count (λ n. ltb 1 n) levels 0 a_host (absent levels))
stat_increase_network_count-Increased_example =
    stat_increase_network_count-Increased (λ n. ltb 1 n) levels 0 a_host (absent levels)
      (absent-IsFull levels)

stats_shift_down_network_count-Halved_example :
    Halved 1 levels tree (stats_shift_down_network_count levels 1 tree)
unfolding shifted_sum sum_over stat_increase_network_count digit
stats_shift_down_network_count-Halved_example =
    stats_shift_down_network_count-Halved 1 levels tree (omega arith)
