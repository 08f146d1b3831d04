-- ===== src/Network.antt =====
-- src/ot_stats.c: the tree in which it counts the peers of a network by the first 28 bits of their
-- address, four bits to a level, and its slow halving. Built without WANT_V6. The union of a node is a
-- node of counters at the last level, and of children above it; a missing node is `none`.
pub mod Counts
pub mod Shifting
use Prim.Native.Nat.{bit_and, bit_xor}
use bt_server.Prelude.{
  ℕ, zero, suc, ◌+◌, ◌/◌, ◌%◌, ◌^◌, List, [], ◌∷◌, Bool, true, false, Option, none, some, ◌==◌,
  if◌then◌else◌, get_or, set, replicate,
}
use bt_server.Clean.{add_size}

-- STATS_NETWORK_NODE_COUNT
abbrev pub node_count : ℕ
node_count = 16

-- `stats_network_node *`, with so many levels below it
abbrev pub Node : ℕ → Type 0
Node zero = Option (List ℕ)
Node (suc n) = Option (List (Node n))

abbrev pub absent : (n : ℕ) → Node n
absent zero = none
absent (suc n) = none

-- STATS_NETWORK_NODE_MAXDEPTH is 24, six levels of four bits
abbrev pub levels : ℕ
levels = 6

-- `__LDR`
unfoldable pub digit : List ℕ → ℕ → ℕ
digit ip depth = get_or ip (depth / 8) 0 / 2 ^ bit_and (bit_xor depth 4) 4 % 16

-- The new node where none is there, if there is memory.
abbrev pub made : {A : Type 0} → Bool → A → Option (List A) → Option (List A)
made grant a (some cells) = some cells
made true a none = some (replicate node_count a)
made false a none = none

abbrev pub count_in : ℕ → Option (List ℕ) → Option (List ℕ) × Bool
count_in i none = (none, false)
count_in i (some counters) = (some (set counters i (add_size (get_or counters i 0) 1)), true)

abbrev pub in_child :
    {A : Type 0} → ℕ → A → (A → A × Bool) → Option (List A) → Option (List A) × Bool
in_child i a f none = (none, false)
in_child i a f (some children) =
    let below = f (get_or children i a) in (some (set children i below.0), below.1)

module _ (grants : ℕ → Bool) where
  -- `stat_increase_network_count`, the node that it leaves and whether it answers 0.
  unfoldable pub stat_increase_network_count : (n depth : ℕ) → List ℕ → Node n → Node n × Bool
  stat_increase_network_count zero depth ip node =
      count_in (digit ip depth) (made (grants 0) 0 node)
  stat_increase_network_count (suc n) depth ip node =
      in_child (digit ip depth) (absent n) (stat_increase_network_count n (depth + 4) ip)
        (made (grants (suc n)) (absent n) node)

-- The sum `rest`, an `int`, as the number of its 32 bits, and what is left of the counters. A sum of
-- children that leaves the `int` is undefined in C, and wraps here.
abbrev pub add_rest : ℕ → ℕ → ℕ
add_rest a b = (a + b) % 2 ^ 32

abbrev pub shift_counters : ℕ → List ℕ → List ℕ × ℕ
shift_counters shift [] = ([], 0)
shift_counters shift (c ∷ cs) =
    let rest = shift_counters shift cs in
    ((c / 2 ^ shift) ∷ rest.0, add_rest (c / 2 ^ shift) rest.1)

abbrev pub shift_children : {A : Type 0} → (A → A × ℕ) → List A → List A × ℕ
shift_children f [] = ([], 0)
shift_children f (c ∷ cs) =
    let first = f c in let rest = shift_children f cs in (first.0 ∷ rest.0, add_rest first.1 rest.1)

-- A node with no rest is freed.
abbrev pub freed : {A : Type 0} → List A × ℕ → Option (List A) × ℕ
freed (cells, rest) = (if rest == 0 then none else some cells, rest)

-- `stats_shift_down_network_count`
unfoldable pub stats_shift_down_network_count : (n : ℕ) → ℕ → Node n → Node n × ℕ
stats_shift_down_network_count zero shift none = (none, 0)
stats_shift_down_network_count zero shift (some counters) = freed (shift_counters shift counters)
stats_shift_down_network_count (suc n) shift none = (none, 0)
stats_shift_down_network_count (suc n) shift (some children) =
    freed (shift_children (stats_shift_down_network_count n shift) children)
