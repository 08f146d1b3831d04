-- ===== src/Http/Delivery.antt =====
-- The loop of `http_handle_stats` ends, and which thread gets which task.
use Prim.Native.Nat.{bit_and}
use bt_server.Prelude.{ℕ, ◌≤◌, ◌<◌, ◌≡◌, List, Bool, true, false, ◌||◌, ◌==◌, ltb, length, ◌⊎◌}
use bt_server.Mutex.{task_class_mask}
use bt_server.Http.Queries.{Query, Stands}
use bt_server.Http.Ends.{Ends}
use bt_server.Http.Stats.{
  task_stats, task_fullscrape, task_fullscrape_trackerstate, Asked, StatsAnswer, by_fullscrape,
  by_stats, at_once, Features,
}

-- `tasktype & TASK_CLASS_MASK`
abbrev pub class_of : ℕ → ℕ
class_of task = bit_and task task_class_mask

-- The modes are tasks of the thread of the statistics, simple ones, or the "statedump".
abbrev pub is_mode : ℕ → Bool
is_mode n = (class_of n == task_stats) || ltb n 0x100 || (n == task_fullscrape_trackerstate)

abbrev pub is_format : ℕ → Bool
is_format n = class_of n == task_fullscrape

abbrev pub AskedRight : Asked → Type 0
AskedRight a = (is_mode a.mode ≡ true) × ((is_format a.format ≡ true) ⊎ (a.format ≡ 0))

module _ (q : Query) where
  abbrev pub AskedIn : ℕ → Asked × List ℕ → Type 0
  AskedIn n (a, rest) = AskedRight a × Stands q rest × (length rest ≤ n)

  abbrev pub RoundIn : ℕ → Bool × (Asked × List ℕ) → Type 0
  RoundIn n (true, (a, rest)) = AskedRight a × Stands q rest × (length rest < n)
  RoundIn n (false, (a, rest)) = AskedRight a

-- Whether a task has the class that its thread takes from the queue, or is the 0 of no format.
abbrev pub Delivered : Features → StatsAnswer → Type 0
Delivered f (by_fullscrape task) =
    (f.fullscrapes ≡ true) × ((class_of task ≡ task_fullscrape) ⊎ (task ≡ 0))
Delivered f (by_stats task) = class_of task ≡ task_stats
Delivered f (at_once mode) = (mode < 0x100) ⊎ (mode ≡ task_fullscrape_trackerstate)
