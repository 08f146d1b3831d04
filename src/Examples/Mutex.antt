-- ===== src/Examples/Mutex.antt =====
-- Locks and tasks.
use bt_server.Prelude.{◌≡◌, refl, [], ◌∷◌, true, arith}
use bt_server.Mutex.{
  Task, TaskQueue, bucket_lock, bucket_check, canceltask, pushsuccess, poptask, pushresult,
}
use bt_server.Mutex.Locks.{Exclusive, LockedFor, holds, bucket_lock-LockedFor}
use bt_server.Mutex.Tasks.{Pops, poptask-Pops}
use bt_server.Mutex.Round.{task_round}
use bt_server.Mutex.Lost.{with_tasks, tasks_lost}

no_locks-Exclusive : Exclusive []
unfolding holds
no_locks-Exclusive = record { once = λ c. omega arith; few = omega arith }

bucket_lock-LockedFor_example : LockedFor 7 [] (7 ∷ [])
unfolding bucket_lock bucket_check
bucket_lock-LockedFor_example = bucket_lock-LockedFor 7 [] (7 ∷ []) no_locks-Exclusive refl

abbrev waiting : Task
waiting = record { taskid = 0; tasktype = 0x0101; sock = 4; iovec_entries = 0; iovec = 0 }

abbrev running : Task
running = record { taskid = 2; tasktype = 0x0200; sock = 5; iovec_entries = 0; iovec = 0 }

abbrev queue : TaskQueue
queue = record { tasks = running ∷ waiting ∷ []; next_free_taskid = 2 }

poptask-Pops_example : Pops 0x0100 queue (poptask 0x0100 queue)
poptask-Pops_example = poptask-Pops 0x0100 queue (omega arith) (omega arith)

abbrev busy : TaskQueue
busy = record { tasks = running ∷ []; next_free_taskid = 2 }

task_round_example :
    (pushresult 3 1 8 (record {
      tasks =
          running
          ∷ record { taskid = 3; tasktype = 0x0101; sock = 4; iovec_entries = 0; iovec = 0 }
          ∷ [];
      next_free_taskid = 3;
    })).1
    ≡ true
task_round_example =
    (task_round busy 4 0x0101 1 8 (refl, tt) (refl, tt) (omega arith) (omega arith)).1

tasks_lost_example :
    ((canceltask 4 (with_tasks queue (running ∷ waiting ∷ []))).tasks ≡ [])
    × ((pushsuccess 0 (with_tasks queue (running ∷ waiting ∷ []))).tasks ≡ [])
    × ((canceltask 4 (with_tasks queue (running ∷ []))).tasks ≡ [])
    × ((pushsuccess 0 (with_tasks queue (running ∷ []))).tasks ≡ [])
tasks_lost_example = tasks_lost queue (running ∷ []) [] waiting (refl, tt) (refl, tt)
