-- ===== src/Mutex/Round.antt =====
-- A task's whole way through the queue.
use bt_server.Prelude.{
  ℕ, ◌+◌, ◌%◌, ◌^◌, ◌≤◌, ◌<◌, ◌≡◌, refl, List, [], ◌∷◌, ◌++◌, Bool, true, false, some, arith,
  bit_and, ◌==◌, ap,
}
use bt_server.Prelude.All.{All}
use bt_server.Mutex.{
  Task, TaskQueue, pushtask, is_wanted, assign, poptask, store_result, pushresult, take_done,
  popresult, task_done, task_class_mask,
}
use bt_server.Mutex.Tasks.{IsUnwanted, IdsBelow}

abbrev new_task : ℕ → ℕ → Task
new_task tasktype sock = record {
  taskid = 0;
  tasktype = tasktype;
  sock = sock;
  iovec_entries = 0;
  iovec = 0;
}

abbrev IsUndone : Task → Type 0
IsUndone t = (t.tasktype == task_done) ≡ false

assign_last :
    (taskid class : ℕ) (ts : List Task) (t : Task)
    → All (IsUnwanted class) ts
    → is_wanted class t ≡ true
    → assign taskid class (ts ++ (t ∷ []))
      ≡ some (ts ++ (record t { taskid = taskid } ∷ []), record t { taskid = taskid })
unfolding assign
assign_last taskid class [] t h w = rw w
assign_last taskid class (u ∷ us) t h w = rw (h.0) (rw (assign_last taskid class us t h.1 w))

store_last :
    (n entries iovec : ℕ) (ts : List Task) (t : Task)
    → All (λ u. u.taskid ≤ n) ts
    → t.taskid ≡ n + 1
    → store_result (n + 1) entries iovec (ts ++ (t ∷ [])) ≡ (
      ts ++ (record t { iovec_entries = entries; iovec = iovec; tasktype = task_done } ∷ []),
      true,
    )
unfolding store_result
store_last n entries iovec [] t h e = ground arith
store_last n entries iovec (u ∷ us) t h e = ground (arith, store_last n entries iovec us t h.1 e)

take_last :
    (ts : List Task) (t : Task)
    → All IsUndone ts
    → t.tasktype ≡ task_done
    → take_done (ts ++ (t ∷ [])) ≡ (ts, some t)
unfolding take_done
take_last [] t h e = ground arith
take_last (u ∷ us) t h e = ground (arith, take_last us t h.1 e)

-- Where no task of the class waits and none is finished, a task that is pushed is the one that the next
-- worker takes; the result that the worker stores under the id it was given is the one that is fetched,
-- with the socket that pushed the task; and then the queue holds what it held before.
pub task_round :
    (q : TaskQueue) (sock tasktype entries iovec : ℕ)
    → All (IsUnwanted (bit_and task_class_mask tasktype)) q.tasks
    → All IsUndone q.tasks
    → IdsBelow q
    → q.next_free_taskid + 1 < 2 ^ 64
    → let class = bit_and task_class_mask tasktype in
      let id = q.next_free_taskid + 1 in
      let pushed = (pushtask true sock tasktype q).0 in
      let task : Task = record (new_task tasktype sock) { taskid = id } in
      let taken : TaskQueue = record { tasks = q.tasks ++ (task ∷ []); next_free_taskid = id } in
      let answered = pushresult id entries iovec taken in
      let done : Task = record task {
        iovec_entries = entries;
        iovec = iovec;
        tasktype = task_done;
      } in
      (poptask class pushed ≡ some (taken, task))
      × (answered.1 ≡ true)
      × (popresult answered.0 ≡ (record q { next_free_taskid = id }, some done))
unfolding pushtask poptask pushresult popresult
task_round q sock tasktype entries iovec unwanted undone ids room =
    let class = bit_and task_class_mask tasktype in
    let id = q.next_free_taskid + 1 in
    let task : Task = record (new_task tasktype sock) { taskid = id } in
    let next : (q.next_free_taskid + 1) % 2 ^ 64 ≡ q.next_free_taskid + 1 = omega arith in
    let stored = store_last q.next_free_taskid entries iovec q.tasks task ids refl in
    (
      rw (next, assign_last id class q.tasks (new_task tasktype sock) unwanted (ground arith)),
      ap (λ (r : List Task × Bool). r.1) stored,
      rw (
        stored,
        take_last q.tasks
            (record task { iovec_entries = entries; iovec = iovec; tasktype = task_done }) undone
            refl,
      ),
    )
