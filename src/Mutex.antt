-- ===== src/Mutex.antt =====
-- src/ot_mutex.c, include/ot_mutex.h: the locks of the torrent buckets, and the queue of tasks between
-- the connections and the workers. Every function runs under its mutex, so it is one step.
pub mod Locks
pub mod Tasks
pub mod Round
pub mod Lost
use bt_server.Prelude.{
  ℕ, zero, suc, ◌+◌, ◌-◌, ◌%◌, ◌^◌, List, [], ◌∷◌, ◌++◌, Bool, true, false, not, ◌&&◌, ◌||◌, Option,
  none, some, bit_and, ltb, ◌==◌, if◌then◌else◌, length,
}

-- OT_MAX_THREADS
abbrev pub max_threads : ℕ
max_threads = 64

abbrev pub is_locked : ℕ → List ℕ → Bool
is_locked bucket [] = false
is_locked bucket (b ∷ locks) = b == bucket || is_locked bucket locks

-- `bucket_check( bucket ) == 0`
unfoldable pub bucket_check : ℕ → List ℕ → Bool
bucket_check bucket locks = not (length locks == max_threads) && not (is_locked bucket locks)

-- `bucket_push`
abbrev pub bucket_push : ℕ → List ℕ → List ℕ
bucket_push bucket locks = locks ++ (bucket ∷ [])

-- `bucket_remove`, which leaves the list as it is where the bucket was never locked.
unfoldable pub bucket_remove : ℕ → List ℕ → List ℕ
bucket_remove bucket [] = []
bucket_remove bucket (b ∷ locks) = if b == bucket then locks else b ∷ bucket_remove bucket locks

-- `mutex_bucket_lock`: the list with the lock, or `none` while the caller has to wait.
unfoldable pub bucket_lock : ℕ → List ℕ → Option (List ℕ)
bucket_lock bucket locks =
    if bucket_check bucket locks then some (bucket_push bucket locks) else none

-- TASK_DONE and TASK_CLASS_MASK
abbrev pub task_done : ℕ
task_done = 0x0f00

abbrev pub task_class_mask : ℕ
task_class_mask = 0x0f00

-- `struct ot_task`; `iovec` stands for the pointer.
pub record Task : Type 0 where
  pub taskid : ℕ
  pub tasktype : ℕ
  pub sock : ℕ
  pub iovec_entries : ℕ
  pub iovec : ℕ

-- `tasklist` and `next_free_taskid`
pub record TaskQueue : Type 0 where
  pub tasks : List Task
  pub next_free_taskid : ℕ

-- `mutex_workqueue_pushtask`; `granted` tells whether `malloc` succeeds, the result whether it returns 0.
unfoldable pub pushtask : Bool → ℕ → ℕ → TaskQueue → TaskQueue × Bool
pushtask granted sock tasktype q =
    if granted
    then (
      record q {
        tasks =
            q.tasks
            ++ (record {
              taskid = 0;
              tasktype = tasktype;
              sock = sock;
              iovec_entries = 0;
              iovec = 0;
            }
                ∷ []);
      },
      true,
    )
    else (q, false)

-- `*task = (*task)->next` with `task` at the head of the list: what is passed over leaves the list.
abbrev pub drop_until : (Task → Bool) → List Task → List Task
drop_until test [] = []
drop_until test (t ∷ ts) = if test t then t ∷ ts else drop_until test ts

abbrev pub drop_head : List Task → List Task
drop_head [] = []
drop_head (t ∷ ts) = ts

-- `mutex_workqueue_canceltask`
unfoldable pub canceltask : ℕ → TaskQueue → TaskQueue
canceltask sock q = record q { tasks = drop_head (drop_until (λ t. t.sock == sock) q.tasks) }

-- `mutex_workqueue_pushsuccess`
unfoldable pub pushsuccess : ℕ → TaskQueue → TaskQueue
pushsuccess taskid q = record q { tasks = drop_head (drop_until (λ t. t.taskid == taskid) q.tasks) }

-- An unassigned task of the class that the worker wants.
abbrev pub is_wanted : ℕ → Task → Bool
is_wanted tasktype t = bit_and task_class_mask t.tasktype == tasktype && t.taskid == 0

abbrev pub assigned : Task → Option (List Task × Task) → Option (List Task × Task)
assigned t none = none
assigned t (some (ts, found)) = some (t ∷ ts, found)

-- The first wanted task gets the id.
unfoldable pub assign : ℕ → ℕ → List Task → Option (List Task × Task)
assign taskid tasktype [] = none
assign taskid tasktype (t ∷ ts) =
    if is_wanted tasktype t
    then some (record t { taskid = taskid } ∷ ts, record t { taskid = taskid })
    else assigned t (assign taskid tasktype ts)

abbrev pub popped : TaskQueue → ℕ → Option (List Task × Task) → Option (TaskQueue × Task)
popped q taskid none = none
popped q taskid (some (ts, t)) = some (record { tasks = ts; next_free_taskid = taskid }, t)

-- `mutex_workqueue_poptask`: the assigned task, with its id and its type, or `none` while the worker waits.
unfoldable pub poptask : ℕ → TaskQueue → Option (TaskQueue × Task)
poptask tasktype q =
    let taskid = (q.next_free_taskid + 1) % 2 ^ 64 in
    popped q taskid (assign taskid tasktype q.tasks)

-- `mutex_workqueue_pushresult`: whether the task was still there, with its result stored.
unfoldable pub store_result : ℕ → ℕ → ℕ → List Task → List Task × Bool
store_result taskid entries iovec [] = ([], false)
store_result taskid entries iovec (t ∷ ts) =
    let (rest, done) = store_result taskid entries iovec ts in
    if t.taskid == taskid
    then (record t { iovec_entries = entries; iovec = iovec; tasktype = task_done } ∷ ts, true)
    else (t ∷ rest, done)

unfoldable pub pushresult : ℕ → ℕ → ℕ → TaskQueue → TaskQueue × Bool
pushresult taskid entries iovec q =
    let (ts, done) = store_result taskid entries iovec q.tasks in (record q { tasks = ts }, done)

-- `mutex_workqueue_popresult`: the first finished task leaves the list; `none` stands for the socket -1.
unfoldable pub take_done : List Task → List Task × Option Task
take_done [] = ([], none)
take_done (t ∷ ts) =
    let (rest, found) = take_done ts in
    if t.tasktype == task_done then (ts, some t) else (t ∷ rest, found)

unfoldable pub popresult : TaskQueue → TaskQueue × Option Task
popresult q = let (ts, found) = take_done q.tasks in (record q { tasks = ts }, found)
