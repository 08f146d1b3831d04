-- ===== src/Mutex/Lost.antt =====
-- `mutex_workqueue_canceltask` and `mutex_workqueue_pushsuccess` move the head of the list where they mean
-- to move along it.
use bt_server.Prelude.{ℕ, ◌≡◌, refl, List, [], ◌∷◌, ◌++◌, Bool, true, false, ◌==◌, arith}
use bt_server.Prelude.All.{All}
use bt_server.Mutex.{Task, TaskQueue, drop_until, drop_head, canceltask, pushsuccess}

drop_until-found :
    (test : Task → Bool) (before : List Task) (t : Task) (after : List Task)
    → All (λ u. test u ≡ false) before
    → test t ≡ true
    → drop_head (drop_until test (before ++ (t ∷ after))) ≡ after
drop_until-found test [] t after h e = rw e
drop_until-found test (u ∷ us) t after h e = rw (h.0) (drop_until-found test us t after h.1 e)

drop_until-missing :
    (test : Task → Bool) (ts : List Task)
    → All (λ u. test u ≡ false) ts
    → drop_head (drop_until test ts) ≡ []
drop_until-missing test [] h = refl
drop_until-missing test (u ∷ us) h = rw (h.0) (drop_until-missing test us h.1)

abbrev OtherSock : ℕ → Task → Type 0
OtherSock sock t = (t.sock == sock) ≡ false

abbrev OtherId : ℕ → Task → Type 0
OtherId taskid t = (t.taskid == taskid) ≡ false

abbrev pub with_tasks : TaskQueue → List Task → TaskQueue
with_tasks q ts = record q { tasks = ts }

same_number : (n : ℕ) → (n == n) ≡ true
same_number n = ground arith

-- Cancelling the task of a socket, or reporting the success of a task, also takes every task in front
-- of it out of the queue, none of which has that socket and that id; and where no task has the
-- socket, or the id, it empties the queue.
pub tasks_lost :
    (q : TaskQueue) (before after : List Task) (t : Task)
    → All (OtherSock t.sock) before
    → All (OtherId t.taskid) before
    → ((canceltask t.sock (with_tasks q (before ++ (t ∷ after)))).tasks ≡ after)
      × ((pushsuccess t.taskid (with_tasks q (before ++ (t ∷ after)))).tasks ≡ after)
      × ((canceltask t.sock (with_tasks q before)).tasks ≡ [])
      × ((pushsuccess t.taskid (with_tasks q before)).tasks ≡ [])
unfolding canceltask pushsuccess
tasks_lost q before after t socks ids = (
  drop_until-found (λ u. u.sock == t.sock) before t after socks (same_number t.sock),
  drop_until-found (λ u. u.taskid == t.taskid) before t after ids (same_number t.taskid),
  drop_until-missing (λ u. u.sock == t.sock) before socks,
  drop_until-missing (λ u. u.taskid == t.taskid) before ids,
)
