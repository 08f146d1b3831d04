-- ===== src/Mutex/Tasks.antt =====
-- A task goes through the queue: pushed, taken by a worker, answered, and its answer fetched.
use bt_server.Prelude.{
  ℕ, ◌+◌, ◌%◌, ◌^◌, ◌≤◌, ◌<◌, ◌≡◌, ◌≢◌, inl, inr, refl, List, [], ◌∷◌, ◌++◌, true, false, Option,
  none, some, arith, sym, ap, Bool-cases,
}
use mathlib.Core.Path.{subst}
use bt_server.Prelude.All.{All}
use bt_server.Mutex.{Task, TaskQueue, is_wanted, assigned, assign, popped, poptask}

abbrev pub IsUnwanted : ℕ → Task → Type 0
IsUnwanted tasktype t = is_wanted tasktype t ≡ false

-- The list before and after an id was given to the first wanted task.
pub record Assigns (taskid tasktype : ℕ) (ts us : List Task) (t : Task) : Type 0 where
  pub before : List Task
  pub after : List Task
  pub first : Task
  pub split : ts ≡ before ++ (first ∷ after)
  pub result : us ≡ before ++ (t ∷ after)
  pub wanted : is_wanted tasktype first ≡ true
  pub passed : All (IsUnwanted tasktype) before
  pub given : t ≡ record first { taskid = taskid }

abbrev pub Assignment : ℕ → ℕ → List Task → Option (List Task × Task) → Type 0
Assignment taskid tasktype ts none = All (IsUnwanted tasktype) ts
Assignment taskid tasktype ts (some (us, t)) = Assigns taskid tasktype ts us t

assigned-Assignment :
    (taskid tasktype : ℕ) (u : Task) (ts : List Task) (o : Option (List Task × Task))
    → IsUnwanted tasktype u
    → Assignment taskid tasktype ts o
    → Assignment taskid tasktype (u ∷ ts) (assigned u o)
assigned-Assignment taskid tasktype u ts none h a = (h, a)
assigned-Assignment taskid tasktype u ts (some (us, t)) h a = record {
  before = u ∷ a.before;
  after = a.after;
  first = a.first;
  split = ap (λ l. u ∷ l) a.split;
  result = ap (λ l. u ∷ l) a.result;
  wanted = a.wanted;
  passed = (h, a.passed);
  given = a.given;
}

assign-Assignment :
    (taskid tasktype : ℕ) (ts : List Task)
    → Assignment taskid tasktype ts (assign taskid tasktype ts)
unfolding assign
assign-Assignment taskid tasktype [] = tt
assign-Assignment taskid tasktype (u ∷ ts) = elim (Bool-cases (is_wanted tasktype u)) [
  | inl w ↦
      rw (w, Assignment)
        (record {
          before = [];
          after = ts;
          first = u;
          split = refl;
          result = refl;
          wanted = w;
          passed = tt;
          given = refl;
        })
  | inr w ↦
      rw (w, Assignment)
        (assigned-Assignment taskid tasktype u ts (assign taskid tasktype ts) w
          (assign-Assignment taskid tasktype ts))
]

-- The ids that have been given out are at most the last one.
abbrev pub IdsBelow : TaskQueue → Type 0
IdsBelow q = All (λ t. t.taskid ≤ q.next_free_taskid) q.tasks

-- `mutex_workqueue_poptask` waits exactly where no task of the class is unassigned; otherwise it takes
-- the first such task, gives it the next id, which no other task has, and leaves all others alone.
abbrev pub Pops : ℕ → TaskQueue → Option (TaskQueue × Task) → Type 0
Pops tasktype q none = All (IsUnwanted tasktype) q.tasks
Pops tasktype q (some (q', t)) =
    Assigns (q.next_free_taskid + 1) tasktype q.tasks q'.tasks t
    × (q'.next_free_taskid ≡ q.next_free_taskid + 1)
    × All (λ u. u.taskid ≢ q.next_free_taskid + 1) q.tasks
    × IdsBelow q'

ids_ne : (n : ℕ) (ts : List Task) → All (λ t. t.taskid ≤ n) ts → All (λ t. t.taskid ≢ n + 1) ts
ids_ne n [] h = tt
ids_ne n (t ∷ ts) h = (omega arith, ids_ne n ts h.1)

weaker_ids : (n : ℕ) (ts : List Task) → All (λ t. t.taskid ≤ n) ts → All (λ t. t.taskid ≤ n + 1) ts
weaker_ids n [] h = tt
weaker_ids n (t ∷ ts) h = (omega arith, weaker_ids n ts h.1)

replaced_ids :
    (n : ℕ) (before after : List Task) (u t : Task)
    → All (λ x. x.taskid ≤ n) (before ++ (u ∷ after))
    → t.taskid ≤ n + 1
    → All (λ x. x.taskid ≤ n + 1) (before ++ (t ∷ after))
replaced_ids n [] after u t h k = (k, weaker_ids n after h.1)
replaced_ids n (x ∷ before) after u t h k = (omega arith, replaced_ids n before after u t h.1 k)

popped-Pops :
    (tasktype : ℕ) (q : TaskQueue) (o : Option (List Task × Task))
    → IdsBelow q
    → Assignment (q.next_free_taskid + 1) tasktype q.tasks o
    → Pops tasktype q (popped q (q.next_free_taskid + 1) o)
popped-Pops tasktype q none h a = a
popped-Pops tasktype q (some (us, t)) h a =
    let given : t.taskid ≡ q.next_free_taskid + 1 = ap (λ (x : Task). x.taskid) a.given in
    (
      a,
      refl,
      ids_ne q.next_free_taskid q.tasks h,
      subst (All (λ x. x.taskid ≤ q.next_free_taskid + 1)) (sym a.result) (
          replaced_ids q.next_free_taskid a.before a.after a.first t
            (subst (All (λ x. x.taskid ≤ q.next_free_taskid)) a.split h) (omega arith)),
    )

-- Taking a task: `mutex_workqueue_poptask` waits exactly where every task of the class is assigned;
-- otherwise it takes the first unassigned one, gives it an id that no other task has, and leaves all
-- others alone, while the ids do not wrap.
pub poptask-Pops :
    (tasktype : ℕ) (q : TaskQueue)
    → IdsBelow q
    → q.next_free_taskid + 1 < 2 ^ 64
    → Pops tasktype q (poptask tasktype q)
unfolding poptask
poptask-Pops tasktype q h room =
    let next : (q.next_free_taskid + 1) % 2 ^ 64 ≡ q.next_free_taskid + 1 = omega arith in
    rw next (
      popped-Pops tasktype q (assign (q.next_free_taskid + 1) tasktype q.tasks) h
        (assign-Assignment (q.next_free_taskid + 1) tasktype q.tasks))
