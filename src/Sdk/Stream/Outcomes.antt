-- ===== src/Sdk/Stream/Outcomes.antt =====
-- How the tasks of pkg/agentsdk/service/agent_task_manager.go begin and end.
use vantage_core.Prelude.{
  ℕ, suc, ◌+◌, ◌≡◌, refl, Bool, true, false, List, [], ◌∷◌, Option, none, some, Str, ◌==◌, ==_iff,
  Result, ok, err, if◌then◌else◌, arith, ◌↔◌, is_some,
}
use vantage_core.Prelude.Assoc
use vantage_core.Sdk.Stream.{
  StreamTask, TaskAck, started, failed, finished, RunningTask, AgentTaskManager, handle_task, begin,
  abort_current_task, clear_task, finish_task, started_ack, is_task_running, running_in, last_ack,
}

-- What happens to a manager: a task comes in, an abort comes in, or the goroutine of a task starts or
-- gets to the end of its handler.
pub data Happening : Type 0 where
  comes : StreamTask → Happening
  aborts : Str → Happening
  starts : RunningTask → Happening
  returns : RunningTask → Result Str Str → Happening

unfoldable pub after : Happening → AgentTaskManager → AgentTaskManager
after (comes task) m = (handle_task task m).manager
after (aborts id) m = (abort_current_task id m).0
after (starts r) m = m
after (returns r returned) m = (finish_task r returned m).0

unfoldable pub after_all : List Happening → AgentTaskManager → AgentTaskManager
after_all [] m = m
after_all (h ∷ hs) m = after_all hs (after h m)

abbrev one_if : Bool → ℕ
one_if b = if b then 1 else 0

-- Whether the manager runs the task `id`, as a number.
unfoldable pub held : Str → AgentTaskManager → ℕ
held id m = elim m.current [ none ↦ 0 | some r ↦ one_if (r.task.id == id) ]

-- The acknowledgements of `id` that are final.
abbrev pub final_acks : Str → List TaskAck → ℕ
final_acks id [] = 0
final_acks id (a ∷ rest) =
    (elim a.status [
      | started ↦ 0
      | failed ↦ one_if (a.task_id == id)
      | finished ↦ one_if (a.task_id == id)
    ])
    + final_acks id rest

unfoldable pub begun : Str → Happening → AgentTaskManager → ℕ
begun id (comes task) m = elim (handle_task task m).result [
  | err _ ↦ 0
  | ok r ↦ one_if (r.task.id == id)
]
begun id (aborts _) m = 0
begun id (starts _) m = 0
begun id (returns _ _) m = 0

unfoldable pub ended : Str → Happening → AgentTaskManager → ℕ
ended id (comes task) m = 0
ended id (aborts i) m = if (abort_current_task i m).1 then one_if (i == id) else 0
ended id (starts r) m = final_acks id (started_ack r ∷ [])
ended id (returns r returned) m = final_acks id (finish_task r returned m).1

unfoldable pub all_begun : Str → List Happening → AgentTaskManager → ℕ
all_begun id [] m = 0
all_begun id (h ∷ hs) m = begun id h m + all_begun id hs (after h m)

unfoldable pub all_ended : Str → List Happening → AgentTaskManager → ℕ
all_ended id [] m = 0
all_ended id (h ∷ hs) m = ended id h m + all_ended id hs (after h m)

held-abort :
    (id i : Str) (m : AgentTaskManager) (c : Option RunningTask)
    → m.current ≡ c
    → held id m ≡ ended id (aborts i) m + held id (after (aborts i) m)
unfolding held ended after abort_current_task
held-abort id i m none e = ground arith
held-abort id i m (some r) e = ground (arith, ==_iff r.task.id i, ==_iff r.task.id id, ==_iff i id)

held-returns :
    (id : Str) (r : RunningTask) (returned : Result Str Str) (m : AgentTaskManager)
    (c : Option RunningTask)
    → m.current ≡ c
    → held id m ≡ ended id (returns r returned) m + held id (after (returns r returned) m)
unfolding held ended after clear_task finish_task
held-returns id r (ok b) m none e = ground arith
held-returns id r (err b) m none e = ground arith
held-returns id r (ok b) m (some q) e =
    ground (arith, ==_iff q.task.id r.task.id, ==_iff q.task.id id, ==_iff r.task.id id)
held-returns id r (err b) m (some q) e =
    ground (arith, ==_iff q.task.id r.task.id, ==_iff q.task.id id, ==_iff r.task.id id)

held-after :
    (id : Str) (h : Happening) (m : AgentTaskManager)
    → held id m + begun id h m ≡ ended id h m + held id (after h m)
unfolding held begun ended after handle_task begin started_ack
held-after id (comes task) m = ground arith
held-after id (aborts i) m = omega (arith, held-abort id i m m.current refl)
held-after id (starts r) m = ground arith
held-after id (returns r returned) m = omega (arith, held-returns id r returned m m.current refl)

-- For every task id, whatever comes in and in whatever order: the runs of the task that the manager
-- held or accepted are as many as those that ended, by one abort that was granted or by one
-- acknowledgement that it failed or finished, and the one that it still holds.
pub held-after_all :
    (id : Str) (hs : List Happening) (m : AgentTaskManager)
    → held id m + all_begun id hs m ≡ all_ended id hs m + held id (after_all hs m)
unfolding all_begun all_ended after_all
held-after_all id [] m = omega arith
held-after_all id (h ∷ hs) m = omega (arith, held-after id h m, held-after_all id hs (after h m))

-- A task is accepted, with a new context, exactly when the manager is idle and has a handler of its type.
pub handle_task-eq-ok_iff :
    (task : StreamTask) (m : AgentTaskManager)
    → ((handle_task task m).result ≡ ok (running_in m task))
      ↔ (is_task_running m ≡ false) × (is_some (Assoc.get m.handlers task.type) ≡ true)
unfolding handle_task begin is_task_running
handle_task-eq-ok_iff task m = ground arith

-- When a task is aborted and comes in again before the goroutine of its first run has ended, the end of
-- the first run acknowledges the task as finished and makes the manager idle, although the context of
-- the second run was never cancelled, and the end of the second run acknowledges nothing.
pub finish_task-steals :
    (task : StreamTask) (m : AgentTaskManager) (first second : Str)
    → is_task_running m ≡ false
    → is_some (Assoc.get m.handlers task.type) ≡ true
    → let old = running_in m task in
      let again = after (comes task) (after (aborts task.id) (after (comes task) m)) in
      let stolen = finish_task old (ok first) again in
      ((handle_task task (after (aborts task.id) (after (comes task) m))).result
        ≡ ok (record { task = task; cancel = suc m.contexts }))
      × (stolen.1 ≡ last_ack old (ok first) ∷ [])
      × (is_task_running stolen.0 ≡ false)
      × (stolen.0.cancelled ≡ m.contexts ∷ m.contexts ∷ m.cancelled)
      × ((finish_task (record { task = task; cancel = suc m.contexts }) (ok second) stolen.0).1
          ≡ [])
unfolding after handle_task begin abort_current_task clear_task finish_task is_task_running
finish_task-steals task m first second idle known = ground (arith, ==_iff task.id task.id)
