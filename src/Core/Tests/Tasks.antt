-- ===== src/Core/Tests/Tasks.antt =====
-- Tasks of two agents, sent, updated and refused.
use vantage_core.Prelude.{
  ℕ, ◌≡◌, ◌≢◌, ◌↔◌, refl, inl, true, ◌&&◌, List, [], ◌∷◌, Option, some, is_some, Str, lit, ◌==◌,
  ==_iff, err, if◌then◌else◌, arith,
}
use mathlib.Core.Option
use vantage_core.Prelude.Assoc
use vantage_core.Core.Task.{Task, final_status, mission_task_status, status_failed}
use vantage_core.Core.Task.Status.{draft, started, cannot_start, finished}
use vantage_core.Core.Repo.{
  TaskRepoMemory, get_task_by_id, get_active_tasks_by_agent, save_task, stamped,
}
use vantage_core.Core.Dispatcher.{TaskDispatcher, WireTask, Client, send_task, agent_is_busy}
use vantage_core.Core.Dispatcher.OneActive.{OneActive, send_task-OneActive, send_task-blocks}
use vantage_core.Core.Missions.{MissionRegistry, get_stream}
use vantage_core.Core.Missions.TaskManager.{TaskAck, Notice, acked, update_of, on_task_updated}
use vantage_core.Core.Missions.Updates.{
  IsKeyed, find-on_task_updated, notices-on_task_updated, on_task_updated-OneActive, Confirmed,
  MeansFor,
}
use vantage_core.Core.Missions.Conflicts.{on_task_updated-blocks}

abbrev encode : WireTask → Option Str
encode w = some w.id

abbrev sends : Client
sends p = true

abbrev task : Str → Str → ℕ → Task
task id agent status = record {
  id = id;
  agent_id = agent;
  type = lit "move";
  payload = [];
  status = status;
  result = [];
  mission_id = lit "m";
  mission_context_id = [];
  mission_context = lit "ctx";
  received_at = 0;
  start_at = 0;
  to_expire_at = 0;
}

abbrev stored : List Task → List (Str × Task)
stored [] = []
stored (t ∷ ts) = (t.id, t) ∷ stored ts

abbrev having : List Task → TaskDispatcher
having ts = record {
  task_repo = record { ts = stored ts };
  mqtt_client = some sends;
  mqtt_topic_prefix = lit "p";
}

abbrev mover : Task
mover = task (lit "1") (lit "a") started

abbrev next : Task
next = task (lit "2") (lit "a") draft

abbrev done : TaskAck
done = record { task_id = lit "1"; status = finished; error_message = []; result = lit "r" }

abbrev unable : TaskAck
unable = record { task_id = lit "1"; status = cannot_start; error_message = []; result = [] }

abbrev missions : MissionRegistry ℕ
missions = record {
  missions = [];
  streams = (lit "m", 7) ∷ [];
  alloweds = [];
  auth_service = record { reg_tokens = []; auth_tokens = []; mqtt_passwords = [] };
}

one_OneActive : OneActive (having (mover ∷ [])).task_repo
unfolding get_active_tasks_by_agent Assoc.get
one_OneActive = record { at = λ a. unfold vantage_core.Core.Repo.select in ground arith }

one_IsKeyed : IsKeyed (having (mover ∷ [])).task_repo
unfolding get_task_by_id Assoc.get
one_IsKeyed = record { at = λ id t e. ground (arith, ==_iff (lit "1") id) }

send_task-OneActive_example :
    OneActive
      (send_task encode 5
        (having (mover ∷ []))
        (task (lit "2") (lit "b") draft)).dispatcher.task_repo
send_task-OneActive_example =
    send_task-OneActive encode 5 (having (mover ∷ [])) (task (lit "2") (lit "b") draft)
      one_OneActive

send_task-blocks_example :
    (send_task encode 6
      (send_task encode 5 (having []) next).dispatcher
      (task (lit "3") (lit "a") draft)).result
    ≡ err agent_is_busy
unfolding final_status
send_task-blocks_example =
    send_task-blocks encode 5 6 (having []) next (task (lit "3") (lit "a") draft) refl refl

find-on_task_updated_example :
    ((id : Str)
      → get_task_by_id (on_task_updated missions 9 done (having (mover ∷ []))).0.task_repo id ≡ (
          if is_some (get_task_by_id (having (mover ∷ [])).task_repo (lit "1")) && lit "1" == id
          then Option.map (λ t. acked t done) (get_task_by_id (having (mover ∷ [])).task_repo id)
          else get_task_by_id (having (mover ∷ [])).task_repo id))
    × IsKeyed (on_task_updated missions 9 done (having (mover ∷ []))).0.task_repo
find-on_task_updated_example =
    find-on_task_updated missions 9 done (having (mover ∷ [])) one_IsKeyed

abbrev heard : Notice ℕ
heard = record { stream = 7; update = update_of (acked mover done) }

notices-on_task_updated_example :
    ((on_task_updated missions 9 done (having (mover ∷ []))).1 ≡ heard ∷ []) ↔ (
      (lit "m" ≢ [])
      × Confirmed done.status
      × (get_stream missions (lit "m") ≡ some 7)
      × (heard.update.mission_context ≡ mover.mission_context)
      × MeansFor done.status heard.update.status)
unfolding get_task_by_id Assoc.get ◌==◌
notices-on_task_updated_example =
    notices-on_task_updated missions 9 done (having (mover ∷ [])) mover refl refl heard

on_task_updated-OneActive_example :
    OneActive (on_task_updated missions 9 done (having (mover ∷ []))).0.task_repo
unfolding final_status
on_task_updated-OneActive_example =
    on_task_updated-OneActive missions 9 done (having (mover ∷ [])) one_IsKeyed (λ f g h. refl)
      one_OneActive

-- An agent that has finished the task 1 and runs the task 2.
abbrev moved_on : TaskDispatcher
moved_on = having (task (lit "1") (lit "a") finished ∷ task (lit "2") (lit "a") started ∷ [])

abbrev late : TaskAck
late = record { task_id = lit "1"; status = started; error_message = []; result = [] }

on_task_updated-blocks_example :
    (mission_task_status (acked mover unable) ≡ status_failed)
    × ((send_task encode 10 (on_task_updated missions 9 unable (having (mover ∷ []))).0 next).result
        ≡ err agent_is_busy)
unfolding get_task_by_id Assoc.get ◌==◌
on_task_updated-blocks_example =
    on_task_updated-blocks missions 9 unable (having (mover ∷ [])) encode 10 mover next refl refl
      (inl refl) refl
