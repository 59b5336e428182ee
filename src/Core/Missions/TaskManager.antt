-- ===== src/Core/Missions/TaskManager.antt =====
-- cmd/core/service/mission_task_manager.go: tasks of missions, and the updates of agents. The manager
-- shares the task repository of the dispatcher.
use vantage_core.Prelude.{ℕ, List, [], ◌∷◌, Option, none, some, Str, ◌==◌, if◌then◌else◌}
use vantage_core.Core.Task.{Task, transient, mission_task_status}
use vantage_core.Core.Task.Status.{TaskStatus, draft}
use vantage_core.Core.Repo.{save_task, get_task_by_id}
use vantage_core.Core.Dispatcher.{TaskDispatcher, WireTask, Sent, send_task}
use vantage_core.Core.Missions.{MissionRegistry, TaskStatusUpdate, get_stream}

-- What the source reads of `missionv1.CreateTask`; its two messages may be nil.
pub record CreateTask : Type 0 where
  pub requirement : Option Str
  pub type : Str
  pub payload : Str
  pub mission_context : Option Str

-- proto/agent/v1: `TaskAck`
pub record TaskAck : Type 0 where
  pub task_id : Str
  pub status : TaskStatus
  pub error_message : Str
  pub result : Str

unfoldable pub mission_task : Str → Str → CreateTask → Str → Str → Task
mission_task task_id mission_id ct agent_id context = record {
  id = task_id;
  agent_id = agent_id;
  type = ct.type;
  payload = ct.payload;
  status = draft;
  result = [];
  mission_id = mission_id;
  mission_context_id = [];
  mission_context = context;
  received_at = 0;
  start_at = 0;
  to_expire_at = 0;
}

-- `task_id` is what `uuid.New()` returns. `none` is the panic of a field read through nil.
unfoldable pub on_create_task :
    (WireTask → Option Str) → ℕ → Str → Str → CreateTask → TaskDispatcher → Option Sent
unfolding mission_task
on_create_task encode now task_id mission_id ct d = elim ct.requirement [
  | none ↦ none
  | some agent_id ↦ elim ct.mission_context [
    | none ↦ none
    | some context ↦
        some (send_task encode now d (mission_task task_id mission_id ct agent_id context))
  ]
]

-- A `Send` on the stream of a mission.
pub record Notice (Stream : Type 0) : Type 0 where
  pub stream : Stream
  pub update : TaskStatusUpdate

abbrev pub update_of : Task → TaskStatusUpdate
update_of t = record { mission_context = t.mission_context; status = mission_task_status t }

abbrev pub acked : Task → TaskAck → Task
acked found ack = record found { status = ack.status; result = ack.result }

module _ {Stream : Type 0} (mr : MissionRegistry Stream) where
  -- The part of `OnTaskUpdated` behind the save.
  unfoldable pub notices : Task → List (Notice Stream)
  notices found =
      if found.mission_id == []
      then []
      else if transient found
      then []
      else elim (get_stream mr found.mission_id) [
        | none ↦ []
        | some s ↦ record { stream = s; update = update_of found } ∷ []
      ]

  unfoldable pub on_task_updated :
      ℕ → TaskAck → TaskDispatcher → TaskDispatcher × List (Notice Stream)
  on_task_updated now ack d = elim (get_task_by_id d.task_repo ack.task_id) [
    | none ↦ (d, [])
    | some found ↦
        let (repo, saved) = save_task now d.task_repo (acked found ack) in
        (record d { task_repo = repo }, notices saved)
  ]
