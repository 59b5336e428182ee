-- ===== src/Sdk/Stream.antt =====
-- pkg/agentsdk/service/agent_task_manager.go: an agent that gets its tasks over a stream runs one of
-- them at a time. A context is the number of the task that it was made for, and a cancelled one is
-- listed. What a handler's `Execute` returns is an argument of `finish_task`, and of the generated
-- types only the fields stand here that the code reads or sets.
pub mod Outcomes
use vantage_core.Prelude.{
  ℕ, suc, zero, Bool, true, false, List, [], ◌∷◌, Option, none, some, Str, ◌==◌, map, Result, ok,
  err, if◌then◌else◌, not,
}
use vantage_core.Prelude.Assoc
use vantage_core.Prelude.Assoc.{Map}

pub record StreamTask : Type 0 where
  pub id : Str
  pub type : Str
  pub payload : Str

pub data AckStatus : Type 0 where
  started failed finished : AckStatus

pub record TaskAck : Type 0 where
  pub task_id : Str
  pub status : AckStatus
  pub error_message : Str
  pub result : Str

pub record TaskHandler : Type 0 where
  pub task_type : Str
  pub payload_schema : Str

pub record RunningTask : Type 0 where
  pub task : StreamTask
  pub cancel : ℕ

pub record AgentTaskManager : Type 0 where
  pub handlers : Map TaskHandler
  pub current : Option RunningTask
  pub contexts : ℕ
  pub cancelled : List ℕ

-- The loop of `NewAgentTaskManager`.
abbrev handlers_from : List TaskHandler → Map TaskHandler → Map TaskHandler
handlers_from [] m = m
handlers_from (h ∷ hs) m = handlers_from hs (Assoc.put m h.task_type h)

abbrev pub new_agent_task_manager : List TaskHandler → AgentTaskManager
new_agent_task_manager hs = record {
  handlers = handlers_from hs [];
  current = none;
  contexts = 0;
  cancelled = [];
}

pub data HandleError : Type 0 where
  -- with the task that runs, and its type
  is_busy_with : Str → Str → HandleError
  is_not_registered : Str → HandleError

-- The manager afterwards, and the task whose goroutine was started.
pub record Begun : Type 0 where
  pub manager : AgentTaskManager
  pub result : Result HandleError RunningTask

-- A task with a context of its own.
abbrev pub running_in : AgentTaskManager → StreamTask → RunningTask
running_in m task = record { task = task; cancel = m.contexts }

-- The part of `HandleTask` that an idle manager reaches, at the handler of the task's type.
unfoldable pub begin : StreamTask → AgentTaskManager → Option TaskHandler → Begun
begin task m none = record { manager = m; result = err (is_not_registered task.type) }
begin task m (some _) = record {
  manager = record m { current = some (running_in m task); contexts = suc m.contexts };
  result = ok (running_in m task);
}

unfoldable pub handle_task : StreamTask → AgentTaskManager → Begun
handle_task task m = elim m.current [
  | some running ↦ record {
    manager = m;
    result = err (is_busy_with running.task.id running.task.type);
  }
  | none ↦ begin task m (Assoc.get m.handlers task.type)
]

abbrev cleared : ℕ → AgentTaskManager → AgentTaskManager
cleared c m = record m { current = none; cancelled = c ∷ m.cancelled }

unfoldable pub abort_current_task : Str → AgentTaskManager → AgentTaskManager × Bool
abort_current_task id m = elim m.current [
  | none ↦ (m, false)
  | some running ↦ if running.task.id == id then (cleared running.cancel m, true) else (m, false)
]

-- `cancel` is the context of the goroutine that calls.
unfoldable pub clear_task : Str → ℕ → AgentTaskManager → AgentTaskManager × Bool
clear_task id cancel m = elim m.current [
  | none ↦ (m, false)
  | some running ↦ if running.task.id == id then (cleared cancel m, true) else (m, false)
]

unfoldable pub is_task_running : AgentTaskManager → Bool
is_task_running m = elim m.current [ none ↦ false | some _ ↦ true ]

abbrev skill_of : Str × TaskHandler → Str × Str
skill_of (type, h) = (h.task_type, h.payload_schema)

unfoldable pub skills : AgentTaskManager → List (Str × Str)
skills m = map skill_of m.handlers

-- The first acknowledgement of a goroutine.
unfoldable pub started_ack : RunningTask → TaskAck
started_ack r = record { task_id = r.task.id; status = started; error_message = []; result = [] }

abbrev pub last_ack : RunningTask → Result Str Str → TaskAck
last_ack r (err message) = record {
  task_id = r.task.id;
  status = failed;
  error_message = message;
  result = [];
}
last_ack r (ok result) = record {
  task_id = r.task.id;
  status = finished;
  error_message = [];
  result = result;
}

-- The end of the goroutine of `r`, after its handler returned.
unfoldable pub finish_task :
    RunningTask → Result Str Str → AgentTaskManager → AgentTaskManager × List TaskAck
finish_task r returned m =
    let c = clear_task r.task.id r.cancel m in
    if c.1 then (c.0, last_ack r returned ∷ []) else (c.0, [])
