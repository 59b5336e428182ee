-- ===== src/Core/Api/Tasks.antt =====
-- cmd/core/controller/task_connect.go: the task service. `Struct` is the type of protobuf structs, and
-- `Codec` what the source uses of encoding/json and structpb.
pub mod Created
use vantage_core.Prelude.{
  ℕ, Bool, true, false, ◌||◌, List, [], ◌∷◌, Option, none, some, Str, ◌==◌, nat_eq, map, Result, ok,
  err, if◌then◌else◌,
}
use vantage_core.Core.Task.{Task}
use vantage_core.Core.Task.Status.{TaskStatus, draft}
use vantage_core.Core.Dispatcher.{
  TaskDispatcher, WireTask, Sent, Publish, SendError, agent_is_busy, no_active_stream, send_task,
  find_task, list_agent_tasks,
}

pub data Code : Type 0 where
  invalid_argument failed_precondition unavailable internal not_found : Code

-- `json.Marshal` of a struct's map, and `json.Unmarshal` of bytes into a map followed by
-- `structpb.NewStruct`, each with `none` for an error.
pub record Codec (Struct : Type 0) : Type 0 where
  pub marshal : Struct → Option Str
  pub unmarshal : Str → Option Struct

pub record CreateTaskRequest (Struct : Type 0) : Type 0 where
  pub agent_id : Str
  pub type : Str
  pub payload : Option Struct
  pub to_expire_at : Option ℕ

pub record ApiTask (Struct : Type 0) : Type 0 where
  pub id : Str
  pub agent_id : Str
  pub type : Str
  pub payload : Option Struct
  pub result : Option Struct
  pub status : TaskStatus
  pub mission_id : Str
  pub mission_context_id : Str
  pub mission_context : Str
  pub received_at : Option ℕ
  pub start_at : Option ℕ
  pub to_expire_at : Option ℕ

-- The state after a call, what was published, and the response.
pub record Reply : Type 0 where
  pub dispatcher : TaskDispatcher
  pub published : List Publish
  pub response : Result Code Str

unfoldable pub code_of : SendError → Code
code_of agent_is_busy = failed_precondition
code_of no_active_stream = unavailable

-- A timestamp is set unless the time is zero.
unfoldable pub timestamp : ℕ → Option ℕ
timestamp t = if nat_eq t 0 then none else some t

module _ {Struct : Type 0} (c : Codec Struct) where
  unfoldable pub struct_to_bytes : Option Struct → Option Str
  struct_to_bytes none = some []
  struct_to_bytes (some s) = c.marshal s

  unfoldable pub bytes_to_struct : Str → Option Struct
  bytes_to_struct b = if b == [] then none else c.unmarshal b

  unfoldable pub task_model_to_proto : Task → ApiTask Struct
  unfolding bytes_to_struct timestamp
  task_model_to_proto t = record {
    id = t.id;
    agent_id = t.agent_id;
    type = t.type;
    payload = bytes_to_struct t.payload;
    result = bytes_to_struct t.result;
    status = t.status;
    mission_id = t.mission_id;
    mission_context_id = t.mission_context_id;
    mission_context = t.mission_context;
    received_at = timestamp t.received_at;
    start_at = timestamp t.start_at;
    to_expire_at = timestamp t.to_expire_at;
  }

  abbrev expiry : Option ℕ → ℕ
  expiry none = 0
  expiry (some t) = t

  -- `id` is what `uuid.New()` returns.
  unfoldable pub requested_task : Str → CreateTaskRequest Struct → Str → Task
  requested_task id msg payload = record {
    id = id;
    agent_id = msg.agent_id;
    type = msg.type;
    payload = payload;
    status = draft;
    result = [];
    mission_id = [];
    mission_context_id = [];
    mission_context = [];
    received_at = 0;
    start_at = 0;
    to_expire_at = expiry msg.to_expire_at;
  }

  abbrev response_of : Str → Result SendError (Unit {0}) → Result Code Str
  response_of id (ok _) = ok id
  response_of id (err e) = err (code_of e)

  abbrev reply_of : Str → Sent → Reply
  reply_of id s = record {
    dispatcher = s.dispatcher;
    published = s.published;
    response = response_of id s.result;
  }

  unfoldable pub create_task :
      (WireTask → Option Str) → ℕ → Str → CreateTaskRequest Struct → TaskDispatcher → Reply
  create_task encode now id msg d =
      if msg.agent_id == [] || msg.type == []
      then record { dispatcher = d; published = []; response = err invalid_argument }
      else elim (struct_to_bytes msg.payload) [
        | none ↦ record { dispatcher = d; published = []; response = err invalid_argument }
        | some payload ↦ reply_of id (send_task encode now d (requested_task id msg payload))
      ]

  unfoldable pub find : TaskDispatcher → Str → Result Code (ApiTask Struct)
  find d id = elim (find_task d id) [ none ↦ err not_found | some t ↦ ok (task_model_to_proto t) ]

  unfoldable pub list : TaskDispatcher → Str → List (ApiTask Struct)
  list d agent_id = map task_model_to_proto (list_agent_tasks d agent_id)
