-- ===== src/Core/Dispatcher.antt =====
-- cmd/core/service/task_dispatcher.go: tasks are saved, then published to the agent. The mutex of
-- `SendTask` makes its busy check and its save one step, so a call is one function of the state.
pub mod OneActive
pub mod Delivery
pub use vantage_core.Sdk.Mqtt.{Publish, Client}
use vantage_core.Prelude.{
  ℕ, Bool, true, false, not, List, [], ◌∷◌, Option, none, some, Str, length, leb, Result, ok, err,
  if◌then◌else◌,
}
use vantage_core.Core.Task.{Task}
use vantage_core.Core.Repo.{
  TaskRepoMemory, save_task, get_active_tasks_by_agent, get_task_by_id, list_tasks,
}
use vantage_core.Sdk.Topic.{Topic, new_topic, new_task}

-- pkg/agentsdk/task.go: what is published to an agent.
pub record WireTask : Type 0 where
  pub id : Str
  pub type : Str
  pub payload : Str

pub data SendError : Type 0 where
  agent_is_busy no_active_stream : SendError

pub record TaskDispatcher : Type 0 where
  pub task_repo : TaskRepoMemory
  pub mqtt_client : Option Client
  pub mqtt_topic_prefix : Str

abbrev pub new_task_dispatcher : TaskRepoMemory → TaskDispatcher
new_task_dispatcher r = record { task_repo = r; mqtt_client = none; mqtt_topic_prefix = [] }

unfoldable pub set_mqtt_client : TaskDispatcher → Client → Str → TaskDispatcher
set_mqtt_client d client prefix = record d { mqtt_client = some client; mqtt_topic_prefix = prefix }

-- The state after a call, what was published, and what the call returned.
pub record Sent : Type 0 where
  pub dispatcher : TaskDispatcher
  pub published : List Publish
  pub result : Result SendError (Unit {0})

abbrev pub wire : Task → WireTask
wire task = record { id = task.id; type = task.type; payload = task.payload }

-- `encode` is `json.Marshal`, which may refuse a payload that is no JSON.
module _ (encode : WireTask → Option Str) where
  abbrev pub task_message : Topic → Str → Publish
  task_message topic b = record { topic = new_task topic; qos = 1; retained = false; payload = b }

  -- What is published, and whether it went well.
  unfoldable pub publish_new_task : Client → Str → Task → List Publish × Bool
  publish_new_task client prefix task = elim (new_topic prefix task.agent_id) [
    | err e ↦ ([], false)
    | ok topic ↦ elim (encode (wire task)) [
      | none ↦ ([], false)
      | some b ↦ (task_message topic b ∷ [], client (task_message topic b))
    ]
  ]

  abbrev send_result : Bool → Result SendError (Unit {0})
  send_result true = ok tt
  send_result false = err no_active_stream

  -- The part of `SendTask` behind the mutex.
  unfoldable pub deliver : TaskDispatcher → Task → Sent
  unfolding publish_new_task
  deliver d task = elim d.mqtt_client [
    | none ↦ record { dispatcher = d; published = []; result = err no_active_stream }
    | some client ↦
        let (published, done) = publish_new_task client d.mqtt_topic_prefix task in
        record { dispatcher = d; published = published; result = send_result done }
  ]

  unfoldable pub send_task : ℕ → TaskDispatcher → Task → Sent
  send_task now d task =
      if leb 1 (length (get_active_tasks_by_agent d.task_repo task.agent_id))
      then record { dispatcher = d; published = []; result = err agent_is_busy }
      else (let (repo, task') = save_task now d.task_repo task in
          deliver (record d { task_repo = repo }) task')

unfoldable pub find_task : TaskDispatcher → Str → Option Task
find_task d task_id = get_task_by_id d.task_repo task_id

unfoldable pub list_agent_tasks : TaskDispatcher → Str → List Task
list_agent_tasks d agent_id = list_tasks d.task_repo agent_id
