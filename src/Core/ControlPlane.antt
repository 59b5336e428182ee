-- ===== src/Core/ControlPlane.antt =====
-- cmd/core/task_mqtt.go: what core does with the status and event messages of agents. `decode` is
-- `json.Unmarshal` into the payload type of the message.
pub mod Messages
use vantage_core.Prelude.{
  ℕ, Bool, true, false, List, [], ◌∷◌, Option, none, some, Str, lit, ◌==◌, ◌||◌, if◌then◌else◌,
}
use vantage_core.Core.Task.Status.{
  TaskStatus, unspecified, cannot_start, started, aborted, failed, finished,
}
use vantage_core.Core.Agents.{AgentRegistry, mark_mqtt_online, mark_mqtt_offline}
use vantage_core.Core.Dispatcher.{TaskDispatcher}
use vantage_core.Core.Missions.{MissionRegistry}
use vantage_core.Core.Missions.TaskManager.{TaskAck, Notice, on_task_updated}
use vantage_core.Sdk.Topic.{agent_id_from_topic, task_id_from_status_topic}

-- A message of the broker.
pub record Message : Type 0 where
  pub topic : Str
  pub payload : Str

-- pkg/agentsdk/task_manager.go
pub record TaskStatusPayload : Type 0 where
  pub task_id : Str
  pub status : Str
  pub error_message : Str

unfoldable pub task_ack_status_to_proto : Str → TaskStatus
task_ack_status_to_proto s =
    if s == lit "cannot_start"
    then cannot_start
    else if s == lit "started"
    then started
    else if s == lit "aborted"
    then aborted
    else if s == lit "failed"
    then failed
    else if s == lit "finished"
    then finished
    else unspecified

abbrev pub ack_of : Str → TaskStatusPayload → TaskAck
ack_of task_id p = record {
  task_id = task_id;
  status = task_ack_status_to_proto p.status;
  error_message = p.error_message;
  result = [];
}

-- The ack that a message carries, if it carries one.
unfoldable pub status_ack : Str → (Str → Option TaskStatusPayload) → Message → Option TaskAck
status_ack prefix decode msg = elim (agent_id_from_topic prefix msg.topic) [
  | none ↦ none
  | some agent_id ↦ elim (task_id_from_status_topic prefix msg.topic) [
    | none ↦ none
    | some task_id ↦ elim (decode msg.payload) [ none ↦ none | some p ↦ some (ack_of task_id p) ]
  ]
]

unfoldable pub task_status_handler :
    {Stream : Type 0}
    → Str
    → (Str → Option TaskStatusPayload)
    → MissionRegistry Stream
    → ℕ
    → Message
    → TaskDispatcher
    → TaskDispatcher × List (Notice Stream)
task_status_handler prefix decode mr now msg d = elim (status_ack prefix decode msg) [
  | none ↦ (d, [])
  | some ack ↦ on_task_updated mr now ack d
]

abbrev event_offline : Str
event_offline = lit "offline"

abbrev event_online : Str
event_online = lit "online"

abbrev event_registered : Str
event_registered = lit "registered"

-- The `switch` on the type of an event.
unfoldable pub on_event : ℕ → Str → Str → AgentRegistry → AgentRegistry
on_event now agent_id type r =
    if type == event_offline
    then mark_mqtt_offline agent_id r
    else if type == event_online || type == event_registered
    then mark_mqtt_online now agent_id r
    else r

-- `decode` reads the type of the event.
unfoldable pub presence_handler :
    Str → (Str → Option Str) → ℕ → Message → AgentRegistry → AgentRegistry
presence_handler prefix decode now msg r = elim (agent_id_from_topic prefix msg.topic) [
  | none ↦ r
  | some agent_id ↦ elim (decode msg.payload) [
    | none ↦ r
    | some type ↦ on_event now agent_id type r
  ]
]
