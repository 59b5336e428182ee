-- ===== src/Sdk/TaskManager.antt =====
-- pkg/agentsdk/task_manager.go: an agent runs the tasks that core publishes and remembers
-- the last status of the tasks that it saw most recently. `decode` and `encode` are encoding/json at
-- the payload types; a handler is what its `Execute` returns for a payload, `none` for no error.
pub mod Seen
pub mod Deliveries
pub mod Once
pub mod Runs
use vantage_core.Prelude.{
  ℕ, suc, zero, Bool, true, false, List, [], ◌∷◌, ◌++◌, Option, none, some, Str, lit, ◌==◌, ltb,
  Result, ok, err, if◌then◌else◌,
}
use vantage_core.Prelude.Assoc
use vantage_core.Prelude.Assoc.{Map}
use vantage_core.Sdk.LinkedList
use vantage_core.Sdk.LinkedList.{LinkedList}
use vantage_core.Sdk.Mqtt.{Publish, Client}
use vantage_core.Sdk.Topic.{Topic, TopicError, new_task, task_status}

pub data TaskAckStatus : Type 0 where
  cannot_start started aborted failed finished : TaskAckStatus

-- The text of a status, in which it is written.
abbrev pub ack_status_text : TaskAckStatus → Str
ack_status_text cannot_start = lit "cannot_start"
ack_status_text started = lit "started"
ack_status_text aborted = lit "aborted"
ack_status_text failed = lit "failed"
ack_status_text finished = lit "finished"

pub record TaskStatusPayload : Type 0 where
  pub task_id : Str
  pub status : TaskAckStatus
  pub error_message : Str

-- pkg/agentsdk/task.go
pub record Task : Type 0 where
  pub id : Str
  pub type : Str
  pub payload : Str

abbrev pub max_tracked_tasks : ℕ
max_tracked_tasks = 500

pub record SeenTask : Type 0 where
  pub task_id : Str
  pub status : TaskStatusPayload

abbrev pub Handler : Type 0
Handler = Str → Option Str

pub record TaskManager : Type 0 where
  pub handlers : Map Handler
  pub topic : Topic
  pub mqtt : Option Client
  pub seen : Map ℕ
  pub seen_order : LinkedList SeenTask

abbrev pub new_task_manager : Topic → TaskManager
new_task_manager topic = record {
  handlers = [];
  topic = topic;
  mqtt = none;
  seen = [];
  seen_order = LinkedList.empty;
}

unfoldable pub set_client : Client → TaskManager → TaskManager
set_client c t = record t { mqtt = some c }

-- `type` is what the handler's `GetTaskType` returns.
unfoldable pub register_handler : Str → Handler → TaskManager → TaskManager
register_handler type h t = record t { handlers = Assoc.put t.handlers type h }

-- The loop of `evictOldestLocked`; `fuel` bounds its rounds, each of which drops one element.
unfoldable pub evict_from : ℕ → TaskManager → TaskManager
evict_from zero t = t
evict_from (suc fuel) t =
    if ltb max_tracked_tasks (LinkedList.size t.seen_order)
    then elim (LinkedList.back t.seen_order) [
      | none ↦ t
      | some (e, oldest) ↦ evict_from fuel (record t {
        seen = Assoc.del t.seen oldest.task_id;
        seen_order = LinkedList.remove e t.seen_order;
      })
    ]
    else t

unfoldable pub evict_oldest : TaskManager → TaskManager
unfolding evict_from
evict_oldest t = evict_from (LinkedList.size t.seen_order) t

abbrev pub no_error : Str → TaskAckStatus → TaskStatusPayload
no_error id s = record { task_id = id; status = s; error_message = [] }

-- The branch of `recall` at the first sight of a task.
unfoldable pub track : Str → TaskManager → TaskManager
track id t =
    let (order, e) =
      LinkedList.push_front (record { task_id = id; status = no_error id started }) t.seen_order in
    evict_oldest (record t { seen = Assoc.put t.seen id e; seen_order = order })

-- The status of the element that the map points to.
abbrev pub status_at : TaskManager → ℕ → Option TaskStatusPayload
status_at t e = elim (LinkedList.find t.seen_order.nodes e) [ none ↦ none | some s ↦ some s.status ]

-- The last status of a task that was seen before.
unfoldable pub recall : Str → TaskManager → TaskManager × Option TaskStatusPayload
recall id t = elim (Assoc.get t.seen id) [
  | none ↦ (track id t, none)
  | some e ↦ (record t { seen_order = LinkedList.move_to_front e t.seen_order }, status_at t e)
]

abbrev with_status : TaskStatusPayload → SeenTask → SeenTask
with_status p s = record s { status = p }

-- `elem.Value.(*seenTask).status = status`
unfoldable pub set_status : ℕ → TaskStatusPayload → LinkedList SeenTask → LinkedList SeenTask
set_status e p l = elim (LinkedList.find l.nodes e) [
  | none ↦ l
  | some s ↦ record l { nodes = LinkedList.assign e (with_status p s) l.nodes }
]

unfoldable pub remember : TaskStatusPayload → TaskManager → TaskManager
remember p t = elim (Assoc.get t.seen p.task_id) [
  | none ↦ t
  | some e ↦ record t { seen_order = LinkedList.move_to_front e (set_status e p t.seen_order) }
]

-- What an agent does in a step, in order.
pub data Effect : Type 0 where
  publish : Publish → Effect
  ack : Effect

-- A goroutine that runs a task.
pub record Job : Type 0 where
  pub task : Task
  pub handler : Handler
  pub message : Str

module _ (encode : TaskStatusPayload → Option Str) where
  abbrev status_message : Str → Str → Effect
  status_message topic b =
      publish (record { topic = topic; qos = 1; retained = false; payload = b })

  unfoldable pub publish_status : TaskManager → TaskStatusPayload → List Effect
  publish_status t p = elim t.mqtt [
    | none ↦ []
    | some _ ↦ elim (task_status t.topic p.task_id) [
      | err _ ↦ []
      | ok topic ↦ elim (encode p) [ none ↦ [] | some b ↦ status_message topic b ∷ [] ]
    ]
  ]

-- The manager afterwards, what was done, and the job that was started.
pub record Handled : Type 0 where
  pub manager : TaskManager
  pub effects : List Effect
  pub job : Option Job

-- A message of the broker.
pub record Message : Type 0 where
  pub topic : Str
  pub payload : Str

module _ (decode : Str → Option Task) (encode : TaskStatusPayload → Option Str) where
  -- The branch for a task that was not seen before, at its handler.
  unfoldable pub start : TaskManager → Task → Str → Option Handler → Handled
  start t task message none = record { manager = t; effects = ack ∷ []; job = none }
  start t task message (some handler) = record {
    manager = t;
    effects = publish_status encode t (no_error task.id started);
    job = some (record { task = task; handler = handler; message = message });
  }

  abbrev handle_recalled : Task → Str → TaskManager × Option TaskStatusPayload → Handled
  handle_recalled task message (t, some last) = record {
    manager = t;
    effects = publish_status encode t last ++ ack ∷ [];
    job = none;
  }
  handle_recalled task message (t, none) = start t task message (Assoc.get t.handlers task.type)

  unfoldable pub listen_new_task : Message → TaskManager → Handled
  listen_new_task msg t = elim (decode msg.payload) [
    | none ↦ record { manager = t; effects = ack ∷ []; job = none }
    | some task ↦ handle_recalled task msg.payload (recall task.id t)
  ]

  -- The body of the goroutine.
  abbrev pub outcome : Job → TaskStatusPayload
  outcome j = elim (j.handler j.message) [
    | some message ↦ record { task_id = j.task.id; status = failed; error_message = message }
    | none ↦ no_error j.task.id finished
  ]

  unfoldable pub finish : Job → TaskManager → Handled
  finish j t =
      let t' = remember (outcome j) t in
      record {
        manager = t';
        effects = publish_status encode t' (outcome j) ++ ack ∷ [];
        job = none;
      }

  unfoldable pub handle_any_incoming : Message → TaskManager → Handled
  handle_any_incoming msg t =
      if msg.topic == new_task t.topic
      then listen_new_task msg t
      else record { manager = t; effects = []; job = none }
