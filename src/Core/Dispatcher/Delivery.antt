-- ===== src/Core/Dispatcher/Delivery.antt =====
-- What a call of `SendTask` stores, publishes and returns.
use vantage_core.Prelude.{
  ℕ, ◌≡◌, refl, true, [], ◌∷◌, Option, none, some, Str, ◌==◌, ==_refl, length, arith, ok,
  if◌then◌else◌, inl, inr, Option-cases, Result-cases,
}
use vantage_core.Prelude.Assoc
use vantage_core.Core.Task.{Task, copy_metadata}
use vantage_core.Core.Repo.{TaskRepoMemory, save_task, stamped, get_task_by_id}
use vantage_core.Sdk.Topic.{Topic, new_topic}
use vantage_core.Core.Dispatcher.OneActive.{
  active_count, send_task-busy_iff, repo-send_task, stamped_fields,
}
use vantage_core.Core.Dispatcher.{
  TaskDispatcher, WireTask, Client, wire, task_message, deliver, send_task, find_task,
}

pub get_task_by_id-save_task :
    (now : ℕ) (r : TaskRepoMemory) (t : Task) (id : Str)
    → get_task_by_id (save_task now r t).0 id
      ≡ (if t.id == id then some (stamped now (get_task_by_id r t.id) t) else get_task_by_id r id)
unfolding get_task_by_id save_task
get_task_by_id-save_task now r t id =
    ground (arith, Assoc.get-put r.ts t.id id (stamped now (Assoc.get r.ts t.id) t))

pub wire-stamped : (now : ℕ) (found : Option Task) (t : Task) → wire (stamped now found t) ≡ wire t
unfolding stamped copy_metadata
wire-stamped now none t = refl
wire-stamped now (some f) t = refl

-- What it takes to hand a task to the broker: a client, a legal topic, an encoding, and a publish
-- that the client ends without an error.
pub record Delivers (encode : WireTask → Option Str) (d : TaskDispatcher) (t : Task) : Type 0 where
  pub client : Client
  pub topic : Topic
  pub body : Str
  pub connected : d.mqtt_client ≡ some client
  pub addressed : new_topic d.mqtt_topic_prefix t.agent_id ≡ ok topic
  pub encoded : encode (wire t) ≡ some body
  pub accepted : client (task_message encode topic body) ≡ true

deliver-Delivers :
    (encode : WireTask → Option Str) (d : TaskDispatcher) (t : Task)
    → (deliver encode d t).result ≡ ok tt
    → Delivers encode d t
unfolding deliver
deliver-Delivers encode d t h = elim (Option-cases d.mqtt_client) [
  | inl e ↦ absurd (ground arith)
  | inr (c, e) ↦ elim (Result-cases (new_topic d.mqtt_topic_prefix t.agent_id)) [
    | inr (x, f) ↦ absurd (ground arith)
    | inl (topic, f) ↦ elim (Option-cases (encode (wire t))) [
      | inl g ↦ absurd (ground arith)
      | inr (b, g) ↦ record {
        client = c;
        topic = topic;
        body = b;
        connected = e;
        addressed = f;
        encoded = g;
        accepted = ground arith;
      }
    ]
  ]
]

module _ (encode : WireTask → Option Str) (now : ℕ) (d : TaskDispatcher) (t : Task) where
  -- An agent with no active task gets the task saved before anything is published: afterwards the
  -- task is found by its id with the agent and the status it was sent with, whatever the delivery
  -- returned.
  pub find_task-send_task :
      active_count d.task_repo t.agent_id ≡ 0
      → find_task (send_task encode now d t).dispatcher t.id
          ≡ some (stamped now (find_task d t.id) t)
        × ((stamped now (find_task d t.id) t).agent_id ≡ t.agent_id)
        × ((stamped now (find_task d t.id) t).status ≡ t.status)
  unfolding find_task
  find_task-send_task idle =
      let f = stamped_fields now (get_task_by_id d.task_repo t.id) t in
      (
        ground (
          arith,
          repo-send_task encode now d t,
          get_task_by_id-save_task now d.task_repo t t.id,
          ==_refl t.id,
        ),
        f.1,
        f.2,
      )

  -- For an agent with no active task the call succeeds exactly when the task can be delivered; then
  -- one message is published, on the agent's new-task topic with QoS 1 and not retained. Otherwise
  -- it fails as an agent without a stream.
  pub send_task-eq-ok :
      active_count d.task_repo t.agent_id ≡ 0
      → (x : Delivers encode d t)
      → ((send_task encode now d t).result ≡ ok tt)
        × ((send_task encode now d t).published ≡ task_message encode x.topic x.body ∷ [])
  unfolding send_task deliver save_task
  send_task-eq-ok idle x = ground (
    arith,
    stamped_fields now (Assoc.get d.task_repo.ts t.id) t,
    wire-stamped now (Assoc.get d.task_repo.ts t.id) t,
    x.connected,
    x.addressed,
    x.encoded,
    x.accepted,
  )

  -- A call that succeeds has found all that it takes.
  pub send_task-Delivers : (send_task encode now d t).result ≡ ok tt → Delivers encode d t
  unfolding send_task save_task
  send_task-Delivers h =
      let found = Assoc.get d.task_repo.ts t.id in
      let d' : TaskDispatcher = record d { task_repo = (save_task now d.task_repo t).0 } in
      let x = deliver-Delivers encode d' (stamped now found t) (ground arith) in
      record {
        client = x.client;
        topic = x.topic;
        body = x.body;
        connected = x.connected;
        addressed = ground (arith, x.addressed, stamped_fields now found t);
        encoded = ground (arith, x.encoded, wire-stamped now found t);
        accepted = x.accepted;
      }

-- A call that succeeds has published one message and saved the task.
pub send_task-ok :
    (encode : WireTask → Option Str) (now : ℕ) (d : TaskDispatcher) (t : Task)
    → (send_task encode now d t).result ≡ ok tt
    → (length (send_task encode now d t).published ≡ 1)
      × (find_task (send_task encode now d t).dispatcher t.id
          ≡ some (stamped now (find_task d t.id) t))
send_task-ok encode now d t h =
    let x = send_task-Delivers encode now d t h in
    let idle : active_count d.task_repo t.agent_id ≡ 0 =
      ground (arith, send_task-busy_iff encode now d t) in
    (
      ground (arith, send_task-eq-ok encode now d t idle x),
      (find_task-send_task encode now d t idle).0,
    )
