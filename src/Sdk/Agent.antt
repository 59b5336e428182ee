-- ===== src/Sdk/Agent.antt =====
-- pkg/agentsdk/agent.go and event.go: an agent's connection to the broker and its lifecycle events.
-- `marshal` is `json.Marshal` of an event. A client tells whether a publish ends without an error;
-- whether a subscription does is an argument. A hook is what its function publishes at a time, with
-- the client that the agent has.
pub mod Lifecycle
pub mod Presence
use vantage_core.Prelude.{
  ℕ, suc, Bool, true, false, List, [], ◌∷◌, ◌++◌, Option, none, some, Str, lit, map, not, Result,
  ok, err, if◌then◌else◌,
}
use vantage_core.Sdk.Mqtt.{Publish, Client}
use vantage_core.Sdk.TaskManager.{TaskManager, new_task_manager}
use vantage_core.Sdk.Topic.{Topic, new_topic, event, new_task}

pub data EventType : Type 0 where
  offline online registered invalid_data : EventType

abbrev pub type_text : EventType → Str
type_text offline = lit "offline"
type_text online = lit "online"
type_text registered = lit "registered"
type_text invalid_data = lit "invalid_data"

pub record EventPayload : Type 0 where
  pub id : Str
  pub agent_id : Str
  pub timestamp : ℕ
  pub type : EventType
  pub reason : Str
  pub payload : Str

-- A new uuid and the time.
pub record Stamp : Type 0 where
  pub id : Str
  pub now : ℕ

abbrev pub Hook : Type 0
Hook = ℕ → Option Client → List Publish

pub record Agent : Type 0 where
  pub id : Str
  pub topic : Topic
  pub client : Option Client
  pub connected_once : Bool
  pub on_connect_funcs : List Hook
  pub task_manager : TaskManager
  pub will : Publish

-- What an agent calls its client for, in order.
pub data Call : Type 0 where
  publish : Publish → Call
  subscribe : Str → ℕ → Call
  disconnect : Call

pub data AgentError : Type 0 where
  no_client marshal_failed publish_failed subscribe_failed : AgentError

abbrev pub event_message : Topic → Str → Publish
event_message t b = record { topic = event t; qos = 1; retained = true; payload = b }

abbrev send_to : Client → Publish → List Call × Result AgentError (Unit {0})
send_to c p = (publish p ∷ [], if c p then ok tt else err publish_failed)

unfoldable pub on_connect : Hook → Agent → Agent
on_connect f a = record a { on_connect_funcs = a.on_connect_funcs ++ f ∷ [] }

-- `Register`, which connects in the background.
unfoldable pub register : Client → Agent → Agent
register c a = record a { client = some c }

-- TaskManager.SetClient
abbrev attach : Option Client → TaskManager → TaskManager
attach c t = record t { mqtt = c }

-- TaskManager.RunNewTaskListener
unfoldable pub run_new_task_listener : Bool → TaskManager → List Call × Result AgentError (Unit {0})
run_new_task_listener subscribed t = elim t.mqtt [
  | none ↦ ([], err no_client)
  | some _ ↦
      (subscribe (new_task t.topic) 1 ∷ [], if subscribed then ok tt else err subscribe_failed)
]

-- The calls of the hooks; `times n` is the time when the n-th is called.
unfoldable pub run_hooks : (ℕ → ℕ) → ℕ → Option Client → List Hook → List Call
run_hooks times n c [] = []
run_hooks times n c (f ∷ fs) = map publish (f (times n) c) ++ run_hooks times (suc n) c fs

-- The stamps of the online and of the registered event of a connect, and the times of the hooks.
pub record Moments : Type 0 where
  pub on_online : Stamp
  pub on_registered : Stamp
  pub times : ℕ → ℕ

module _ (marshal : EventPayload → Option Str) where
  abbrev pub will_payload : Stamp → EventPayload
  will_payload s = record {
    id = s.id;
    agent_id = [];
    timestamp = s.now;
    type = offline;
    reason = [];
    payload = [];
  }

  abbrev new_agent_with : Str → Topic → Option Str → Option Agent
  new_agent_with id topic none = none
  new_agent_with id topic (some b) = some (record {
    id = id;
    topic = topic;
    client = none;
    connected_once = false;
    on_connect_funcs = [];
    task_manager = new_task_manager topic;
    will = event_message topic b;
  })

  unfoldable pub new_agent : Stamp → Str → Str → Option Agent
  new_agent s id topic_prefix = elim (new_topic topic_prefix id) [
    | err _ ↦ none
    | ok topic ↦ new_agent_with id topic (marshal (will_payload s))
  ]

  abbrev pub event_payload : Stamp → EventType → Str → Str → Agent → EventPayload
  event_payload s type reason payload a = record {
    id = s.id;
    agent_id = a.id;
    timestamp = s.now;
    type = type;
    reason = reason;
    payload = payload;
  }

  unfoldable pub publish_event :
      Stamp → EventType → Str → Str → Agent → List Call × Result AgentError (Unit {0})
  publish_event s type reason payload a = elim a.client [
    | none ↦ ([], err no_client)
    | some c ↦ elim (marshal (event_payload s type reason payload a)) [
      | none ↦ ([], err marshal_failed)
      | some b ↦ send_to c (event_message a.topic b)
    ]
  ]

  abbrev first_connect : Stamp → Bool → Agent → Agent × List Call
  first_connect s subscribed a =
      let t = attach a.client a.task_manager in
      (
        record a { task_manager = t },
        (publish_event s registered [] [] a).0 ++ (run_new_task_listener subscribed t).0,
      )

  -- The part after the online event: the first time, the other event and the listener.
  abbrev announce : Stamp → Bool → Agent → Agent × List Call
  announce s subscribed a =
      if a.connected_once
      then (a, [])
      else first_connect s subscribed (record a { connected_once = true })

  unfoldable pub handle_connect : Moments → Bool → Agent → Agent × List Call
  unfolding publish_event run_new_task_listener
  handle_connect ms subscribed a =
      let (a', calls) = announce ms.on_registered subscribed a in
      (
        a',
        (publish_event ms.on_online online [] [] a).0
            ++ (calls ++ run_hooks ms.times 0 a.client a.on_connect_funcs),
      )

  unfoldable pub stop : Stamp → Agent → Agent × List Call
  unfolding publish_event
  stop s a = elim a.client [
    | none ↦ (a, [])
    | some _ ↦ (record a { client = none }, (publish_event s offline [] [] a).0 ++ disconnect ∷ [])
  ]
