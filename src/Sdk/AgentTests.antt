-- ===== src/Sdk/AgentTests.antt =====
-- Runs of an agent's connection on small inputs.
use vantage_core.Prelude.{
  ℕ, ◌+◌, ◌<◌, ◌≤◌, ◌≡◌, ◌↔◌, refl, true, false, not, List, [], ◌∷◌, Option, none, some, Str, lit,
  ◌==◌, has_prefix, has_suffix, contains_byte,
}
use vantage_core.Core.Auth
use vantage_core.Core.Agents.{AgentRegistry, mqtt_presence_stale_after}
use vantage_core.Core.Agents.Presence.{IsOnline}
use vantage_core.Sdk.Mqtt.{Client}
use vantage_core.Sdk.TaskManager.{new_task_manager}
use vantage_core.Sdk.Topic.{Topic, new_topic, valid_topic_segment}
use vantage_core.Sdk.Agent.{
  Agent, EventPayload, Stamp, Moments, Call, publish, event_message, new_agent, register,
  handle_connect, type_text,
}
use vantage_core.Sdk.Agent.Lifecycle.{
  Happening, registers, connects, stops, subscriptions, one_if, run, subscriptions-run,
}
use vantage_core.Sdk.Agent.Presence.{delivered, ReadsTypes, handle_connect-IsOnline}

-- An event is written as its type.
abbrev marshal : EventPayload → Option Str
marshal p = some (type_text p.type)

marshal-ReadsTypes : ReadsTypes marshal some
marshal-ReadsTypes p b e = cc

abbrev at : ℕ → Stamp
at now = record { id = lit "id"; now = now }

abbrev moments : Moments
moments = record { on_online = at 1; on_registered = at 2; times = λ n. n + 3 }

abbrev sends : Client
sends p = true

abbrev topic_of_a : Topic
topic_of_a = record { prefix = lit "p"; agent_id = lit "a" }

abbrev made : Agent
made = record {
  id = lit "a";
  topic = topic_of_a;
  client = none;
  connected_once = false;
  on_connect_funcs = [];
  task_manager = new_task_manager topic_of_a;
  will = event_message topic_of_a (lit "offline");
}

new_agent_of_a : new_agent marshal (at 0) (lit "a") (lit "p") ≡ some made
unfolding new_agent new_topic valid_topic_segment has_prefix has_suffix contains_byte ◌==◌
new_agent_of_a = refl

abbrev life : List Happening
life =
    registers sends
    ∷ connects moments true
    ∷ stops (at 9)
    ∷ registers sends
    ∷ connects moments true
    ∷ []

subscriptions-run_example :
    subscriptions (run marshal life made).1 + one_if (not (run marshal life made).0.connected_once)
    ≤ 1
subscriptions-run_example = subscriptions-run marshal life made

abbrev refuses : Client
refuses p = false

abbrev registry : AgentRegistry
registry = record {
  auth_service = Auth.new_auth_service;
  allowed_agents = [];
  skills = [];
  cameras = [];
  grpc_advertise_addr = [];
  mqtt_last_seen = [];
}

handle_connect-IsOnline_example :
    let p = event_message made.topic (lit "online") in
    ((rest : List Call) × ((handle_connect marshal moments true (register sends made)).1
        ≡ publish p ∷ rest))
    × (IsOnline 80 (delivered (lit "p") some 70 p registry) (lit "a")
        ↔ (80 < 70 + mqtt_presence_stale_after))
    × ((gone : ℕ) → ¬ IsOnline 80 (delivered (lit "p") some gone made.will registry) (lit "a"))
handle_connect-IsOnline_example =
    handle_connect-IsOnline marshal some (lit "p") (lit "a") registry (at 0) moments true made sends
      (lit "online") 70 80 marshal-ReadsTypes tt new_agent_of_a refl
