-- ===== src/Sdk/Agent/Presence.antt =====
-- The lifecycle events of an agent and the presence that core keeps of it.
use vantage_core.Prelude.{
  ℕ, ◌+◌, ◌<◌, ◌≡◌, ◌↔◌, ◌++◌, refl, List, [], ◌∷◌, Option, none, some, Str, ok, inl, inr, arith,
  lit, Bool, Result-cases, Option-cases,
}
use vantage_core.Prelude.Assoc
use vantage_core.Core.Agents.{AgentRegistry, mqtt_presence_stale_after}
use vantage_core.Core.Agents.Presence.{IsOnline}
use vantage_core.Core.ControlPlane.{presence_handler}
use vantage_core.Core.ControlPlane.Messages.{presence_handler-IsOnline, presence_handler-offline}
use vantage_core.Sdk.Mqtt.{Publish, Client}
use vantage_core.Sdk.Topic.{new_topic, event}
use vantage_core.Sdk.Topic.RoundTrip.{agent_id_from_topic-topics}
use vantage_core.Sdk.Agent.{
  Agent, EventPayload, Stamp, Moments, Call, publish, type_text, event_message, event_payload,
  will_payload, new_agent, publish_event, register, handle_connect, online, announce, run_hooks,
}

-- A publish as core gets it.
abbrev pub delivered : Str → (Str → Option Str) → ℕ → Publish → AgentRegistry → AgentRegistry
delivered prefix decode now p r =
    presence_handler prefix decode now (record { topic = p.topic; payload = p.payload }) r

-- `decode` reads the type of an event that `marshal` wrote.
abbrev pub ReadsTypes : (EventPayload → Option Str) → (Str → Option Str) → Type 0
ReadsTypes marshal decode =
    (p : EventPayload) (b : Str) → marshal p ≡ some b → decode b ≡ some (type_text p.type)

module _ (marshal : EventPayload → Option Str) where
  new_agent_fields :
      (s : Stamp) (id prefix : Str) (a : Agent)
      → new_agent marshal s id prefix ≡ some a
      → (new_topic prefix id ≡ ok a.topic)
        × (a.id ≡ id)
        × (a.client ≡ none)
        × ((b : Str) × (marshal (will_payload marshal s) ≡ some b)
            × (a.will ≡ event_message a.topic b))
  unfolding new_agent
  new_agent_fields s id prefix a made = elim (Result-cases (new_topic prefix id)) [
    | inr (x, e) ↦ absurd (ground arith)
    | inl (t, e) ↦ elim (Option-cases (marshal (will_payload marshal s))) [
      | inl m ↦ absurd (ground arith)
      | inr (b, m) ↦ (ground arith, ground arith, ground arith, (b, m, ground arith))
    ]
  ]

module _ (marshal : EventPayload → Option Str) (decode : Str → Option Str) (prefix id : Str)
    (r : AgentRegistry) where
  -- Core sees an agent by what `NewAgent` made of it: once its online event of a connect is delivered,
  -- the agent is online until the staleness bound has passed, and no longer; once its will is
  -- delivered, which the broker sends for a lost connection, it is online at no time.
  pub handle_connect-IsOnline :
      (s : Stamp) (ms : Moments) (subscribed : Bool) (a : Agent) (c : Client) (b : Str)
      (now later : ℕ)
      → ReadsTypes marshal decode
      → Assoc.Distinct r.mqtt_last_seen
      → new_agent marshal s id prefix ≡ some a
      → marshal (event_payload marshal ms.on_online online [] [] (register c a)) ≡ some b
      → let p = event_message a.topic b in
        ((rest : List Call) × ((handle_connect marshal ms subscribed (register c a)).1
            ≡ publish p ∷ rest))
        × (IsOnline later (delivered prefix decode now p r) id
            ↔ (later < now + mqtt_presence_stale_after))
        × ((gone : ℕ) → ¬ IsOnline later (delivered prefix decode gone a.will r) id)
  unfolding handle_connect publish_event register
  handle_connect-IsOnline s ms subscribed a c b now later reads distinct made m =
      let (t, i, n, (w, mw, ew)) = new_agent_fields marshal s id prefix a made in
      let addressed = (agent_id_from_topic-topics prefix id a.topic t).2 in
      (
        (
          (announce marshal ms.on_registered subscribed (register c a)).1
              ++ run_hooks ms.times 0 (some c) a.on_connect_funcs,
          ground arith,
        ),
        presence_handler-IsOnline prefix id b (lit "online") (event a.topic) decode r addressed
            (reads _ b m) distinct now later (inl refl),
        λ gone. rw ew (
            presence_handler-offline prefix id w (lit "offline") (event a.topic) decode r addressed
              (reads _ w mw) distinct gone later refl),
      )
