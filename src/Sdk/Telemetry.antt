-- ===== src/Sdk/Telemetry.antt =====
-- pkg/agentsdk/telemetry.go and telemetry_schema.go: an agent's telemetry and the announcement of its
-- schema. `derive` is what jsonschema.For and json.Marshal make of the Go type, `T` the type of its
-- values, and `Encoding` what the source uses of encoding/json.
pub mod Announced
use vantage_core.Prelude.{
  ℕ, suc, ◌+◌, ◌%◌, ◌^◌, Bool, true, false, List, [], ◌∷◌, ◌++◌, Option, none, some, Str, Result,
  ok, err, if◌then◌else◌,
}
use vantage_core.Sdk.Agent.{Agent, on_connect}
use vantage_core.Sdk.Mqtt.{Publish, Client}
use vantage_core.Sdk.Topic.{Topic, telemetry, telemetry_schema}
use vantage_core.Telemetry.Registry.{Library, hash_schema}

pub record TelemetrySchema : Type 0 where
  pub hash : Str
  pub schema : Str

pub record TelemetrySchemaAnnouncement : Type 0 where
  pub agent_id : Str
  pub timestamp : ℕ
  pub schema_hash : Str
  pub schema : Str

pub record Encoding (T : Type 0) : Type 0 where
  pub announcement : TelemetrySchemaAnnouncement → Option Str
  pub value : T → Option Str

pub data TelemetryError : Type 0 where
  no_agent no_client no_schema marshal_failed publish_failed : TelemetryError

-- The fields of `Telemetry` that are its own; the agent is an argument of its methods.
pub record Telemetry : Type 0 where
  pub schema : TelemetrySchema
  pub seq : ℕ

abbrev schema_of : Option (Str × Str) → Option TelemetrySchema
schema_of none = none
schema_of (some (hash, canon)) = some (record { hash = hash; schema = canon })

-- `DeriveTelemetrySchema`
unfoldable pub derive_telemetry_schema :
    {Schema Resolved : Type 0} → Library Schema Resolved → Option Str → Option TelemetrySchema
derive_telemetry_schema lib none = none
derive_telemetry_schema lib (some raw) = schema_of (hash_schema lib raw)

-- What a publish came to: the calls of the client, and the error.
abbrev Published : Type 0
Published = List Publish × Result TelemetryError (Unit {0})

abbrev sent : Client → Publish → Published
sent c p = (p ∷ [], if c p then ok tt else err publish_failed)

module _ {T : Type 0} (encoding : Encoding T) where
  abbrev pub announcement : Str → ℕ → TelemetrySchema → TelemetrySchemaAnnouncement
  announcement id now s = record {
    agent_id = id;
    timestamp = now;
    schema_hash = s.hash;
    schema = s.schema;
  }

  abbrev pub schema_message : Topic → Str → Publish
  schema_message t b = record { topic = telemetry_schema t; qos = 1; retained = true; payload = b }

  -- `id` and `topic` are those of the agent, and the client is the one that it has at the call.
  unfoldable pub publish_schema : Str → Topic → ℕ → TelemetrySchema → Option Client → Published
  publish_schema id topic now s none = ([], err no_client)
  publish_schema id topic now s (some c) = elim (encoding.announcement (announcement id now s)) [
    | none ↦ ([], err marshal_failed)
    | some b ↦ sent c (schema_message topic b)
  ]

  -- The telemetry, and the agent with the hook that announces the schema.
  abbrev pub hooked : Agent → TelemetrySchema → Agent × Telemetry
  hooked a s = (
    on_connect (λ now c. (publish_schema a.id a.topic now s c).0) a,
    record { schema = s; seq = 0 },
  )

  unfoldable pub new_telemetry :
      {Schema Resolved : Type 0}
      → Library Schema Resolved
      → Option Str
      → Option Agent
      → Result TelemetryError (Agent × Telemetry)
  new_telemetry lib derive none = err no_agent
  new_telemetry lib derive (some a) = elim (derive_telemetry_schema lib derive) [
    | none ↦ err no_schema
    | some s ↦ ok (hooked a s)
  ]

  abbrev pub value_message : Topic → Str → Publish
  value_message t b = record { topic = telemetry t; qos = 0; retained = false; payload = b }

  -- An atomic.Uint64 wraps around.
  abbrev next_seq : Telemetry → Telemetry
  next_seq t = record t { seq = (t.seq + 1) % 2 ^ 64 }

  abbrev counted : Client → Publish → Telemetry → Telemetry × Published
  counted c p t = if c p then (next_seq t, (p ∷ [], ok tt)) else (t, (p ∷ [], err publish_failed))

  unfoldable pub publish : T → Agent → Telemetry → Telemetry × Published
  publish v a t = elim a.client [
    | none ↦ (t, ([], err no_client))
    | some c ↦ elim (encoding.value v) [
      | none ↦ (t, ([], err marshal_failed))
      | some b ↦ counted c (value_message a.topic b) t
    ]
  ]

  abbrev ticked : Agent → Telemetry → Option T → Telemetry × List Publish
  ticked a t none = (t, [])
  ticked a t (some v) = let (t', p) = publish v a t in (t', p.0)

  -- The goroutine of `StartLoop`, over what `src` returns at each tick, `none` for an error.
  unfoldable pub start_loop : Agent → List (Option T) → Telemetry → Telemetry × List Publish
  unfolding publish
  start_loop a [] t = (t, [])
  start_loop a (v ∷ vs) t =
      let (t', ps) = ticked a t v in let (end, rest) = start_loop a vs t' in (end, ps ++ rest)
