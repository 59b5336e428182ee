-- ===== src/Telemetry/Pipeline.antt =====
-- cmd/core/telemetry.go, with the queue of telemetry/ingest/ingest.go and the settings of
-- telemetry/persistcfg/persistcfg.go: the way of a message from the broker to the throttle, the store
-- and the live view. `Services` is what the source uses of encoding/json and time, and the schemas.
pub mod Rows
use vantage_core.Core.Agents.{AgentRegistry, mark_mqtt_online}
use vantage_core.Prelude.{
  ℕ, suc, Bool, true, false, List, [], ◌∷◌, ◌++◌, Option, none, some, Str, ltb, length,
  if◌then◌else◌, get_or, nat_eq,
}
use vantage_core.Prelude.Assoc
use vantage_core.Prelude.Assoc.{Map}
use vantage_core.Sdk.Topic.{agent_id_from_topic}
use vantage_core.Telemetry.Json.{Json}
use vantage_core.Telemetry.Live.{Broadcaster, publish}
use vantage_core.Telemetry.Mapping.Apply.{apply}
use vantage_core.Telemetry.Mapping.Int.{ℤ}
use vantage_core.Telemetry.Mapping.{Spec, Mapped, TimeError}
use vantage_core.Telemetry.Registry.{Registry, Entry, group_id, resolve}
use vantage_core.Telemetry.Store.{Row, Store, enqueue}
use vantage_core.Telemetry.Throttle.{Throttler, record_violation}
use vantage_core.Telemetry.Validate.{Validation, validate, check_schema_announcement}
use vantage_core.Telemetry.Violation.{
  Kind, Violation, missing_required, type_mismatch, constraint, not_json, no_contract,
  schema_contract_mismatch, bad_timestamp,
}

-- persistcfg.Registry
pub record PersistRegistry : Type 0 where
  pub mappings : Map Spec
  pub enabled : Map Bool

unfoldable pub set_mappings : Map Spec → PersistRegistry → PersistRegistry
set_mappings m r = record r { mappings = m }

unfoldable pub set_persist_enabled : Map Bool → PersistRegistry → PersistRegistry
set_persist_enabled m r = record r { enabled = m }

abbrev pub mapping_of : PersistRegistry → Str → Option Spec
mapping_of r group = Assoc.get r.mappings group

abbrev pub persist_enabled : PersistRegistry → Str → Bool
persist_enabled r group = get_or (Assoc.get r.enabled group) false

-- ingest.Kind and ingest.Message
pub data MessageKind : Type 0 where
  telemetry telemetry_schema : MessageKind

pub record Ingested : Type 0 where
  pub agent_id : Str
  pub kind : MessageKind
  pub payload : Str
  pub received_at : ℤ

-- ingest.Daemon without its listeners
pub record Daemon : Type 0 where
  pub prefix : Str
  pub capacity : ℕ
  pub queue : List Ingested
  pub ingested : ℕ
  pub dropped : ℕ

abbrev put_in_queue : Ingested → Daemon → Daemon
put_in_queue m d =
    if ltb (length d.queue) d.capacity
    then record d { queue = d.queue ++ m ∷ [] }
    else record d { dropped = suc d.dropped }

unfoldable pub handle : MessageKind → Str → Str → ℤ → Daemon → Daemon
handle kind topic payload now d = elim (agent_id_from_topic d.prefix topic) [
  | none ↦ d
  | some agent ↦
      put_in_queue (record { agent_id = agent; kind = kind; payload = payload; received_at = now })
        d
]

-- A round of `Run`: the message that goes to the listeners.
abbrev pub take_from : List Ingested → Daemon → Daemon × Option Ingested
take_from [] d = (d, none)
take_from (m ∷ ms) d = (record d { queue = ms; ingested = suc d.ingested }, some m)

unfoldable pub next_message : Daemon → Daemon × Option Ingested
next_message d = take_from d.queue d

abbrev pub valid_of : Kind → Option Bool
valid_of no_contract = none
valid_of missing_required = some false
valid_of type_mismatch = some false
valid_of constraint = some false
valid_of not_json = some false
valid_of schema_contract_mismatch = some false
valid_of bad_timestamp = some false

unfoldable pub valid_ptr : Option Violation → Option Bool
valid_ptr none = some true
valid_ptr (some v) = valid_of v.kind

pub record Services (Resolved : Type 0) : Type 0 where
  pub registry : Registry Resolved
  pub persist : PersistRegistry
  pub validation : Validation Resolved
  pub sha256 : Str → Str
  pub parse_rfc3339 : Str → Option ℤ
  pub to_int64 : ℕ → ℤ
  pub describe : TimeError → Str
  pub describe_window : ℤ → ℤ → Str
  pub marshal_fields : Map Json → Option Str
  pub marshal_envelope : Option Bool → Str → Option Str

-- The readings of the clock in a call of `Record`.
pub record Clock : Type 0 where
  pub now : ℕ
  pub first : ℕ
  pub later : ℕ

-- What a message changes. Persistence may be off, and then there is no store.
pub record Pipeline : Type 0 where
  pub agents : AgentRegistry
  pub throttler : Throttler
  pub store : Option Store
  pub live : Broadcaster

module _ {Resolved : Type 0} (s : Services Resolved) where
  abbrev pub record_if : Clock → Option Violation → Throttler → Throttler
  record_if c none t = t
  record_if c (some v) t = record_violation s.sha256 c.now c.first c.later v t

  abbrev pub mapped : Str → Ingested → Mapped × Option Violation
  mapped group m =
      apply s.validation.unmarshal s.parse_rfc3339 s.to_int64 s.describe s.describe_window
        (mapping_of s.persist group) m.agent_id group m.received_at m.payload

  abbrev fields_of : Option (Map Json) → Str
  fields_of none = []
  fields_of (some fs) = if nat_eq (length fs) 0 then [] else get_or (s.marshal_fields fs) []

  abbrev hash_of : Option (Entry Resolved) → Str
  hash_of none = []
  hash_of (some e) = e.hash

  unfoldable pub row_of : Str → Ingested → Option Violation → Row
  row_of group m violation =
      let r = (mapped group m).0 in
      record {
        time = r.time;
        received_at = r.received_at;
        agent_id = r.agent_id;
        group_id = group;
        schema_hash = hash_of (resolve s.registry m.agent_id);
        valid = valid_ptr violation;
        fields = fields_of r.fields;
        payload = m.payload;
      }

  abbrev persist_row :
      Clock → Str → Ingested → Option Violation → Store → Throttler → Store × Throttler
  persist_row c group m violation st t =
      (enqueue (row_of group m violation) st, record_if c (mapped group m).1 t)

  unfoldable pub enqueue_telemetry_row :
      Clock → Ingested → Option Violation → Store → Throttler → Store × Throttler
  enqueue_telemetry_row c m violation st t = elim (group_id s.registry m.agent_id) [
    | none ↦ (st, t)
    | some group ↦
        if persist_enabled s.persist group then persist_row c group m violation st t else (st, t)
  ]

  unfoldable pub publish_live_envelope : Ingested → Option Violation → Broadcaster → Broadcaster
  publish_live_envelope m violation b = elim (s.marshal_envelope (valid_ptr violation) m.payload) [
    | none ↦ b
    | some env ↦ publish m.agent_id env b
  ]

  abbrev pub persisted :
      Clock → Ingested → Option Violation → Option Store → Throttler → Option Store × Throttler
  persisted c m violation none t = (none, t)
  persisted c m violation (some st) t =
      let (st', t') = enqueue_telemetry_row c m violation st t in (some st', t')

  -- The case of a telemetry message; `c` is for a violation of the mapping, `c'` for one of the schema.
  unfoldable pub on_telemetry : ℕ → Clock → Clock → Ingested → Pipeline → Pipeline
  on_telemetry now c c' m p =
      let violation = validate s.validation s.registry m.agent_id m.payload in
      let (st, t) = persisted c m violation p.store p.throttler in
      record {
        agents = mark_mqtt_online now m.agent_id p.agents;
        throttler = record_if c' violation t;
        store = st;
        live = publish_live_envelope m violation p.live;
      }

  -- The listener of the daemon.
  unfoldable pub on_message : ℕ → Clock → Clock → Ingested → Pipeline → Pipeline
  on_message now c c' m p = elim m.kind [
    | telemetry ↦ on_telemetry now c c' m p
    | telemetry_schema ↦ record p {
      throttler =
          record_if c' (check_schema_announcement s.validation s.registry m.agent_id m.payload)
            p.throttler;
    }
  ]
