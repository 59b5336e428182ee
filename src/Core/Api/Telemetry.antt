-- ===== src/Core/Api/Telemetry.antt =====
-- cmd/core/controller/telemetry_connect.go, with Status of
-- cmd/core/telemetry/query/query.go: the telemetry that operators read. `rows` is what the database has
-- of an agent, in the order of time, or `none` for an error of the database. Protobuf structs are
-- `Struct`, and `unmarshal` is json.Unmarshal with structpb.NewStruct.
use vantage_core.Core.Api.Tasks.{Code, invalid_argument, unavailable, internal}
use vantage_core.Prelude.{
  ℕ, suc, ◌-◌, Bool, true, false, List, [], ◌∷◌, Option, none, some, Str, ltb, nat_eq, length, take,
  get_or, map, Result, ok, err, if◌then◌else◌,
}
use vantage_core.Telemetry.AgentEvents.{EventRecord, ViolationSummary, to_int32}
use vantage_core.Telemetry.Mapping.Int.{ℤ}
use vantage_core.Telemetry.Query.{Point, QueryError, agent_id_required, invalid_page_token, query}
use vantage_core.Telemetry.Registry.{Registry, group_id, resolve}

-- What `Status` reads: the greatest time, and the counts of the valid and of the invalid rows.
pub record Counts : Type 0 where
  pub last : Option ℕ
  pub valid : ℕ
  pub invalid : ℕ

abbrev later : ℕ → Option ℕ → Option ℕ
later t none = some t
later t (some u) = if ltb t u then some u else some t

abbrev count_valid : Option Bool → Counts → Counts
count_valid none c = c
count_valid (some true) c = record c { valid = suc c.valid }
count_valid (some false) c = record c { invalid = suc c.invalid }

abbrev counted : Point → Counts → Counts
counted p c = count_valid p.valid (record c { last = later p.time c.last })

unfoldable pub status : ℕ → List Point → Counts
status since [] = record { last = none; valid = 0; invalid = 0 }
status since (p ∷ ps) =
    let rest = status since ps in if ltb since p.time then counted p rest else rest

pub record TelemetryPoint (Struct : Type 0) : Type 0 where
  pub agent_id : Str
  pub time : ℕ
  pub received_at : ℕ
  pub group_id : Str
  pub schema_hash : Str
  pub payload : Option Struct
  pub valid : Option Bool
  pub fields : Option Struct

module _ {Struct : Type 0} (unmarshal : Str → Option Struct) where
  unfoldable pub json_to_struct : Str → Option Struct
  json_to_struct b = if nat_eq (length b) 0 then none else unmarshal b

  abbrev struct_of : Option Str → Option Struct
  struct_of none = none
  struct_of (some b) = json_to_struct b

  unfoldable pub point_to_proto : Point → TelemetryPoint Struct
  unfolding json_to_struct
  point_to_proto p = record {
    agent_id = p.agent_id;
    time = p.time;
    received_at = p.received_at;
    group_id = p.group_id;
    schema_hash = p.schema_hash;
    payload = json_to_struct p.payload;
    valid = p.valid;
    fields = struct_of p.fields;
  }

pub record QueryTelemetryRequest : Type 0 where
  pub agent_id : Str
  pub from : Option ℕ
  pub to : Option ℕ
  pub bucket : Option (ℕ → ℕ)
  pub limit : ℕ
  pub page_token : Str

-- an hour
abbrev pub default_status_window : ℕ
default_status_window = 3600000000000

-- Times before 0 are left out: an hour before a time earlier than that is the zero time.
abbrev pub from_of : QueryTelemetryRequest → ℕ → ℕ
from_of req to = get_or req.from (to - default_status_window)

abbrev code_of : QueryError → Code
code_of agent_id_required = internal
code_of invalid_page_token = internal

module _ {Struct : Type 0} (encode : ℕ → Str) (decode : Str → Option ℕ)
    (unmarshal : Str → Option Struct) where
  abbrev page_response :
      Result QueryError (List Point × Str) → Result Code (List (TelemetryPoint Struct) × Str)
  page_response (err e) = err (code_of e)
  page_response (ok (ps, token)) = ok (map (point_to_proto unmarshal) ps, token)

  abbrev query_from :
      QueryTelemetryRequest → ℕ → List Point → Result Code (List (TelemetryPoint Struct) × Str)
  query_from req to rows = page_response (
      query encode decode req.bucket rows req.agent_id (from_of req to) to req.limit req.page_token)

  abbrev read_rows :
      QueryTelemetryRequest
      → ℕ
      → Option (List Point)
      → Result Code (List (TelemetryPoint Struct) × Str)
  read_rows req now none = err internal
  read_rows req now (some rows) = query_from req (get_or req.to now) rows

  -- `querier` is none while persistence is off, and otherwise what the database gives.
  unfoldable pub query_telemetry :
      QueryTelemetryRequest
      → ℕ
      → Option (Option (List Point))
      → Result Code (List (TelemetryPoint Struct) × Str)
  unfolding point_to_proto
  query_telemetry req now querier =
      if nat_eq (length req.agent_id) 0
      then err invalid_argument
      else elim querier [ none ↦ err unavailable | some rows ↦ read_rows req now rows ]

pub record TelemetryStatus : Type 0 where
  pub agent_id : Str
  pub group_id : Str
  pub schema_hash : Str
  pub last_seen : Option ℕ
  pub valid_count : ℤ
  pub invalid_count : ℤ
  pub recent_violations : List ViolationSummary

abbrev pub recent_violations_limit : ℕ
recent_violations_limit = 20

abbrev counts_of : ℕ → Option (List Point) → Counts
counts_of since none = record { last = none; valid = 0; invalid = 0 }
counts_of since (some rows) = status since rows

module _ {Resolved : Type 0} (summary : EventRecord → ViolationSummary) where
  -- The group and the contract of an agent.
  abbrev pub contract_of : Registry Resolved → Str → Str × Str
  contract_of r agent = elim (resolve r agent) [
    | some e ↦ (e.group_id, e.hash)
    | none ↦ (get_or (group_id r agent) [], [])
  ]

  abbrev status_response : Registry Resolved → Str → Counts → List EventRecord → TelemetryStatus
  status_response r agent c events = record {
    agent_id = agent;
    group_id = (contract_of r agent).0;
    schema_hash = (contract_of r agent).1;
    last_seen = c.last;
    valid_count = to_int32 c.valid;
    invalid_count = to_int32 c.invalid;
    recent_violations = map summary (take recent_violations_limit events);
  }

  abbrev with_events :
      Registry Resolved → Str → Counts → Option (List EventRecord) → Result Code TelemetryStatus
  with_events r agent c none = err internal
  with_events r agent c (some events) = ok (status_response r agent c events)

  abbrev with_counts :
      Registry Resolved
      → Str
      → ℕ
      → Option (Option (List Point))
      → Option (List EventRecord)
      → Result Code TelemetryStatus
  with_counts r agent since (some none) events = err internal
  with_counts r agent since none events = with_events r agent (counts_of since none) events
  with_counts r agent since (some (some rows)) events =
      with_events r agent (counts_of since (some rows)) events

  -- `window` is the parsed window, `none` for one that is no duration; `events` are the agent's
  -- violations, the last seen first.
  unfoldable pub get_telemetry_status :
      Registry Resolved
      → Str
      → Option ℕ
      → ℕ
      → Option (Option (List Point))
      → Option (List EventRecord)
      → Result Code TelemetryStatus
  unfolding status to_int32
  get_telemetry_status r agent window now querier events =
      if nat_eq (length agent) 0 then err invalid_argument else elim window [
        | none ↦ err invalid_argument
        | some w ↦ with_counts r agent (now - w) querier events
      ]
