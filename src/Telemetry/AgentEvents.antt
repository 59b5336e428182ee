-- ===== src/Telemetry/AgentEvents.antt =====
-- cmd/core/telemetry/events/pbsink.go, and the reader of its rows in
-- cmd/core/controller/telemetry_connect.go. A JSON column is its text; `encode` and `decode` are
-- encoding/json at lists of strings. `store_json` is what a JSON column of the database makes of a text, or
-- `none` if it keeps nothing of it, and `store_time` what a column makes of a time.
pub mod RoundTrip
use vantage_core.Prelude.{
  ℕ, Bool, true, false, ◌||◌, List, [], ◌∷◌, ◌++◌, Option, none, some, Str, lit, ◌==◌, nat_eq,
  length, get_or, ltb, if◌then◌else◌, ◌-◌, ◌%◌, ◌^◌,
}
use vantage_core.Telemetry.Mapping.Int.{ℤ, pos, negsuc}
use vantage_core.Telemetry.Violation.{
  Kind, Violation, kind_string, signature, missing_required, type_mismatch, constraint, not_json,
  no_contract, schema_contract_mismatch, bad_timestamp,
}

-- A row of agent_events.
pub record EventRecord : Type 0 where
  pub agent_id : Str
  pub type : Str
  pub severity : Str
  pub kind : Str
  pub signature : Str
  pub detail : Str
  pub paths : Option Str
  pub sample : Option Str
  pub count : ℕ
  pub first_seen : ℕ
  pub last_seen : ℕ

abbrev pub type_telemetry_violation : Str
type_telemetry_violation = lit "telemetry_violation"

unfoldable pub severity_for : Kind → Str
severity_for no_contract = lit "info"
severity_for missing_required = lit "warning"
severity_for type_mismatch = lit "warning"
severity_for constraint = lit "warning"
severity_for not_json = lit "warning"
severity_for schema_contract_mismatch = lit "warning"
severity_for bad_timestamp = lit "warning"

-- An int32 of a count.
unfoldable pub to_int32 : ℕ → ℤ
to_int32 n = let w = n % 2 ^ 32 in if ltb w (2 ^ 31) then pos w else negsuc (2 ^ 32 - w - 1)

pub record ViolationSummary : Type 0 where
  pub kind : Str
  pub detail : Str
  pub count : ℤ
  pub last_seen : ℕ
  pub paths : List Str
  pub sample_json : Str

module _ (encode : List Str → Str) (decode : Str → Option (List Str)) (sha256 : Str → Str)
    (store_json : Str → Option Str) (store_time : ℕ → ℕ) where
  abbrev set_sample : Str → Option Str
  set_sample sample = if nat_eq (length sample) 0 then none else store_json sample

  abbrev set_paths : List Str → Option Str
  set_paths [] = none
  set_paths (p ∷ ps) = store_json (encode (p ∷ ps))

  unfoldable pub event_record : Violation → ℕ → ℕ → ℕ → EventRecord
  unfolding signature severity_for
  event_record v count first_seen last_seen = record {
    agent_id = v.agent_id;
    type = type_telemetry_violation;
    severity = severity_for v.kind;
    kind = kind_string v.kind;
    signature = signature sha256 v;
    detail = v.detail;
    paths = set_paths v.paths;
    sample = set_sample v.sample;
    count = count;
    first_seen = store_time first_seen;
    last_seen = store_time last_seen;
  }

  -- `Emit`, where the collection is found and the row is saved as told.
  unfoldable pub emit : Bool → Bool → Violation → ℕ → ℕ → ℕ → List EventRecord → List EventRecord
  unfolding event_record
  emit found saved v count first_seen last_seen rows =
      if found
      then (if saved then rows ++ event_record v count first_seen last_seen ∷ [] else rows)
      else rows

  abbrev read_paths : Option Str → List Str
  read_paths none = []
  read_paths (some b) = get_or (decode b) []

  abbrev read_sample : Option Str → Str
  read_sample none = []
  read_sample (some raw) = if nat_eq (length raw) 0 || raw == lit "null" then [] else raw

  unfoldable pub violation_summary : EventRecord → ViolationSummary
  unfolding to_int32
  violation_summary r = record {
    kind = r.kind;
    detail = r.detail;
    count = to_int32 r.count;
    last_seen = r.last_seen;
    paths = read_paths r.paths;
    sample_json = read_sample r.sample;
  }
