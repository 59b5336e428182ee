-- ===== src/Core/Config.antt =====
-- cmd/core/pbconfig.go: the settings that core reads from its database, and the reloads that follow a
-- change of a collection. `Number` stands for float64. A record of the database has its typed columns
-- by name; a JSON column is there when `Get` returns a `types.JSONRaw`.
pub mod Watch
pub mod Loaders
pub mod Shows
pub mod Synced
pub mod Contracts
use vantage_core.Prelude.{
  Bool, true, false, ◌||◌, List, [], ◌∷◌, Option, none, some, Str, lit, ◌==◌, map, get_or, nat_eq,
  length, if◌then◌else◌,
}
use vantage_core.Prelude.Assoc
use vantage_core.Prelude.Assoc.{Map}
use vantage_core.Core.Agents.{AllowedAgent}
use vantage_core.Core.Missions.{MissionConfig}
use vantage_core.Telemetry.Mapping.{Spec}

pub record DbRecord (Number : Type 0) : Type 0 where
  pub id : Str
  pub texts : Map Str
  pub raws : Map Str
  pub bools : Map Bool
  pub floats : Map Number

-- cmd/core/config/config.go
pub record AgentLayoutConfig (Number : Type 0) : Type 0 where
  pub layout_id : Str
  pub agent_id : Str
  pub north_offset : Number
  pub transformation_matrix : List (List Number)

-- What the source uses of encoding/json, and the zero of float64.
pub record Decoder (Number : Type 0) : Type 0 where
  pub matrix : Str → Option (List (List Number))
  pub spec : Str → Option Spec
  pub zero_float : Number

-- A JSON column that is set to something other than null.
abbrev pub set_raw : Option Str → Option Str
set_raw none = none
set_raw (some raw) = if nat_eq (length raw) 0 || raw == lit "null" then none else some raw

abbrev pub add_raw : Str → Option Str → Map Str → Map Str
add_raw id none m = m
add_raw id (some raw) m = Assoc.put m id raw

abbrev pub add_membership : Str → Str → Map Str → Map Str
add_membership agent group out = if group == [] then out else Assoc.put out agent group

abbrev pub add_setting : Str → Bool → Map Bool → Map Bool
add_setting group enabled out = if group == [] then out else Assoc.put out group enabled

module _ {Number : Type 0} where
  -- `GetString`, `GetBool`
  abbrev pub get_string : DbRecord Number → Str → Str
  get_string r name = get_or (Assoc.get r.texts name) []

  abbrev pub get_bool : DbRecord Number → Str → Bool
  get_bool r name = get_or (Assoc.get r.bools name) false

  abbrev allowed_agent : DbRecord Number → AllowedAgent
  allowed_agent r = record {
    agent_id = get_string r (lit "agent_id");
    name = get_string r (lit "name");
    key = get_string r (lit "key");
  }

  unfoldable pub load_allowed_agents : List (DbRecord Number) → List AllowedAgent
  load_allowed_agents rs = map allowed_agent rs

  abbrev mission_config : DbRecord Number → MissionConfig
  mission_config r = record {
    id = get_string r (lit "mission_id");
    name = get_string r (lit "name");
    key = get_string r (lit "key");
  }

  unfoldable pub load_missions : List (DbRecord Number) → List MissionConfig
  load_missions rs = map mission_config rs

  -- The loop of `loadAgentGroupSchemas`.
  unfoldable pub schemas_from : List (DbRecord Number) → Map Str → Map Str
  schemas_from [] out = out
  schemas_from (r ∷ rs) out =
      schemas_from rs (add_raw r.id (set_raw (Assoc.get r.raws (lit "telemetry_schema"))) out)

  abbrev pub load_agent_group_schemas : List (DbRecord Number) → Map Str
  load_agent_group_schemas rs = schemas_from rs []

  -- The loop of `loadAgentGroupMemberships`.
  unfoldable pub memberships_from : List (DbRecord Number) → Map Str → Map Str
  memberships_from [] out = out
  memberships_from (r ∷ rs) out =
      memberships_from rs
        (add_membership (get_string r (lit "agent_id")) (get_string r (lit "agent_group")) out)

  abbrev pub load_agent_group_memberships : List (DbRecord Number) → Map Str
  load_agent_group_memberships rs = memberships_from rs []

  -- The loop of `loadTelemetryPersistSettings`.
  unfoldable pub settings_from : List (DbRecord Number) → Map Bool → Map Bool
  settings_from [] out = out
  settings_from (r ∷ rs) out =
      settings_from rs
        (add_setting (get_string r (lit "agent_group")) (get_bool r (lit "persist_enabled")) out)

  abbrev pub load_telemetry_persist_settings : List (DbRecord Number) → Map Bool
  load_telemetry_persist_settings rs = settings_from rs []

abbrev pub add_spec : Str → Option Spec → Map Spec → Map Spec
add_spec id none out = out
add_spec id (some spec) out = Assoc.put out id spec

module _ {Number : Type 0} (d : Decoder Number) where
  abbrev pub layout_of : DbRecord Number → List (List Number) → AgentLayoutConfig Number
  layout_of r matrix = record {
    layout_id = get_string r (lit "layout_id");
    agent_id = get_string r (lit "agent_id");
    north_offset = get_or (Assoc.get r.floats (lit "north_offset")) d.zero_float;
    transformation_matrix = matrix;
  }

  -- What a row adds: a bad matrix skips the row.
  abbrev pub row_of :
      DbRecord Number
      → Option (List (List Number))
      → List (AgentLayoutConfig Number)
      → List (AgentLayoutConfig Number)
  row_of r none rest = rest
  row_of r (some matrix) rest = layout_of r matrix ∷ rest

  abbrev pub matrix_of : DbRecord Number → Option (List (List Number))
  matrix_of r = d.matrix (get_or (Assoc.get r.raws (lit "transformation_matrix")) [])

  unfoldable pub load_agent_layouts : List (DbRecord Number) → List (AgentLayoutConfig Number)
  load_agent_layouts [] = []
  load_agent_layouts (r ∷ rs) = row_of r (matrix_of r) (load_agent_layouts rs)

  abbrev pub spec_of : Option Str → Option Spec
  spec_of none = none
  spec_of (some raw) = d.spec raw

  -- The loop of `loadAgentGroupMappings`.
  unfoldable pub mappings_from : List (DbRecord Number) → Map Spec → Map Spec
  mappings_from [] out = out
  mappings_from (r ∷ rs) out =
      mappings_from rs
        (add_spec r.id (spec_of (set_raw (Assoc.get r.raws (lit "telemetry_mapping")))) out)

  abbrev pub load_agent_group_mappings : List (DbRecord Number) → Map Spec
  load_agent_group_mappings rs = mappings_from rs []
