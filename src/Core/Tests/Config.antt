-- ===== src/Core/Tests/Config.antt =====
-- Settings of a small database.
use vantage_core.Prelude.{
  ◌≡◌, ◌↔◌, refl, true, false, Bool, List, [], ◌∷◌, Option, none, some, Str, lit, ◌==◌, arith,
}
use vantage_core.Prelude.Assoc
use vantage_core.Core.Agents.{AgentRegistry}
use vantage_core.Core.Agents
use vantage_core.Core.Missions
use vantage_core.Core.Auth
use vantage_core.Core.Auth.{copy_tokens}
use vantage_core.Core.Auth.Hex.{encode_to_string}
use vantage_core.Core.Config.{
  DbRecord, Decoder, load_allowed_agents, load_missions, load_agent_layouts, memberships_from,
  schemas_from, mappings_from, settings_from,
}
use vantage_core.Core.Config.Loaders.{find_row, IdsDiffer, schema_of}
use vantage_core.Core.Config.Shows.{Shows, install-Shows, install-IsCache, install-keeps}
use vantage_core.Core.Config.Synced.{
  Core, IsSynced, Happening, changes, reads, sets, fails_to_read, after_all, reactions,
  reactions-Shows,
}
use vantage_core.Core.Config.Watch.{
  Collection, agents, agent_groups, Reload, reload_agents, reload_memberships, reload_missions,
  reload_layouts, reload_schemas, reload_mappings, reload_settings, collection_of, Configured,
  install,
}
use vantage_core.Telemetry.Json.{Json, string}
use vantage_core.Telemetry.Registry.{
  Library, group_id, compile, set_group_schemas, hash_schema, canonicalize_json, load_all,
  set_agent_groups, retain,
}
use vantage_core.Telemetry.Registry.Loading.{IsCache, contract}
use vantage_core.Telemetry.Validate.{Validation, check_schema_announcement}
use vantage_core.Sdk.Telemetry.{TelemetrySchema, Encoding, derive_telemetry_schema}
use vantage_core.Sdk.Telemetry.Announced.{ReadsHashes, check_schema_announcement-derived}

abbrev text_of : Json → Option Str
text_of (string s) = some s
text_of _ = none

-- Every text is JSON, and every schema compiles.
abbrev library : Library Str Str
library = record {
  unmarshal = λ s. some (string s);
  marshal = text_of;
  sha256 = λ s. s;
  unmarshal_schema = some;
  resolve_schema = some;
}

abbrev decoder : Decoder Str
decoder = record { matrix = λ s. none; spec = λ s. none; zero_float = lit "0" }

abbrev no_record : DbRecord Str
no_record = record { id = []; texts = []; raws = []; bools = []; floats = [] }

abbrev agent_rows : List (DbRecord Str)
agent_rows =
    record no_record {
      id = lit "1";
      texts =
          (lit "agent_id", lit "a")
          ∷ (lit "name", lit "Robot")
          ∷ (lit "key", lit "k")
          ∷ (lit "agent_group", lit "g")
          ∷ [];
    }
    ∷ []

abbrev group_rows : List (DbRecord Str)
group_rows =
    record no_record { id = lit "h" }
    ∷ record no_record { id = lit "g"; raws = (lit "telemetry_schema", lit "{}") ∷ [] }
    ∷ []

abbrev empty : Configured Str Str Str
empty = record {
  agent_registry = record {
    auth_service = Auth.new_auth_service;
    allowed_agents = [];
    skills = [];
    cameras = [];
    grpc_advertise_addr = [];
    mqtt_last_seen = [];
  };
  mission_registry = record {
    missions = [];
    streams = [];
    alloweds = [];
    auth_service = Auth.new_auth_service;
  };
  layouts = [];
  schema_registry = record { agent_group = []; group_hash = []; compiled = [] };
  persist = some (record { mappings = []; enabled = [] });
}

empty-IsCache : IsCache library []
unfolding Assoc.get
empty-IsCache = record { at = λ h c e. absurd (ground arith) }

-- Before the first reload nothing is set.
abbrev before : Core Str Str Str
before = record { db = λ c. []; configured = empty; reading = []; pending = λ h. true }

-- The schemas are read before the groups change, and set after a reload that has read the change.
abbrev happenings : List (Happening Str)
happenings =
    reads reload_schemas
    ∷ changes agents agent_rows
    ∷ changes agent_groups group_rows
    ∷ fails_to_read reload_agents
    ∷ reads reload_schemas
    ∷ sets 0
    ∷ sets 0
    ∷ []

-- Nothing is set, and the database is empty.
abbrev fresh : Core Str Str Str
fresh = record { db = λ c. []; configured = empty; reading = []; pending = λ h. false }

empty-Shows : (h : Reload) → Shows decoder library h [] empty
unfolding load_allowed_agents load_missions load_agent_layouts memberships_from schemas_from
    mappings_from settings_from set_group_schemas copy_tokens Agents.reg_tokens Missions.reg_tokens
    load_all retain
empty-Shows reload_agents = (refl, refl)
empty-Shows reload_memberships = refl
empty-Shows reload_missions = (refl, refl)
empty-Shows reload_layouts = refl
empty-Shows reload_schemas = (empty.schema_registry, empty-IsCache, refl, refl)
empty-Shows reload_mappings = refl
empty-Shows reload_settings = refl

fresh-IsSynced : IsSynced decoder library fresh
fresh-IsSynced = record { cache = empty-IsCache; shows = λ h _. empty-Shows h; readings = tt }

abbrev edits : List (Collection × List (DbRecord Str))
edits = (agents, agent_rows) ∷ (agent_groups, group_rows) ∷ (agents, []) ∷ []

reactions-Shows_example :
    Shows decoder library reload_schemas
      ((after_all decoder library (reactions edits) fresh).db agent_groups)
      (after_all decoder library (reactions edits) fresh).configured
reactions-Shows_example =
    reactions-Shows decoder library edits fresh fresh-IsSynced (λ h. refl) reload_schemas

-- All is reloaded but the layouts and what is persisted.
abbrev is_late : Reload → Bool
is_late reload_agents = true
is_late reload_memberships = false
is_late reload_missions = true
is_late reload_layouts = true
is_late reload_schemas = false
is_late reload_mappings = true
is_late reload_settings = true

abbrev rows : Collection → List (DbRecord Str)
rows agents = agent_rows
rows agent_groups = group_rows
rows _ = []

abbrev joined : Configured Str Str Str
joined = install decoder library reload_memberships agent_rows empty

abbrev loaded : Core Str Str Str
loaded = record {
  db = rows;
  configured = install decoder library reload_schemas group_rows joined;
  reading = [];
  pending = is_late;
}

empty-joined : IsCache library joined.schema_registry.compiled
empty-joined = install-IsCache decoder library reload_memberships agent_rows empty empty-IsCache

loaded-Shows :
    (h : Reload)
    → is_late h ≡ false
    → Shows decoder library h (rows (collection_of h)) loaded.configured
loaded-Shows reload_memberships e =
    install-keeps decoder library reload_memberships reload_schemas agent_rows group_rows joined
      (λ p. cc) (install-Shows decoder library reload_memberships agent_rows empty empty-IsCache)
loaded-Shows reload_schemas e =
    install-Shows decoder library reload_schemas group_rows joined empty-joined
loaded-Shows reload_agents e = cc
loaded-Shows reload_missions e = cc
loaded-Shows reload_layouts e = cc
loaded-Shows reload_mappings e = cc
loaded-Shows reload_settings e = cc

loaded-IsSynced : IsSynced decoder library loaded
loaded-IsSynced = record {
  cache = install-IsCache decoder library reload_schemas group_rows joined empty-joined;
  shows = loaded-Shows;
  readings = tt;
}

-- An announcement is written as its hash.
abbrev encoding : Encoding Str
encoding = record { announcement = λ a. some a.schema_hash; value = some }

abbrev validation : Validation Str
validation = record {
  schema = λ r. record { required = []; properties = [] };
  error = λ r j. none;
  unmarshal = λ s. none;
  unmarshal_error = λ s. [];
  marshal_string = λ s. s;
  is_integral = λ n. true;
  announced_hash = some;
  announced_error = λ s. [];
  mismatch = λ s t. [];
}

encoding-ReadsHashes : ReadsHashes encoding validation
encoding-ReadsHashes a b e = cc

abbrev derived : TelemetrySchema
derived = record { hash = lit "7b7d"; schema = lit "{}" }

member : group_id loaded.configured.schema_registry (lit "a") ≡ some (lit "g")
unfolding group_id Assoc.get Assoc.put ◌==◌ install memberships_from set_agent_groups
    set_group_schemas
member = refl

row_is_there : schema_of (find_row group_rows (lit "g")) ≡ some (lit "{}")
unfolding Assoc.get ◌==◌
row_is_there = refl

ids_differ : IdsDiffer group_rows
unfolding ◌==◌
ids_differ = (refl, (refl, tt))

contract_of_row : contract library (lit "{}") ≡ some (lit "7b7d", lit "{}")
unfolding hash_schema canonicalize_json encode_to_string ◌==◌
contract_of_row = refl

derived_of_type : derive_telemetry_schema library (some (lit "{}")) ≡ some derived
unfolding derive_telemetry_schema hash_schema canonicalize_json encode_to_string ◌==◌
derived_of_type = refl

check_schema_announcement-derived_example :
    ((check_schema_announcement validation loaded.configured.schema_registry (lit "a") (lit "7b7d")
        ≡ none)
      ↔ (lit "7b7d" ≡ lit "7b7d"))
    × (canonicalize_json library (lit "{}") ≡ canonicalize_json library (lit "{}")
        → check_schema_announcement validation loaded.configured.schema_registry
            (lit "a")
            (lit "7b7d")
          ≡ none)
unfolding compile
check_schema_announcement-derived_example =
    check_schema_announcement-derived decoder library encoding validation loaded (lit "a") (lit "g")
      (lit "{}") (lit "7b7d") (lit "{}") (lit "{}") (lit "7b7d") (lit "{}") derived 5
      encoding-ReadsHashes loaded-IsSynced refl ids_differ member row_is_there contract_of_row refl
      derived_of_type refl
