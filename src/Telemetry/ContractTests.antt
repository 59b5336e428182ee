-- ===== src/Telemetry/ContractTests.antt =====
-- Contracts of groups, verdicts on payloads, and a message on its way.
use vantage_core.Core.Auth
use vantage_core.Prelude.{◌≡◌, ◌⊎◌, refl, true, [], ◌∷◌, Option, none, some, Str, lit, ◌==◌, arith}
use vantage_core.Prelude.Assoc
use vantage_core.Sdk.LinkedList
use vantage_core.Sdk.LinkedList.{LinkedList}
use vantage_core.Telemetry.Json.{Json, string, null}
use vantage_core.Telemetry.Live.Latest.{held}
use vantage_core.Telemetry.Mapping.{within_sane_window}
use vantage_core.Telemetry.Mapping.Int.{pos}
use vantage_core.Telemetry.Pipeline.{Services, Pipeline, Ingested, Clock, telemetry, on_message}
use vantage_core.Telemetry.Pipeline.Rows.{on_message_persists, IsVerdict, newly_held}
use vantage_core.Telemetry.Registry.{Library, Registry, group_id}
use vantage_core.Telemetry.Registry.Loading.{IsCache}
use vantage_core.Telemetry.Store.{Row, Store}
use vantage_core.Telemetry.Validate.{Validation, SchemaView, validate}

abbrev text_of : Json → Option Str
text_of (string s) = some s
text_of _ = none

-- Every text is JSON, and every schema compiles.
abbrev library : Library Str Str
library = record {
  unmarshal = λ s. some (string s);
  marshal = text_of;
  sha256 = λ s. s;
  unmarshal_schema = some;
  resolve_schema = some;
}

abbrev registry : Registry Str
registry = record { agent_group = (lit "a", lit "g") ∷ []; group_hash = []; compiled = [] }

empty-IsCache : IsCache library []
unfolding Assoc.get
empty-IsCache = record { at = λ h c e. absurd (ground arith) }

abbrev view : SchemaView
view = record { required = lit "battery" ∷ []; properties = [] }

abbrev validation : Validation Str
validation = record {
  schema = λ r. view;
  error = λ r j. none;
  unmarshal = λ s. some null;
  unmarshal_error = λ s. [];
  marshal_string = λ s. s;
  is_integral = λ n. true;
  announced_hash = some;
  announced_error = λ s. [];
  mismatch = λ s t. [];
}

abbrev services : Services Str
services = record {
  registry = registry;
  persist = record { mappings = []; enabled = (lit "g", true) ∷ [] };
  validation = validation;
  sha256 = λ s. s;
  parse_rfc3339 = λ s. none;
  to_int64 = pos;
  describe = λ e. [];
  describe_window = λ t r. [];
  marshal_fields = λ fs. none;
  marshal_envelope = λ v s. some s;
}

abbrev clock : Clock
clock = record { now = 1; first = 1; later = 1 }

abbrev message : Ingested
message = record { agent_id = lit "a"; kind = telemetry; payload = lit "{}"; received_at = pos 5 }

abbrev store : Store
store = record {
  cfg = record { batch_size = 2; queue_size = 3; max_retries = 3; retry_backoff = 200 };
  queue = [];
  written = 0;
  dropped = 0;
  failed = 0;
  batch = [];
  inserted = [];
}

abbrev pipeline : Pipeline
pipeline = record {
  agents = record {
    auth_service = Auth.new_auth_service;
    allowed_agents = [];
    skills = [];
    cameras = [];
    grpc_advertise_addr = [];
    mqtt_last_seen = [];
  };
  throttler = record {
    per_agent_cap = 50;
    global_per_second = 0;
    by_agent = [];
    lru_lists = [];
    timers = LinkedList.empty;
    evictions = 0;
    dropped = 0;
    rate_second = 0;
    rate_count = 0;
    emitted = [];
  };
  store = some store;
  live = record { next = 1; subs = (lit "a", (0, none) ∷ []) ∷ [] };
}

abbrev after : Pipeline
after = on_message services 9 clock clock message pipeline

on_message_persists_example :
    (row : Row) × (after.store ≡ some (record store { queue = row ∷ [] }))
    × (row.group_id ≡ lit "g")
    × (row.payload ≡ lit "{}")
    × IsVerdict (validate validation registry (lit "a") (lit "{}")) row.valid
    × ((row.time ≡ pos 5) ⊎ (within_sane_window row.time (pos 5) ≡ true))
    × (held after.live (lit "a") 0
        ≡ some (newly_held (services.marshal_envelope row.valid (lit "{}")) none))
unfolding Assoc.get ◌==◌ group_id LinkedList.find
on_message_persists_example =
    on_message_persists services 9 clock clock message pipeline (lit "g") store 0 none refl refl
      refl refl (omega arith) refl
