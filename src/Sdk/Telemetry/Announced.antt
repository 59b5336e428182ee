-- ===== src/Sdk/Telemetry/Announced.antt =====
-- The schema that an agent announces and the contract that core has for it.
use vantage_core.Prelude.{ℕ, ◌≡◌, ◌↔◌, false, none, some, Str, ==_iff, arith}
use vantage_core.Core.Config.{Decoder}
use vantage_core.Core.Config.Contracts.{resolve_of_row}
use vantage_core.Core.Config.Loaders.{IdsDiffer, find_row, schema_of}
use vantage_core.Core.Config.Synced.{Core, IsSynced}
use vantage_core.Core.Config.Watch.{agent_groups, reload_schemas}
use vantage_core.Sdk.Telemetry.{
  TelemetrySchema, TelemetrySchemaAnnouncement, Encoding, announcement, derive_telemetry_schema,
}
use vantage_core.Telemetry.Registry.{Library, group_id, hash_schema, canonicalize_json, compile}
use vantage_core.Telemetry.Registry.Loading.{contract}
use vantage_core.Telemetry.Validate.{Validation, check_schema_announcement}

-- Core reads the hash of an announcement that the agent wrote.
abbrev pub ReadsHashes : {T Resolved : Type 0} → Encoding T → Validation Resolved → Type 0
ReadsHashes encoding v =
    (a : TelemetrySchemaAnnouncement) (b : Str)
    → encoding.announcement a ≡ some b
    → v.announced_hash b ≡ some a.schema_hash

derived_hash :
    {Schema Resolved : Type 0} (lib : Library Schema Resolved) (raw hash canon derived : Str)
    (t : TelemetrySchema)
    → contract lib raw ≡ some (hash, canon)
    → derive_telemetry_schema lib (some derived) ≡ some t
    → canonicalize_json lib derived ≡ canonicalize_json lib raw
    → t.hash ≡ hash
unfolding derive_telemetry_schema hash_schema
derived_hash lib raw hash canon derived t c der same = ground arith

module _ {Number Stream Schema Resolved T : Type 0} (d : Decoder Number)
    (lib : Library Schema Resolved) (encoding : Encoding T) (v : Validation Resolved) where
  -- From the Go type of an agent to core's verdict: where core has loaded the contract of the agent's
  -- group from the group's row, the announcement that the agent makes of its derived schema is accepted
  -- exactly if it has the hash of the contract, and so always if the two schemas have the same canonical
  -- JSON.
  pub check_schema_announcement-derived :
      (s : Core Number Stream Resolved) (agent group raw hash canon derived payload : Str)
      (x : Resolved) (t : TelemetrySchema) (now : ℕ)
      → ReadsHashes encoding v
      → IsSynced d lib s
      → s.pending reload_schemas ≡ false
      → IdsDiffer (s.db agent_groups)
      → group_id s.configured.schema_registry agent ≡ some group
      → schema_of (find_row (s.db agent_groups) group) ≡ some raw
      → contract lib raw ≡ some (hash, canon)
      → compile lib canon ≡ some x
      → derive_telemetry_schema lib (some derived) ≡ some t
      → encoding.announcement (announcement encoding agent now t) ≡ some payload
      → ((check_schema_announcement v s.configured.schema_registry agent payload ≡ none)
          ↔ (t.hash ≡ hash))
        × (canonicalize_json lib derived ≡ canonicalize_json lib raw
            → check_schema_announcement v s.configured.schema_registry agent payload ≡ none)
  unfolding check_schema_announcement derive_telemetry_schema
  check_schema_announcement-derived s agent group raw hash canon derived payload x t now reads sync
        fresh ids member row c m der enc =
      let (e, f, _, h, _, _) =
        resolve_of_row d lib s agent group raw hash canon x sync fresh ids member row c m in
      let told = reads (announcement encoding agent now t) payload enc in
      let verdict : (check_schema_announcement v s.configured.schema_registry agent payload ≡ none)
          ↔ (t.hash ≡ hash) =
        ground (arith, f, told, h, ==_iff t.hash e.hash) in
      (verdict, λ same. verdict.1 (derived_hash lib raw hash canon derived t c der same))
