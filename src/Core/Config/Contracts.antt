-- ===== src/Core/Config/Contracts.antt =====
-- The contract that an agent gets from the rows of the database.
use vantage_core.Prelude.{◌≡◌, false, some, Str, arith, subst, sym}
use vantage_core.Prelude.Assoc
use vantage_core.Prelude.Assoc.{Map}
use vantage_core.Core.Config.{Decoder, load_agent_group_schemas}
use vantage_core.Core.Config.Loaders.{
  IdsDiffer, find_row, schema_of, get-load_agent_group_schemas, load_agent_group_schemas-Distinct,
}
use vantage_core.Core.Config.Synced.{Core, IsSynced}
use vantage_core.Core.Config.Watch.{agent_groups, reload_schemas}
use vantage_core.Telemetry.Registry.{
  Library, Registry, Entry, group_id, resolve, digest, compile, set_group_schemas,
}
use vantage_core.Telemetry.Registry.Contracts.{resolve-set_group_schemas}
use vantage_core.Telemetry.Registry.Loading.{contract}

module _ {Schema Resolved : Type 0} (lib : Library Schema Resolved) where
  same_registry :
      (schemas : Map Str) (r before : Registry Resolved)
      → r.group_hash ≡ (set_group_schemas lib schemas before).0.group_hash
      → r.compiled ≡ (set_group_schemas lib schemas before).0.compiled
      → (set_group_schemas lib schemas (record before { agent_group = r.agent_group })).0 ≡ r
  unfolding set_group_schemas
  same_registry schemas r before p q = ground arith

module _ {Number Stream Schema Resolved : Type 0} (d : Decoder Number)
    (lib : Library Schema Resolved) where
  -- Where the schemas were reloaded since the agent groups changed last: an agent whose group has a row
  -- with a schema that is JSON and compiles has a contract, the one of this group and with the hash of
  -- the canonical text of the schema in this row, whatever the other rows hold and whichever schemas
  -- were loaded before.
  pub resolve_of_row :
      (s : Core Number Stream Resolved) (agent group raw hash canon : Str) (x : Resolved)
      → IsSynced d lib s
      → s.pending reload_schemas ≡ false
      → IdsDiffer (s.db agent_groups)
      → group_id s.configured.schema_registry agent ≡ some group
      → schema_of (find_row (s.db agent_groups) group) ≡ some raw
      → contract lib raw ≡ some (hash, canon)
      → compile lib canon ≡ some x
      → (e : Entry Resolved) × (resolve s.configured.schema_registry agent ≡ some e)
        × (e.group_id ≡ group)
        × (e.hash ≡ hash)
        × (digest lib e.raw ≡ hash)
        × (compile lib e.raw ≡ some e.resolved)
  unfolding set_group_schemas group_id
  resolve_of_row s agent group raw hash canon x v n u g f c m =
      let r = s.configured.schema_registry in
      let rows = s.db agent_groups in
      let schemas = load_agent_group_schemas rows in
      let (before, i, p, q) = v.shows reload_schemas n in
      let b : Registry Resolved = record before { agent_group = r.agent_group } in
      let same = same_registry lib schemas r before p q in
      let has : Assoc.get schemas group ≡ some raw =
        rw (get-load_agent_group_schemas rows group u) f in
      subst
        (λ k.
          (e : Entry Resolved) × (resolve k agent ≡ some e)
          × (e.group_id ≡ group)
          × (e.hash ≡ hash)
          × (digest lib e.raw ≡ hash)
          × (compile lib e.raw ≡ some e.resolved))
        same
        (resolve-set_group_schemas lib schemas b agent group raw hash canon x i
          (load_agent_group_schemas-Distinct rows)
          (subst (λ k. group_id k agent ≡ some group) (sym same) g) has c m)
