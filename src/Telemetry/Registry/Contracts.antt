-- ===== src/Telemetry/Registry/Contracts.antt =====
-- Which contract an agent has after the schemas of the groups were set.
use vantage_core.Prelude.{
  ◌≡◌, refl, ◌∙◌, [], none, some, Str, if◌then◌else◌, arith, Option-cases, inl, inr,
}
use vantage_core.Prelude.Assoc
use vantage_core.Prelude.Assoc.{Map}
use vantage_core.Telemetry.Registry.{
  Library, Registry, Entry, Loaded, is_live, group_id, resolve_group, resolve, digest, compile,
  load_all, set_group_schemas,
}
use vantage_core.Telemetry.Registry.Loading.{
  IsCache, Pointed, contract, get-retain, is_live_pointed, get-nil, load_all-Pointed,
  load_all-absent, load_all-unset, load_all-set,
}

module _ {Schema Resolved : Type 0} (lib : Library Schema Resolved) where
  abbrev loaded : Map Str → Registry Resolved → Loaded Resolved
  loaded schemas r =
      load_all lib schemas (record { group_hash = []; compiled = r.compiled; first_err = none })

  loaded-Pointed :
      (schemas : Map Str) (r : Registry Resolved)
      → IsCache lib r.compiled
      → Pointed lib (loaded schemas r)
  unfolding Assoc.get
  loaded-Pointed schemas r h =
      load_all-Pointed lib schemas
        (record { group_hash = []; compiled = r.compiled; first_err = none })
        (record { cache = h; pointed = λ g i q. absurd (ground arith) })

  abbrev after : Map Str → Registry Resolved → Registry Resolved
  after schemas r = (set_group_schemas lib schemas r).0

  compiled-after :
      (schemas : Map Str) (r : Registry Resolved) (hash : Str)
      → Assoc.get (after schemas r).compiled hash ≡ (
          if is_live (after schemas r).group_hash hash
          then Assoc.get (loaded schemas r).compiled hash
          else none)
  unfolding set_group_schemas
  compiled-after schemas r hash =
      get-retain (loaded schemas r).group_hash (loaded schemas r).compiled hash

  -- The cache stays one, whatever the schemas are: each compiled schema stands under the hash of its
  -- text and is what this text compiles to.
  pub set_group_schemas-IsCache :
      (schemas : Map Str) (r : Registry Resolved)
      → IsCache lib r.compiled
      → IsCache lib (after schemas r).compiled
  set_group_schemas-IsCache schemas r h = record {
    at = λ hash c q.
        (loaded-Pointed schemas r h).cache.at hash c
          (ground (arith, compiled-after schemas r hash));
  }

  group_id-after :
      (schemas : Map Str) (r : Registry Resolved) (agent : Str)
      → group_id (after schemas r) agent ≡ group_id r agent
  unfolding set_group_schemas group_id
  group_id-after schemas r agent = refl

  resolve_group-none :
      (r : Registry Resolved) (group : Str)
      → Assoc.get r.group_hash group ≡ none
      → resolve_group r group ≡ none
  resolve_group-none r group h = rw (h, resolve_group) refl

  resolve_group-after :
      (schemas : Map Str) (r : Registry Resolved) (group hash : Str)
      → IsCache lib r.compiled
      → Assoc.get (after schemas r).group_hash group ≡ some hash
      → (e : Entry Resolved) × (resolve_group (after schemas r) group ≡ some e)
        × (e.group_id ≡ group)
        × (e.hash ≡ hash)
        × (digest lib e.raw ≡ hash)
        × (compile lib e.raw ≡ some e.resolved)
  unfolding set_group_schemas
  resolve_group-after schemas r group hash h g =
      elim (Option-cases (Assoc.get (after schemas r).compiled hash)) [
        | inl n ↦ absurd (
            ground (
              arith,
              compiled-after schemas r hash,
              is_live_pointed (after schemas r).group_hash group hash g,
              (loaded-Pointed schemas r h).pointed group hash g,
            ))
        | inr (c, n) ↦
            let (d, m) = (set_group_schemas-IsCache schemas r h).at hash c n in
            (
              record { group_id = group; hash = hash; raw = c.raw; resolved = c.resolved },
              rw (g, resolve_group, n) refl,
              refl,
              refl,
              d,
              m,
            )
      ]

  -- After the schemas of the groups are set, an agent of a group whose schema is JSON and compiles has a
  -- contract lib: the entry is of this group, has the hash of the schema's canonical text, and a text with
  -- this hash with what this text compiles to. The schemas of the other groups make no difference,
  -- also those that are invalid.
  pub resolve-set_group_schemas :
      (schemas : Map Str) (r : Registry Resolved) (agent group raw hash canon : Str) (x : Resolved)
      → IsCache lib r.compiled
      → Assoc.Distinct schemas
      → group_id r agent ≡ some group
      → Assoc.get schemas group ≡ some raw
      → contract lib raw ≡ some (hash, canon)
      → compile lib canon ≡ some x
      → (e : Entry Resolved) × (resolve (after schemas r) agent ≡ some e)
        × (e.group_id ≡ group)
        × (e.hash ≡ hash)
        × (digest lib e.raw ≡ hash)
        × (compile lib e.raw ≡ some e.resolved)
  unfolding set_group_schemas resolve
  resolve-set_group_schemas schemas r agent group raw hash canon x h d g s c m =
      let (e, f, i, j, k, n) = resolve_group-after schemas r group hash h (
        load_all-set lib schemas group raw hash canon x
          (record { group_hash = []; compiled = r.compiled; first_err = none }) d s c m) in
      (e, rw (resolve, group_id-after schemas r agent, g) f, i, j, k, n)

  -- An agent has no contract lib if it has no group, or if its group has no schema among those that were
  -- set, or one that is empty, null or no JSON.
  pub resolve-set_group_schemas_none :
      (schemas : Map Str) (r : Registry Resolved) (agent : Str)
      → Assoc.Distinct schemas
      → ((group raw : Str)
          → group_id r agent ≡ some group
          → Assoc.get schemas group ≡ some raw
          → contract lib raw ≡ none)
      → resolve (after schemas r) agent ≡ none
  unfolding set_group_schemas resolve
  resolve-set_group_schemas_none schemas r agent d h = elim (Option-cases (group_id r agent)) [
    | inl e ↦ rw (resolve, group_id-after schemas r agent, e) refl
    | inr (group, e) ↦
        let first : Loaded Resolved = record {
          group_hash = [];
          compiled = r.compiled;
          first_err = none;
        } in
        rw (resolve, group_id-after schemas r agent, e)
          (resolve_group-none (after schemas r) group
            (elim (Option-cases (Assoc.get schemas group)) [
              | inl n ↦ load_all-absent lib schemas group first n ∙ get-nil group
              | inr (raw, n) ↦
                  load_all-unset lib schemas group raw first d n (h group raw e n) ∙ get-nil group
            ]))
  ]
