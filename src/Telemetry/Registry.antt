-- ===== src/Telemetry/Registry.antt =====
-- cmd/core/telemetry/registry/registry.go, with HashSchema of pkg/agentsdk/telemetry_schema.go: the
-- contract of an agent's group. `Library` is what the source uses of encoding/json, of crypto/sha256 and
-- of the JSON Schema library, whose schemas and compiled schemas are `Schema` and `Resolved`.
pub mod Loading
pub mod Contracts
use vantage_core.Core.Auth.Hex.{encode_to_string}
use vantage_core.Prelude.{
  ℕ, Bool, true, false, ◌||◌, List, [], ◌∷◌, Option, none, some, Str, lit, ◌==◌, nat_eq, length,
  take, if◌then◌else◌,
}
use vantage_core.Prelude.Assoc
use vantage_core.Prelude.Assoc.{Map}
use vantage_core.Telemetry.Json.{Json}

pub record Library (Schema Resolved : Type 0) : Type 0 where
  pub unmarshal : Str → Option Json
  pub marshal : Json → Option Str
  pub sha256 : Str → Str
  pub unmarshal_schema : Str → Option Schema
  pub resolve_schema : Schema → Option Resolved

pub record CompiledSchema (Resolved : Type 0) : Type 0 where
  pub raw : Str
  pub resolved : Resolved

pub record Registry (Resolved : Type 0) : Type 0 where
  pub agent_group : Map Str
  pub group_hash : Map Str
  pub compiled : Map (CompiledSchema Resolved)

pub record Entry (Resolved : Type 0) : Type 0 where
  pub group_id : Str
  pub hash : Str
  pub raw : Str
  pub resolved : Resolved

-- The group that an error of `SetGroupSchemas` names.
pub data RegistryError : Type 0 where
  invalid_schema : Str → RegistryError
  not_compiled : Str → RegistryError

-- The state of the loop of `SetGroupSchemas`.
pub record Loaded (Resolved : Type 0) : Type 0 where
  pub group_hash : Map Str
  pub compiled : Map (CompiledSchema Resolved)
  pub first_err : Option RegistryError

abbrev or_first : Option RegistryError → RegistryError → Option RegistryError
or_first none e = some e
or_first (some first) e = some first

-- Whether a group points at a hash.
unfoldable pub is_live : Map Str → Str → Bool
is_live [] hash = false
is_live ((_, h) ∷ m) hash = h == hash || is_live m hash

module _ {Resolved : Type 0} where
  abbrev pub new_registry : Registry Resolved
  new_registry = record { agent_group = []; group_hash = []; compiled = [] }

  unfoldable pub set_agent_groups : Map Str → Registry Resolved → Registry Resolved
  set_agent_groups m r = record r { agent_group = m }

  unfoldable pub retain : Map Str → Map (CompiledSchema Resolved) → Map (CompiledSchema Resolved)
  retain live [] = []
  retain live ((hash, c) ∷ m) =
      let rest = retain live m in if is_live live hash then (hash, c) ∷ rest else rest

  unfoldable pub group_id : Registry Resolved → Str → Option Str
  group_id r agent = elim (Assoc.get r.agent_group agent) [
    | none ↦ none
    | some group ↦ if nat_eq (length group) 0 then none else some group
  ]

  abbrev entry_at : Str → Str → CompiledSchema Resolved → Entry Resolved
  entry_at group hash c = record {
    group_id = group;
    hash = hash;
    raw = c.raw;
    resolved = c.resolved;
  }

  abbrev pub resolve_group : Registry Resolved → Str → Option (Entry Resolved)
  resolve_group r group = elim (Assoc.get r.group_hash group) [
    | none ↦ none
    | some hash ↦ elim (Assoc.get r.compiled hash) [
      | none ↦ none
      | some c ↦ some (entry_at group hash c)
    ]
  ]

  unfoldable pub resolve : Registry Resolved → Str → Option (Entry Resolved)
  resolve r agent = elim (group_id r agent) [ none ↦ none | some group ↦ resolve_group r group ]

module _ {Schema Resolved : Type 0} (lib : Library Schema Resolved) where
  unfoldable pub canonicalize_json : Str → Option Str
  canonicalize_json raw = elim (lib.unmarshal raw) [ none ↦ none | some v ↦ lib.marshal v ]

  abbrev pub digest : Str → Str
  digest canon = take 16 (encode_to_string (lib.sha256 canon))

  unfoldable pub hash_schema : Str → Option (Str × Str)
  hash_schema raw = elim (canonicalize_json raw) [
    | none ↦ none
    | some canon ↦ some (digest canon, canon)
  ]

  unfoldable pub compile : Str → Option Resolved
  compile raw = elim (lib.unmarshal_schema raw) [ none ↦ none | some s ↦ lib.resolve_schema s ]

  abbrev pub is_unset : Str → Bool
  is_unset raw = nat_eq (length raw) 0 || raw == lit "null"

  abbrev pub fail : RegistryError → Loaded Resolved → Loaded Resolved
  fail e l = record l { first_err = or_first l.first_err e }

  abbrev pub point : Str → Str → Loaded Resolved → Loaded Resolved
  point group hash l = record l { group_hash = Assoc.put l.group_hash group hash }

  abbrev pub add_compiled : Str → Str → Str → Loaded Resolved → Option Resolved → Loaded Resolved
  add_compiled group hash canon l none = fail (not_compiled group) l
  add_compiled group hash canon l (some x) =
      point group hash
        (record l { compiled = Assoc.put l.compiled hash (record { raw = canon; resolved = x }) })

  abbrev pub load_hashed : Str → Loaded Resolved → Option (Str × Str) → Loaded Resolved
  load_hashed group l none = fail (invalid_schema group) l
  load_hashed group l (some (hash, canon)) = elim (Assoc.get l.compiled hash) [
    | some _ ↦ point group hash l
    | none ↦ add_compiled group hash canon l (compile canon)
  ]

  -- A round of the loop.
  unfoldable pub load : Str → Str → Loaded Resolved → Loaded Resolved
  load group raw l = if is_unset raw then l else load_hashed group l (hash_schema raw)

  unfoldable pub load_all : Map Str → Loaded Resolved → Loaded Resolved
  load_all [] l = l
  load_all ((group, raw) ∷ schemas) l = load_all schemas (load group raw l)

  unfoldable pub set_group_schemas :
      Map Str → Registry Resolved → Registry Resolved × Option RegistryError
  set_group_schemas schemas r =
      let l =
        load_all schemas (record { group_hash = []; compiled = r.compiled; first_err = none }) in
      (
        record r { group_hash = l.group_hash; compiled = retain l.group_hash l.compiled },
        l.first_err,
      )
