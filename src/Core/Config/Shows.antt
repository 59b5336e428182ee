-- ===== src/Core/Config/Shows.antt =====
-- What each reload of cmd/core/pbconfig.go sets, and that it leaves the rest alone.
use vantage_core.Prelude.{◌≡◌, ◌≢◌, refl, Bool, List, [], Option, none, some}
use vantage_core.Prelude.Assoc.{Map}
use vantage_core.Telemetry.Mapping.{Spec}
use vantage_core.Core.Agents.{set_allowed_agents, reg_tokens}
use vantage_core.Core.Auth.{copy_tokens, reset_reg_tokens}
use vantage_core.Core.Config.{
  DbRecord, Decoder, load_allowed_agents, load_missions, load_agent_layouts,
  load_agent_group_schemas, load_agent_group_memberships, load_agent_group_mappings,
  load_telemetry_persist_settings,
}
use vantage_core.Core.Config.Watch.{
  Reload, reload_agents, reload_memberships, reload_missions, reload_layouts, reload_schemas,
  reload_mappings, reload_settings, Configured, on_persist, install,
}
use vantage_core.Core.Missions
use vantage_core.Core.Missions.{MissionRegistry, set_allowed}
use vantage_core.Telemetry.Pipeline.{PersistRegistry, set_mappings, set_persist_enabled}
use vantage_core.Telemetry.Registry.{Library, Registry, set_agent_groups, set_group_schemas}
use vantage_core.Telemetry.Registry.Loading.{IsCache}
use vantage_core.Telemetry.Registry.Contracts.{set_group_schemas-IsCache}

-- A registry whose schemas were set to those of these records, from whatever cache it had.
abbrev pub HasSchemas :
    {Number Schema Resolved : Type 0}
    → Library Schema Resolved
    → List (DbRecord Number)
    → Registry Resolved
    → Type 0
HasSchemas {Resolved} lib rs r =
    (before : Registry Resolved) × IsCache lib before.compiled
    × (r.group_hash ≡ (set_group_schemas lib (load_agent_group_schemas rs) before).0.group_hash)
    × (r.compiled ≡ (set_group_schemas lib (load_agent_group_schemas rs) before).0.compiled)

abbrev pub HasMappings :
    {Number : Type 0} → Decoder Number → List (DbRecord Number) → Option PersistRegistry → Type 0
HasMappings d rs none = Unit
HasMappings d rs (some p) = p.mappings ≡ load_agent_group_mappings d rs

abbrev pub HasSettings :
    {Number : Type 0} → List (DbRecord Number) → Option PersistRegistry → Type 0
HasSettings rs none = Unit
HasSettings rs (some p) = p.enabled ≡ load_telemetry_persist_settings rs

module _ {Number : Type 0} (d : Decoder Number) (rs : List (DbRecord Number)) where
  set_mappings-HasMappings :
      (p : Option PersistRegistry)
      → HasMappings d rs (on_persist (set_mappings (load_agent_group_mappings d rs)) p)
  unfolding set_mappings
  set_mappings-HasMappings none = tt
  set_mappings-HasMappings (some p) = refl

  set_persist_enabled-HasMappings :
      (m : Map Bool) (p : Option PersistRegistry)
      → HasMappings d rs p
      → HasMappings d rs (on_persist (set_persist_enabled m) p)
  unfolding set_persist_enabled
  set_persist_enabled-HasMappings m none h = tt
  set_persist_enabled-HasMappings m (some p) h = h

module _ {Number : Type 0} (rs : List (DbRecord Number)) where
  set_persist_enabled-HasSettings :
      (p : Option PersistRegistry)
      → HasSettings rs (on_persist (set_persist_enabled (load_telemetry_persist_settings rs)) p)
  unfolding set_persist_enabled
  set_persist_enabled-HasSettings none = tt
  set_persist_enabled-HasSettings (some p) = refl

  set_mappings-HasSettings :
      (m : Map Spec) (p : Option PersistRegistry)
      → HasSettings rs p
      → HasSettings rs (on_persist (set_mappings m) p)
  unfolding set_mappings
  set_mappings-HasSettings m none h = tt
  set_mappings-HasSettings m (some p) h = h

module _ {Number Stream Schema Resolved : Type 0} (d : Decoder Number)
    (lib : Library Schema Resolved) where
  -- What a reload is for: the part of the registries that it sets is that of these records.
  abbrev pub Shows : Reload → List (DbRecord Number) → Configured Number Stream Resolved → Type 0
  Shows reload_agents rs c =
      (c.agent_registry.allowed_agents ≡ load_allowed_agents rs)
      × (c.agent_registry.auth_service.reg_tokens
          ≡ copy_tokens [] (reg_tokens [] (load_allowed_agents rs)))
  Shows reload_memberships rs c = c.schema_registry.agent_group ≡ load_agent_group_memberships rs
  Shows reload_missions rs c =
      (c.mission_registry.alloweds ≡ load_missions rs)
      × (c.mission_registry.auth_service.reg_tokens
          ≡ copy_tokens [] (Missions.reg_tokens [] (load_missions rs)))
  Shows reload_layouts rs c = c.layouts ≡ load_agent_layouts d rs
  Shows reload_schemas rs c = HasSchemas lib rs c.schema_registry
  Shows reload_mappings rs c = HasMappings d rs c.persist
  Shows reload_settings rs c = HasSettings rs c.persist

  pub install-Shows :
      (h : Reload) (rs : List (DbRecord Number)) (c : Configured Number Stream Resolved)
      → IsCache lib c.schema_registry.compiled
      → Shows h rs (install d lib h rs c)
  unfolding install set_allowed_agents set_allowed reset_reg_tokens set_agent_groups
  install-Shows reload_agents rs c i = (refl, refl)
  install-Shows reload_memberships rs c i = refl
  install-Shows reload_missions rs c i = (refl, refl)
  install-Shows reload_layouts rs c i = refl
  install-Shows reload_schemas rs c i = (c.schema_registry, i, refl, refl)
  install-Shows reload_mappings rs c i = set_mappings-HasMappings d rs c.persist
  install-Shows reload_settings rs c i = set_persist_enabled-HasSettings rs c.persist

  pub install-IsCache :
      (h : Reload) (rs : List (DbRecord Number)) (c : Configured Number Stream Resolved)
      → IsCache lib c.schema_registry.compiled
      → IsCache lib (install d lib h rs c).schema_registry.compiled
  unfolding install set_agent_groups
  install-IsCache reload_schemas rs c i =
      set_group_schemas-IsCache lib (load_agent_group_schemas rs) c.schema_registry i
  install-IsCache _ rs c i = i

  pub install-keeps :
      (h k : Reload) (rs rs' : List (DbRecord Number)) (c : Configured Number Stream Resolved)
      → h ≢ k
      → Shows h rs c
      → Shows h rs (install d lib k rs' c)
  unfolding install set_allowed_agents set_allowed reset_reg_tokens set_agent_groups
      set_group_schemas
  install-keeps reload_agents reload_agents rs rs' c ne s = absurd (ne refl)
  install-keeps reload_agents _ rs rs' c ne s = s
  install-keeps reload_memberships reload_memberships rs rs' c ne s = absurd (ne refl)
  install-keeps reload_memberships _ rs rs' c ne s = s
  install-keeps reload_missions reload_missions rs rs' c ne s = absurd (ne refl)
  install-keeps reload_missions _ rs rs' c ne s = s
  install-keeps reload_layouts reload_layouts rs rs' c ne s = absurd (ne refl)
  install-keeps reload_layouts _ rs rs' c ne s = s
  install-keeps reload_schemas reload_schemas rs rs' c ne s = absurd (ne refl)
  install-keeps reload_schemas _ rs rs' c ne s = s
  install-keeps reload_mappings reload_mappings rs rs' c ne s = absurd (ne refl)
  install-keeps reload_mappings reload_settings rs rs' c ne s =
      set_persist_enabled-HasMappings d rs (load_telemetry_persist_settings rs') c.persist s
  install-keeps reload_mappings _ rs rs' c ne s = s
  install-keeps reload_settings reload_settings rs rs' c ne s = absurd (ne refl)
  install-keeps reload_settings reload_mappings rs rs' c ne s =
      set_mappings-HasSettings rs (load_agent_group_mappings d rs') c.persist s
  install-keeps reload_settings _ rs rs' c ne s = s
