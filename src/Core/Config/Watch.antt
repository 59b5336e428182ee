-- ===== src/Core/Config/Watch.antt =====
-- watchConfig of cmd/core/pbconfig.go: after each change of a collection its reloads read the collection
-- and then set what they read. Nothing keeps two reloads from overlapping, so that reading and setting are
-- two steps.
use vantage_core.Prelude.{List, [], ◌∷◌, Option, none, some}
use vantage_core.Core.Agents.{AgentRegistry, set_allowed_agents}
use vantage_core.Core.Config.{
  DbRecord, AgentLayoutConfig, Decoder, load_allowed_agents, load_missions, load_agent_layouts,
  load_agent_group_schemas, load_agent_group_memberships, load_agent_group_mappings,
  load_telemetry_persist_settings,
}
use vantage_core.Core.Missions.{MissionRegistry, set_allowed}
use vantage_core.Telemetry.Pipeline.{PersistRegistry, set_mappings, set_persist_enabled}
use vantage_core.Telemetry.Registry.{Library, Registry, set_agent_groups, set_group_schemas}

pub data Collection : Type 0 where
  agents missions agent_layouts agent_groups telemetry_settings : Collection

pub data Reload : Type 0 where
  reload_agents reload_memberships reload_missions reload_layouts reload_schemas reload_mappings
        reload_settings :
      Reload

-- The collection that a reload reads, which is the one that it is bound to.
abbrev pub collection_of : Reload → Collection
collection_of reload_agents = agents
collection_of reload_memberships = agents
collection_of reload_missions = missions
collection_of reload_layouts = agent_layouts
collection_of reload_schemas = agent_groups
collection_of reload_mappings = agent_groups
collection_of reload_settings = telemetry_settings

-- The reloads that a change of a collection calls, in order: what was bound last runs first, since each
-- hook calls `e.Next()` before its own reload.
abbrev pub bound : Collection → List Reload
bound agents = reload_memberships ∷ reload_agents ∷ []
bound missions = reload_missions ∷ []
bound agent_layouts = reload_layouts ∷ []
bound agent_groups = reload_mappings ∷ reload_schemas ∷ []
bound telemetry_settings = reload_settings ∷ []

abbrev pub Database : Type 0 → Type 0
Database Number = Collection → List (DbRecord Number)

-- What the reloads set. Without persistence there is no `persist`.
pub record Configured (Number Stream Resolved : Type 0) : Type 0 where
  pub agent_registry : AgentRegistry
  pub mission_registry : MissionRegistry Stream
  pub layouts : List (AgentLayoutConfig Number)
  pub schema_registry : Registry Resolved
  pub persist : Option PersistRegistry

abbrev pub on_persist :
    (PersistRegistry → PersistRegistry) → Option PersistRegistry → Option PersistRegistry
on_persist f none = none
on_persist f (some p) = some (f p)

module _ {Number Stream Schema Resolved : Type 0} (d : Decoder Number)
    (lib : Library Schema Resolved) where
  -- A reload sets what it read. One that fails to read only logs it.
  unfoldable pub install :
      Reload
      → List (DbRecord Number)
      → Configured Number Stream Resolved
      → Configured Number Stream Resolved
  install reload_agents rs c = record c {
    agent_registry = set_allowed_agents (load_allowed_agents rs) c.agent_registry;
  }
  install reload_memberships rs c = record c {
    schema_registry = set_agent_groups (load_agent_group_memberships rs) c.schema_registry;
  }
  install reload_missions rs c = record c {
    mission_registry = set_allowed (load_missions rs) c.mission_registry;
  }
  install reload_layouts rs c = record c { layouts = load_agent_layouts d rs }
  install reload_schemas rs c = record c {
    schema_registry = (set_group_schemas lib (load_agent_group_schemas rs) c.schema_registry).0;
  }
  install reload_mappings rs c = record c {
    persist = on_persist (set_mappings (load_agent_group_mappings d rs)) c.persist;
  }
  install reload_settings rs c = record c {
    persist = on_persist (set_persist_enabled (load_telemetry_persist_settings rs)) c.persist;
  }
