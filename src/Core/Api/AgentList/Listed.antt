-- ===== src/Core/Api/AgentList/Listed.antt =====
-- Which agents are listed, and which of them as online.
use vantage_core.Prelude.{
  ℕ, ◌≡◌, ◌↔◌, ◌+◌, ◌<◌, refl, ap, Option-cases, inl, inr, true, List, [], ◌∷◌, Option, some, Str,
  arith, map, is_some,
}
use vantage_core.Prelude.Assoc
use vantage_core.Core.Agents.{AgentRegistry, AllowedAgent, online_agents, mqtt_presence_stale_after}
use vantage_core.Core.Agents.Presence.{IsOnline-iff}
use vantage_core.Core.Api.AgentList.{api_agent, agents_from, list_agents}

module _ {Struct : Type 0} (unmarshal : Str → Option Struct) where
  agents_from-map :
      (now : ℕ) (r : AgentRegistry) (as' : List AllowedAgent)
      → agents_from unmarshal r (online_agents now r) as'
        ≡ map (api_agent unmarshal r (online_agents now r)) as'
  unfolding agents_from
  agents_from-map now r [] = refl
  agents_from-map now r (a ∷ as') =
      ap (◌∷◌ (api_agent unmarshal r (online_agents now r) a)) (agents_from-map now r as')

  -- The list has one entry for each allowed agent, in order. The entry has the agent's id and name, and
  -- shows it as online exactly if the registry has a time for it at which it was seen, and the staleness
  -- bound has not passed since.
  pub list_agents_lem :
      (now : ℕ) (r : AgentRegistry)
      → Assoc.Distinct r.mqtt_last_seen
      → (list_agents unmarshal now r
          ≡ map (api_agent unmarshal r (online_agents now r)) r.allowed_agents)
        × ((a : AllowedAgent)
            → let entry = api_agent unmarshal r (online_agents now r) a in
              (entry.id ≡ a.agent_id)
              × (entry.name ≡ a.name)
              × ((entry.online ≡ true) ↔ (
                  (t : ℕ) × (Assoc.get r.mqtt_last_seen a.agent_id ≡ some t)
                  × (now < t + mqtt_presence_stale_after))))
  unfolding list_agents api_agent
  list_agents_lem now r h = (agents_from-map now r r.allowed_agents, λ a. (refl, refl, shown a))
    where
      shown :
          (a : AllowedAgent)
          → (is_some (Assoc.get (online_agents now r) a.agent_id) ≡ true) ↔ (
              (t : ℕ) × (Assoc.get r.mqtt_last_seen a.agent_id ≡ some t)
              × (now < t + mqtt_presence_stale_after))
      shown a =
          let online = IsOnline-iff now r a.agent_id h in
          elim (Option-cases (Assoc.get (online_agents now r) a.agent_id)) [
            | inl e ↦ (λ p. absurd (ground arith), λ p. absurd (ground (arith, online.1 p)))
            | inr (x, e) ↦ (λ _. online.0 (x, e), λ _. ground arith)
          ]
