-- ===== src/Core/Agents/Presence.antt =====
-- Which agents are online.
use vantage_core.Prelude.{
  ℕ, ◌+◌, ◌-◌, ◌<◌, ◌≡◌, ◌↔◌, inl, inr, refl, [], ◌∷◌, Option, none, some, Str, ==_iff, arith,
  if◌then◌else◌, leb, Option-cases,
}
use vantage_core.Prelude.Assoc
use vantage_core.Prelude.Assoc.{Map}
use vantage_core.Core.Agents.{
  AgentRegistry, Agent, mqtt_presence_stale_after, name_for, online_in, online_agents,
}

abbrev seen_agent : ℕ → AgentRegistry → Str → Option ℕ → Option Agent → Option Agent
seen_agent now r id none other = other
seen_agent now r id (some last_seen) other =
    if leb mqtt_presence_stale_after (now - last_seen)
    then other
    else some (record { id = id; name = name_for r id })

get-online_in :
    (now : ℕ) (r : AgentRegistry) (m : Map ℕ) (out : Map Agent) (id : Str)
    → Assoc.Distinct m
    → Assoc.get (online_in now r m out) id ≡ seen_agent now r id (Assoc.get m id) (Assoc.get out id)
unfolding online_in Assoc.get
get-online_in now r [] out id h = refl
get-online_in now r ((j, t) ∷ m) out id (h, hs) = ground (
  arith,
  get-online_in now r m
      (if leb mqtt_presence_stale_after (now - t)
        then out
        else Assoc.put out j (record { id = j; name = name_for r j }))
      id hs,
  Assoc.get-put out j id (record { id = j; name = name_for r j }),
  ==_iff j id,
)

-- An agent is online exactly when it was last seen less than the staleness bound ago, and it is
-- reported with its id and the name of the allowed agent.
pub get-online_agents :
    (now : ℕ) (r : AgentRegistry) (id : Str) (agent : Agent)
    → Assoc.Distinct r.mqtt_last_seen
    → (Assoc.get (online_agents now r) id ≡ some agent) ↔ (
        (agent ≡ record { id = id; name = name_for r id })
        × ((t : ℕ) × (Assoc.get r.mqtt_last_seen id ≡ some t)
            × (now < t + mqtt_presence_stale_after)))
unfolding online_agents
get-online_agents now r id agent h = elim (Option-cases (Assoc.get r.mqtt_last_seen id)) [
  | inl e ↦ (
    λ p. absurd (ground (arith, get-online_in now r r.mqtt_last_seen [] id h, nothing)),
    λ p. absurd (ground (arith, p.1.1)),
  )
  | inr (t, e) ↦ (
    λ p. (
      ground (arith, get-online_in now r r.mqtt_last_seen [] id h, nothing),
      (t, e, ground (arith, get-online_in now r r.mqtt_last_seen [] id h, nothing)),
    ),
    λ p. ground (arith, get-online_in now r r.mqtt_last_seen [] id h, nothing, p.1.1, p.1.2, p.0),
  )
]
  where
    nothing : Assoc.get {V = Agent} [] id ≡ none
    nothing = unfold Assoc.get in refl

abbrev pub IsOnline : ℕ → AgentRegistry → Str → Type 0
IsOnline now r id = (agent : Agent) × (Assoc.get (online_agents now r) id ≡ some agent)

pub IsOnline-iff :
    (now : ℕ) (r : AgentRegistry) (id : Str)
    → Assoc.Distinct r.mqtt_last_seen
    → IsOnline now r id
      ↔ ((t : ℕ) × (Assoc.get r.mqtt_last_seen id ≡ some t) × (now < t + mqtt_presence_stale_after))
IsOnline-iff now r id h = (
  λ p. ((get-online_agents now r id p.0 h).0 p.1).1,
  λ q. (record { id = id; name = name_for r id }, (get-online_agents now r id _ h).1 (refl, q)),
)
