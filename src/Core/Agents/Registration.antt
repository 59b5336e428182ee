-- ===== src/Core/Agents/Registration.antt =====
-- Which keys let an agent register.
use vantage_core.Prelude.{
  ◌≡◌, refl, List, [], ◌∷◌, Option, none, some, Str, ◌==◌, ok, err, arith, if◌then◌else◌, is_some,
}
use vantage_core.Prelude.Assoc
use vantage_core.Prelude.Assoc.{Map}
use vantage_core.Core.Auth
use vantage_core.Core.Auth.{AuthError, invalid_registration_token}
use vantage_core.Core.Auth.Hex.{encode_to_string}
use vantage_core.Core.Auth.Tokens.{reset_reg_tokens_lem}
use vantage_core.Core.Agents.{
  AllowedAgent, AgentRegistry, reg_tokens, set_allowed_agents, exchange_reg_token,
}

-- The id that a key belongs to: that of the last allowed agent with the key.
abbrev pub owner : List AllowedAgent → Str → Option Str
owner [] key = none
owner (a ∷ as') key =
    if is_some (owner as' key)
    then owner as' key
    else if a.key == key
    then some a.agent_id
    else none

get-reg_tokens :
    (m : Map Str) (allowed : List AllowedAgent) (key : Str)
    → Assoc.get (reg_tokens m allowed) key
      ≡ (if is_some (owner allowed key) then owner allowed key else Assoc.get m key)
unfolding reg_tokens
get-reg_tokens m [] key = refl
get-reg_tokens m (a ∷ as') key = ground (
  arith,
  get-reg_tokens (Assoc.put m a.key a.agent_id) as' key,
  Assoc.get-put m a.key key a.agent_id,
)

reg_tokens-Distinct :
    (m : Map Str) (allowed : List AllowedAgent)
    → Assoc.Distinct m
    → Assoc.Distinct (reg_tokens m allowed)
unfolding reg_tokens
reg_tokens-Distinct m [] h = h
reg_tokens-Distinct m (a ∷ as') h =
    reg_tokens-Distinct (Assoc.put m a.key a.agent_id) as' (Assoc.put-Distinct m a.key a.agent_id h)

get-allowed :
    (allowed : List AllowedAgent) (r : AgentRegistry) (key : Str)
    → Assoc.get (set_allowed_agents allowed r).auth_service.reg_tokens key ≡ owner allowed key
unfolding set_allowed_agents
get-allowed allowed r key = ground (
  arith,
  (reset_reg_tokens_lem (reg_tokens [] allowed) r.auth_service
        (reg_tokens-Distinct [] allowed tt)).0
      key,
  get-reg_tokens [] allowed key,
  nothing,
)
  where
    nothing : Assoc.get {V = Str} [] key ≡ none
    nothing = unfold Assoc.get in refl

-- Once the allowed agents are set, a key is exchanged for the id of the last agent of the list that
-- has it, whatever was allowed before, and a key that no agent of the list has is refused; an auth
-- token from before still lets its id in.
pub exchange-set_allowed_agents :
    (allowed : List AllowedAgent) (r : AgentRegistry) (b key : Str)
    → ((exchange_reg_token (some b) key (set_allowed_agents allowed r)).1
        ≡ elim (owner allowed key) [
          | none ↦ err invalid_registration_token
          | some id ↦ ok (id, encode_to_string b)
        ])
      × ((id token : Str)
          → Auth.authenticate id token (set_allowed_agents allowed r).auth_service
            ≡ Auth.authenticate id token r.auth_service)
unfolding exchange_reg_token Auth.exchange_reg_token Auth.generate_random_hex
exchange-set_allowed_agents allowed r b key = (
  ground (arith, get-allowed allowed r key),
  unfold set_allowed_agents in
      (reset_reg_tokens_lem (reg_tokens [] allowed) r.auth_service
        (reg_tokens-Distinct [] allowed tt)).1,
)
