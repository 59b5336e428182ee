-- ===== src/Core/Agents.antt =====
-- cmd/core/service/agent_registry.go: the agents that may register, what they reported, and which of
-- them are online. Times are nanoseconds; `now` is what `time.Now()` returns.
pub mod Presence
pub mod Registration
use vantage_core.Prelude.{
  ℕ, ◌-◌, ◌*◌, ◌^◌, Bool, true, false, List, [], ◌∷◌, Option, none, some, Str, ◌==◌, Result, ok,
  err, leb, if◌then◌else◌,
}
use vantage_core.Prelude.Assoc
use vantage_core.Prelude.Assoc.{Map}
use vantage_core.Core.Auth
use vantage_core.Core.Auth.{AuthService, AuthError, new_auth_service}

pub record AllowedAgent : Type 0 where
  pub agent_id : Str
  pub name : Str
  pub key : Str

-- cmd/core/model/agent.go
pub record AgentSkill : Type 0 where
  pub name : Str
  pub payload : Str

-- pkg/agentsdk/config.go
pub record CameraConfig : Type 0 where
  pub camera_id : Str
  pub type : Str
  pub url : Str

pub record Agent : Type 0 where
  pub id : Str
  pub name : Str

pub record AgentRegistry : Type 0 where
  pub auth_service : AuthService
  pub allowed_agents : List AllowedAgent
  pub skills : Map (List AgentSkill)
  pub cameras : Map (List CameraConfig)
  pub grpc_advertise_addr : Str
  pub mqtt_last_seen : Map ℕ

-- two minutes
abbrev pub mqtt_presence_stale_after : ℕ
mqtt_presence_stale_after = 2 * 60 * 10 ^ 9

-- The loop of `SetAllowedAgents` over `regTokens`.
unfoldable pub reg_tokens : Map Str → List AllowedAgent → Map Str
reg_tokens m [] = m
reg_tokens m (a ∷ as') = reg_tokens (Assoc.put m a.key a.agent_id) as'

unfoldable pub set_allowed_agents : List AllowedAgent → AgentRegistry → AgentRegistry
set_allowed_agents allowed r = record r {
  auth_service = Auth.reset_reg_tokens (reg_tokens [] allowed) r.auth_service;
  allowed_agents = allowed;
}

unfoldable pub new_agent_registry : List AllowedAgent → Str → AgentRegistry
new_agent_registry allowed addr = set_allowed_agents allowed (record {
  auth_service = new_auth_service;
  allowed_agents = [];
  skills = [];
  cameras = [];
  grpc_advertise_addr = addr;
  mqtt_last_seen = [];
})

unfoldable pub exchange_reg_token :
    Option Str → Str → AgentRegistry → AgentRegistry × Result AuthError (Str × Str)
exchange_reg_token drawn reg_token r =
    let (a, result) = Auth.exchange_reg_token drawn reg_token r.auth_service in
    (record r { auth_service = a }, result)

unfoldable pub issue_mqtt_credentials :
    Option Str → Str → AgentRegistry → AgentRegistry × Result AuthError Str
issue_mqtt_credentials drawn id r =
    let (a, result) = Auth.issue_mqtt_credentials drawn id r.auth_service in
    (record r { auth_service = a }, result)

unfoldable pub register : Str → List AgentSkill → List CameraConfig → AgentRegistry → AgentRegistry
register id skills cameras r = record r {
  skills = Assoc.put r.skills id skills;
  cameras = Assoc.put r.cameras id cameras;
}

unfoldable pub set_skills : Str → List AgentSkill → AgentRegistry → AgentRegistry
set_skills id skills r = record r { skills = Assoc.put r.skills id skills }

-- The loop of `NameFor`.
unfoldable pub name_in : List AllowedAgent → Str → Str
name_in [] id = []
name_in (a ∷ as') id = if a.agent_id == id then a.name else name_in as' id

abbrev pub name_for : AgentRegistry → Str → Str
name_for r id = name_in r.allowed_agents id

unfoldable pub mark_mqtt_online : ℕ → Str → AgentRegistry → AgentRegistry
mark_mqtt_online now id r = record r { mqtt_last_seen = Assoc.put r.mqtt_last_seen id now }

unfoldable pub mark_mqtt_offline : Str → AgentRegistry → AgentRegistry
mark_mqtt_offline id r = record r { mqtt_last_seen = Assoc.del r.mqtt_last_seen id }

-- The loop of `OnlineAgents`. A time seen that lies behind `now` is no time ago.
unfoldable pub online_in : ℕ → AgentRegistry → Map ℕ → Map Agent → Map Agent
online_in now r [] out = out
online_in now r ((id, last_seen) ∷ rest) out = online_in now r rest (
    if leb mqtt_presence_stale_after (now - last_seen)
    then out
    else Assoc.put out id (record { id = id; name = name_for r id }))

unfoldable pub online_agents : ℕ → AgentRegistry → Map Agent
online_agents now r = online_in now r r.mqtt_last_seen []
