-- ===== src/Core/Api/Agents.antt =====
-- cmd/core/controller/agent_registry_http.go: registration and the list of agents over HTTP.
pub mod Registered
use vantage_core.Prelude.{
  ℕ, Bool, true, false, ◌||◌, not, List, [], ◌∷◌, Option, none, some, Str, lit, ◌==◌, cut_prefix,
  map, get_or, is_some, Result, ok, err, if◌then◌else◌,
}
use vantage_core.Prelude.Assoc
use vantage_core.Core.Agents.{
  AgentRegistry, AllowedAgent, AgentSkill, CameraConfig, exchange_reg_token, issue_mqtt_credentials,
  register, online_agents,
}
use vantage_core.Sdk.Topic.{Topic, TopicError, new_topic}

-- What the source reads of `config.MQTTConfig`.
pub record MqttConfig : Type 0 where
  pub enabled : Bool
  pub broker : Str
  pub broker_advertise_url : Str
  pub topic_prefix : Str

pub record RegisterRequest : Type 0 where
  pub skills : List AgentSkill
  pub cameras : List CameraConfig

-- pkg/agentsdk/registration.go
pub record RegisterResponse : Type 0 where
  pub token : Str
  pub grpc_addr : Str
  pub agent_id : Str
  pub broker_url : Str
  pub username : Str
  pub password : Str
  pub topic_prefix : Str

-- The statuses of `http.Error`.
pub data Failure : Type 0 where
  unauthorized bad_request internal_server_error : Failure

-- The registration key of an `Authorization` header.
unfoldable pub bearer : Str → Option Str
bearer auth = elim (cut_prefix auth (lit "Bearer ")) [
  | none ↦ none
  | some key ↦ if key == [] then none else some key
]

abbrev broker_url : MqttConfig → Str
broker_url c = if c.broker_advertise_url == [] then c.broker else c.broker_advertise_url

abbrev with_credentials : MqttConfig → Str → RegisterResponse → Str → RegisterResponse
with_credentials c id resp password = record resp {
  broker_url = broker_url c;
  username = id;
  password = password;
  topic_prefix = c.topic_prefix;
}

-- The part for a core with MQTT.
unfoldable pub add_credentials :
    MqttConfig
    → Option Str
    → Str
    → RegisterResponse
    → AgentRegistry
    → AgentRegistry × Result Failure RegisterResponse
add_credentials c drawn id resp r = elim (new_topic c.topic_prefix id) [
  | err _ ↦ (r, err internal_server_error)
  | ok _ ↦
      let (r', issued) = issue_mqtt_credentials drawn id r in
      elim issued [
        | err _ ↦ (r', err internal_server_error)
        | ok password ↦ (r', ok (with_credentials c id resp password))
      ]
]

abbrev plain_response : AgentRegistry → Str → Str → RegisterResponse
plain_response r id token = record {
  token = token;
  grpc_addr = r.grpc_advertise_addr;
  agent_id = id;
  broker_url = [];
  username = [];
  password = [];
  topic_prefix = [];
}

-- The part behind the exchange of the key.
unfoldable pub finish_register :
    MqttConfig
    → Option Str
    → Option RegisterRequest
    → Str
    → Str
    → AgentRegistry
    → AgentRegistry × Result Failure RegisterResponse
finish_register c drawn none id token r = (r, err bad_request)
finish_register c drawn (some body) id token r =
    let r' = register id body.skills body.cameras r in
    let resp = plain_response r' id token in
    if c.enabled then add_credentials c drawn id resp r' else (r', ok resp)

-- `body` is the decoded body of the request, `drawn` and `drawn_password` the random bytes.
unfoldable pub handle_register :
    MqttConfig
    → Option Str
    → Option Str
    → Str
    → Option RegisterRequest
    → AgentRegistry
    → AgentRegistry × Result Failure RegisterResponse
handle_register c drawn drawn_password auth body r = elim (bearer auth) [
  | none ↦ (r, err unauthorized)
  | some key ↦
      let (r', exchanged) = exchange_reg_token drawn key r in
      elim exchanged [
        | err _ ↦ (r', err unauthorized)
        | ok (id, token) ↦ finish_register c drawn_password body id token r'
      ]
]

pub record AgentView : Type 0 where
  pub id : Str
  pub name : Str
  pub online : Bool
  pub skills : List AgentSkill
  pub cameras : List CameraConfig

unfoldable pub agent_view : ℕ → AgentRegistry → AllowedAgent → AgentView
agent_view now r a = record {
  id = a.agent_id;
  name = a.name;
  online = is_some (Assoc.get (online_agents now r) a.agent_id);
  skills = get_or (Assoc.get r.skills a.agent_id) [];
  cameras = get_or (Assoc.get r.cameras a.agent_id) [];
}

unfoldable pub handle_list : ℕ → AgentRegistry → List AgentView
handle_list now r = map (agent_view now r) r.allowed_agents
