-- ===== src/Journey/RegistrationTests.antt =====
-- An agent that registers and calls.
use vantage_core.Prelude.{true, Bool, List, [], ◌∷◌, Option, none, some, Str, lit}
use vantage_core.Prelude.Assoc
use vantage_core.Prelude.Joined.{join, split}
use vantage_core.Core.Agents.{AgentRegistry, AgentSkill}
use vantage_core.Core.Api.Agents.{MqttConfig, RegisterRequest, RegisterResponse}
use vantage_core.Core.Auth
use vantage_core.Journey.Registration.{Texts}
use vantage_core.Sdk.Registration.{ClientRequest, ConnectConfig}
use vantage_core.Sdk.Topic.{Topic}

-- Requests of one skill and no camera are written as the skill.
abbrev text_of_skills : ClientRequest → List AgentSkill → Option Str
text_of_skills q (s ∷ []) = some (join (s.name ∷ s.payload ∷ []))
text_of_skills q _ = none

abbrev encode_request : ClientRequest → Option Str
encode_request q = elim q.cameras [ [] ↦ text_of_skills q q.skills | ◌∷◌ c (cs → _) ↦ none ]

abbrev skill_of_parts : List Str → Option RegisterRequest
skill_of_parts (name ∷ payload ∷ []) =
    some (record { skills = record { name = name; payload = payload } ∷ []; cameras = [] })
skill_of_parts _ = none

abbrev parts_of_response : RegisterResponse → List Str
parts_of_response r =
    r.token ∷ r.grpc_addr ∷ r.agent_id ∷ r.broker_url ∷ r.username ∷ r.password ∷ r.topic_prefix
    ∷ []

abbrev response_of_parts : List Str → Option RegisterResponse
response_of_parts (token ∷ addr ∷ id ∷ url ∷ user ∷ password ∷ prefix ∷ []) = some (record {
  token = token;
  grpc_addr = addr;
  agent_id = id;
  broker_url = url;
  username = user;
  password = password;
  topic_prefix = prefix;
})
response_of_parts _ = none

abbrev texts : Texts
texts = record {
  encode_request = encode_request;
  decode_request = λ b. skill_of_parts (split b);
  encode_response = λ r. join (parts_of_response r);
  decode_response = λ b. response_of_parts (split b);
}

abbrev accounts : Auth.AuthService
accounts = record {
  reg_tokens = (lit "key", lit "a") ∷ [];
  auth_tokens = (lit "a", lit "old") ∷ [];
  mqtt_passwords = [];
}

abbrev agents : AgentRegistry
agents = record {
  auth_service = accounts;
  allowed_agents = record { agent_id = lit "a"; name = lit "Robot"; key = lit "key" } ∷ [];
  skills = [];
  cameras = [];
  grpc_advertise_addr = lit "core:1";
  mqtt_last_seen = [];
}

abbrev mqtt : MqttConfig
mqtt = record {
  enabled = true;
  broker = lit "tcp://b";
  broker_advertise_url = [];
  topic_prefix = lit "p";
}

abbrev move : AgentSkill
move = record { name = lit "move"; payload = lit "{}" }

-- The agent gives itself another id than its key has.
abbrev config : ConnectConfig
config = record {
  agent_id = lit "b";
  key = lit "key";
  name = lit "Robot";
  skills = move ∷ [];
  cameras = [];
}

abbrev dial : Str → Bool
dial addr = true

abbrev sent_text : Str
sent_text = join (lit "move" ∷ lit "{}" ∷ [])
