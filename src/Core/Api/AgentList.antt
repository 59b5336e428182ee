-- ===== src/Core/Api/AgentList.antt =====
-- cmd/core/controller/agent_connect.go: the list of the agents. `unmarshal` is json.Unmarshal into a map
-- and structpb.NewStruct, whose structs are `Struct`; `none` stands for an error of either.
pub mod Listed
use vantage_core.Prelude.{
  ℕ, Bool, List, [], ◌∷◌, Option, none, some, Str, lit, ◌==◌, nat_eq, length, map, get_or, is_some,
  if◌then◌else◌,
}
use vantage_core.Prelude.Assoc
use vantage_core.Prelude.Assoc.{Map}
use vantage_core.Core.Agents.{
  AgentRegistry, AgentSkill, AllowedAgent, CameraConfig, Agent, online_agents,
}

pub data CameraType : Type 0 where
  unspecified mjpg rtsp webrtc : CameraType

unfoldable pub camera_type_to_proto : Str → CameraType
camera_type_to_proto t =
    if t == lit "mjpg"
    then mjpg
    else if t == lit "rtsp"
    then rtsp
    else if t == lit "webrtc"
    then webrtc
    else unspecified

pub record ApiSkill (Struct : Type 0) : Type 0 where
  pub name : Str
  pub payload : Option Struct

pub record ApiCamera : Type 0 where
  pub camera_id : Str
  pub type : CameraType
  pub url : Str

pub record ApiAgent (Struct : Type 0) : Type 0 where
  pub id : Str
  pub name : Str
  pub online : Bool
  pub skills : List (ApiSkill Struct)
  pub cameras : List ApiCamera

unfoldable pub api_camera : CameraConfig → ApiCamera
unfolding camera_type_to_proto
api_camera c = record { camera_id = c.camera_id; type = camera_type_to_proto c.type; url = c.url }

module _ {Struct : Type 0} (unmarshal : Str → Option Struct) where
  unfoldable pub api_skill : AgentSkill → ApiSkill Struct
  api_skill s = record {
    name = s.name;
    payload = if nat_eq (length s.payload) 0 then none else unmarshal s.payload;
  }

  -- `online` is the map of the agents that are online.
  unfoldable pub api_agent : AgentRegistry → Map Agent → AllowedAgent → ApiAgent Struct
  unfolding api_skill api_camera
  api_agent r online a = record {
    id = a.agent_id;
    name = a.name;
    online = is_some (Assoc.get online a.agent_id);
    skills = map api_skill (get_or (Assoc.get r.skills a.agent_id) []);
    cameras = map api_camera (get_or (Assoc.get r.cameras a.agent_id) []);
  }

  -- The loop over the allowed agents.
  unfoldable pub agents_from :
      AgentRegistry → Map Agent → List AllowedAgent → List (ApiAgent Struct)
  unfolding api_agent
  agents_from r online [] = []
  agents_from r online (a ∷ as') = api_agent r online a ∷ agents_from r online as'

  unfoldable pub list_agents : ℕ → AgentRegistry → List (ApiAgent Struct)
  unfolding agents_from
  list_agents now r = agents_from r (online_agents now r) r.allowed_agents
