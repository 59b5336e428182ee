-- ===== src/Core/Missions.antt =====
-- cmd/core/service/mission_registry.go: the missions that may register, are registered, and hold a
-- stream. The tables that the source declares and never uses (its own auth tokens, the tasks of a
-- mission and the mission of a task) are left out.
pub mod TaskManager
pub mod Updates
pub mod Conflicts
use vantage_core.Prelude.{
  ℕ, Bool, true, false, List, [], ◌∷◌, Option, none, some, Str, ◌==◌, Result, ok, err,
  if◌then◌else◌, is_some,
}
use vantage_core.Prelude.Assoc
use vantage_core.Prelude.Assoc.{Map}
use vantage_core.Core.Task.{MissionTaskStatus}
use vantage_core.Core.Auth
use vantage_core.Core.Auth.{AuthService, AuthError, new_auth_service}

-- cmd/core/model/mission.go
pub data MissionStatus : Type 0 where
  pending accepted rejected running completed failed : MissionStatus

pub record Mission : Type 0 where
  pub id : Str
  pub name : Str
  pub status : MissionStatus

-- cmd/core/config/config.go
pub record MissionConfig : Type 0 where
  pub id : Str
  pub name : Str
  pub key : Str

-- The update that a mission receives on its stream.
pub record TaskStatusUpdate : Type 0 where
  pub mission_context : Str
  pub status : MissionTaskStatus

pub record MissionRegistry (Stream : Type 0) : Type 0 where
  pub missions : Map Mission
  pub streams : Map Stream
  pub alloweds : List MissionConfig
  pub auth_service : AuthService

pub record MissionInfo : Type 0 where
  pub id : Str
  pub name : Str
  pub online : Bool
  pub status : MissionStatus

unfoldable pub reg_tokens : Map Str → List MissionConfig → Map Str
reg_tokens m [] = m
reg_tokens m (c ∷ cs) = reg_tokens (Assoc.put m c.key c.id) cs

-- The name of the first allowed mission with the id.
unfoldable pub name_in : List MissionConfig → Str → Str
name_in [] id = []
name_in (c ∷ cs) id = if c.id == id then c.name else name_in cs id

abbrev status_of : Option Mission → MissionStatus
status_of none = pending
status_of (some m) = m.status

module _ {Stream : Type 0} where
  unfoldable pub set_allowed : List MissionConfig → MissionRegistry Stream → MissionRegistry Stream
  set_allowed configs r = record r {
    auth_service = Auth.reset_reg_tokens (reg_tokens [] configs) r.auth_service;
    alloweds = configs;
  }

  unfoldable pub register : Str → MissionRegistry Stream → MissionRegistry Stream
  register id r = elim (Assoc.get r.missions id) [
    | some _ ↦ r
    | none ↦ record r {
      missions =
          Assoc.put r.missions id
            (record { id = id; name = name_in r.alloweds id; status = pending });
    }
  ]

  unfoldable pub mission_info : MissionRegistry Stream → MissionConfig → MissionInfo
  mission_info r c = record {
    id = c.id;
    name = c.name;
    online = is_some (Assoc.get r.streams c.id);
    status = status_of (Assoc.get r.missions c.id);
  }

  unfoldable pub list_infos : MissionRegistry Stream → List MissionConfig → List MissionInfo
  unfolding mission_info
  list_infos r [] = []
  list_infos r (c ∷ cs) = mission_info r c ∷ list_infos r cs

  unfoldable pub list_missions : MissionRegistry Stream → List MissionInfo
  unfolding list_infos
  list_missions r = list_infos r r.alloweds

  unfoldable pub exchange_reg_token :
      Option Str
      → Str
      → MissionRegistry Stream
      → MissionRegistry Stream × Result AuthError (Str × Str)
  exchange_reg_token drawn reg_token r =
      let (a, result) = Auth.exchange_reg_token drawn reg_token r.auth_service in
      (record r { auth_service = a }, result)

  unfoldable pub authenticate : Str → Str → MissionRegistry Stream → Bool
  authenticate id auth_token r = Auth.authenticate id auth_token r.auth_service

  unfoldable pub attach_stream : Str → Stream → MissionRegistry Stream → MissionRegistry Stream
  attach_stream id s r = record r { streams = Assoc.put r.streams id s }

  unfoldable pub detach_stream : Str → MissionRegistry Stream → MissionRegistry Stream
  detach_stream id r = record r { streams = Assoc.del r.streams id }

  unfoldable pub get_stream : MissionRegistry Stream → Str → Option Stream
  get_stream r id = Assoc.get r.streams id

unfoldable pub new_mission_registry :
    (Stream : Type 0) → List MissionConfig → MissionRegistry Stream
new_mission_registry Stream configs =
    set_allowed configs
      (record { missions = []; streams = []; alloweds = []; auth_service = new_auth_service })
