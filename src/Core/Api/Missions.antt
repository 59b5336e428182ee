-- ===== src/Core/Api/Missions.antt =====
-- cmd/core/controller/mission_controller.go and mission_connect.go, and cmd/core/grpc/mission_grpc.go:
-- registration and the list of missions, the check of a stream's metadata, and the stream itself.
pub mod Streams
use vantage_core.Prelude.{
  ℕ, Bool, true, false, ◌||◌, not, List, [], ◌∷◌, ◌++◌, Option, none, some, Str, lit, ◌==◌,
  cut_prefix, map, Result, ok, err, if◌then◌else◌,
}
use vantage_core.Core.Api.Agents.{Failure, unauthorized, bad_request, RegisterResponse, bearer}
use vantage_core.Core.Dispatcher.{TaskDispatcher, WireTask, Sent, Publish}
use vantage_core.Core.Missions.{
  MissionRegistry, MissionInfo, MissionStatus, exchange_reg_token, register, list_missions,
  authenticate, attach_stream, detach_stream,
}
use vantage_core.Core.Missions.TaskManager.{CreateTask, on_create_task}

-- The constants of `apiv1.MissionStatus`.
pub data ApiStatus : Type 0 where
  status_unspecified status_pending status_accepted status_rejected status_running status_completed
        status_failed :
      ApiStatus

-- The source's default case is for no status of the model.
unfoldable pub mission_status_to_proto : MissionStatus → ApiStatus
mission_status_to_proto MissionStatus.pending = status_pending
mission_status_to_proto MissionStatus.accepted = status_accepted
mission_status_to_proto MissionStatus.rejected = status_rejected
mission_status_to_proto MissionStatus.running = status_running
mission_status_to_proto MissionStatus.completed = status_completed
mission_status_to_proto MissionStatus.failed = status_failed

pub record ApiMission : Type 0 where
  pub id : Str
  pub name : Str
  pub online : Bool
  pub status : ApiStatus

unfoldable pub api_mission : MissionInfo → ApiMission
unfolding mission_status_to_proto
api_mission m = record {
  id = m.id;
  name = m.name;
  online = m.online;
  status = mission_status_to_proto m.status;
}

-- gRPC metadata: the values of `authorization` and of `mission_id`.
pub record Metadata : Type 0 where
  pub authorization : List Str
  pub mission_id : List Str

pub data Unauthenticated : Type 0 where
  missing_metadata missing_authorization invalid_format missing_mission_id invalid_token :
      Unauthenticated

-- What a stream receives.
pub data Received : Type 0 where
  create_task : CreateTask → Received
  other : Received

-- The id of a new task and the time at which its request is handled.
pub record Moment : Type 0 where
  pub task_id : Str
  pub now : ℕ

module _ {Stream : Type 0} where
  unfoldable pub list : MissionRegistry Stream → List ApiMission
  unfolding api_mission
  list mr = map api_mission (list_missions mr)

  abbrev registered :
      Str
      → MissionRegistry Stream × Result Failure (Str × Str)
      → MissionRegistry Stream × Result Failure RegisterResponse
  registered addr (mr, err e) = (mr, err e)
  registered addr (mr, ok (id, token)) = (
    register id mr,
    ok (record {
      token = token;
      grpc_addr = addr;
      agent_id = [];
      broker_url = [];
      username = [];
      password = [];
      topic_prefix = [];
    }),
  )

  abbrev exchanged :
      Option Str
      → Str
      → MissionRegistry Stream
      → MissionRegistry Stream × Result Failure (Str × Str)
  exchanged drawn key mr =
      let (mr', result) = exchange_reg_token drawn key mr in
      elim result [ err _ ↦ (mr', err unauthorized) | ok p ↦ (mr', ok p) ]

  -- `readable` says whether the body of the request is decoded.
  unfoldable pub handle_register :
      Str
      → Option Str
      → Str
      → Bool
      → MissionRegistry Stream
      → MissionRegistry Stream × Result Failure RegisterResponse
  handle_register addr drawn auth readable mr = elim (bearer auth) [
    | none ↦ (mr, err unauthorized)
    | some key ↦
        if readable then registered addr (exchanged drawn key mr) else (mr, err bad_request)
  ]

  abbrev check_mission : MissionRegistry Stream → Str → List Str → Result Unauthenticated (Unit {0})
  check_mission mr token [] = err missing_mission_id
  check_mission mr token (id ∷ _) = if authenticate id token mr then ok tt else err invalid_token

  abbrev check_authorization :
      MissionRegistry Stream → Metadata → List Str → Result Unauthenticated (Unit {0})
  check_authorization mr md [] = err missing_authorization
  check_authorization mr md (auth ∷ _) = elim (bearer auth) [
    | none ↦ err invalid_format
    | some token ↦ check_mission mr token md.mission_id
  ]

  unfoldable pub authenticate_mission_metadata :
      MissionRegistry Stream → Option Metadata → Result Unauthenticated (Unit {0})
  authenticate_mission_metadata mr none = err missing_metadata
  authenticate_mission_metadata mr (some md) = check_authorization mr md md.authorization

-- The loop of `StreamMission` over the messages before the end of the stream or an error: the
-- dispatcher afterwards, and what was published. `none` is a panic of `OnCreateTask`.
unfoldable pub receive :
    (WireTask → Option Str)
    → Str
    → List (Moment × Received)
    → TaskDispatcher
    → Option (TaskDispatcher × List Publish)
receive encode id [] d = some (d, [])
receive encode id ((m, other) ∷ rest) d = receive encode id rest d
receive encode id ((m, create_task ct) ∷ rest) d =
    elim (on_create_task encode m.now m.task_id id ct d) [
      | none ↦ none
      | some s ↦ elim (receive encode id rest s.dispatcher) [
        | none ↦ none
        | some (d', published) ↦ some (d', s.published ++ published)
      ]
    ]
