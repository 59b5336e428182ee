-- ===== src/Sdk/Slamtec/Actions.antt =====
-- The actions of pkg/agentsdk/slamtec/action, and how slamtec_robot.go waits for them. `Tick` is what the
-- `select` of a waiting loop takes next. A text of diagnostics in an error is left out.
use vantage_core.Prelude.{
  ℕ, List, [], ◌∷◌, Option, none, some, Str, lit, Result, ok, err, if◌then◌else◌,
}
use vantage_core.Sdk.Slamtec.{RobotPose, ActionInfo, ActionState, JackStatus, int_eq, is_negative}
use vantage_core.Telemetry.Mapping.Int.{ℤ, pos}

pub record MoveOptions (Number : Type 0) : Type 0 where
  pub mode : ℤ
  pub yaw : Number
  pub flags : List Str
  pub acceptable_precision : ℤ
  pub max_retry_count : ℤ

pub record Target (Number : Type 0) : Type 0 where
  pub building : Str
  pub floor : Str
  pub pose : RobotPose Number

pub record MoveToAction (Number : Type 0) : Type 0 where
  pub target : Target Number
  pub move_options : MoveOptions Number

-- The options of the two elevator actions are constants but for the elevator, and those of going home
-- are constants.
pub data Action (Number : Type 0) : Type 0 where
  move_to : MoveToAction Number → Action Number
  enter_elevator : Str → Action Number
  leave_elevator : Str → Action Number
  rotate : Number → Action Number
  go_home : Action Number
  move_to_tag : Str → Action Number

module _ {Number : Type 0} where
  abbrev at_pose : RobotPose Number → Target Number → Target Number
  at_pose p t = record t { pose = p }

  abbrev flagged : List Str → MoveOptions Number → MoveOptions Number
  flagged fs o = record o { flags = fs }

  abbrev turned : Number → MoveOptions Number → MoveOptions Number
  turned yaw o = record o { yaw = yaw }

  abbrev moded : ℤ → MoveOptions Number → MoveOptions Number
  moded mode o = record o { mode = mode }

  abbrev pub in_mode : ℤ → MoveToAction Number → MoveToAction Number
  in_mode mode a = record a { move_options = moded mode a.move_options }

module _ {Number : Type 0} (zero_float : Number) where
  unfoldable pub new_move_to_action : MoveToAction Number
  new_move_to_action = record {
    target = record {
      building = [];
      floor = [];
      pose = record { x = zero_float; y = zero_float; yaw = zero_float };
    };
    move_options = record {
      mode = pos 0;
      yaw = zero_float;
      flags = [];
      acceptable_precision = pos 0;
      max_retry_count = pos 0;
    };
  }

  unfoldable pub new_move_to_action_xy : Number → Number → MoveToAction Number
  unfolding new_move_to_action
  new_move_to_action_xy x y = record new_move_to_action {
    target = at_pose (record { x = x; y = y; yaw = zero_float }) new_move_to_action.target;
  }

  unfoldable pub new_move_to_action_xy_yaw : Number → Number → Number → MoveToAction Number
  unfolding new_move_to_action_xy
  new_move_to_action_xy_yaw x y yaw =
      let a = new_move_to_action_xy x y in
      record a { move_options = flagged (lit "with_yaw" ∷ []) (turned yaw a.move_options) }

  unfoldable pub new_move_to_action_full :
      Str → Str → Number → Number → Number → MoveToAction Number
  unfolding new_move_to_action
  new_move_to_action_full building floor x y yaw = record {
    target = record {
      building = building;
      floor = floor;
      pose = record { x = x; y = y; yaw = yaw };
    };
    move_options = flagged (lit "with_yaw" ∷ []) new_move_to_action.move_options;
  }

pub data ActionError : Type 0 where
  not_created rejected : ActionError
  cancelled timed_out : ActionError
  -- with the reason
  failed failed_early : Str → ActionError
  not_sent : ActionError
  -- with the number of the alarm
  jack_alarm : ℤ → ActionError
  not_found : Str → ActionError
  not_fetched no_front_pose : ActionError

-- The context ends, the deadline passes, or the ticker fires and the robot is asked.
pub data Tick (Answer : Type 0) : Type 0 where
  done : Tick Answer
  deadline : Tick Answer
  asked : Option Answer → Tick Answer

-- `none` while a loop goes on.
abbrev pub Outcome : Type 0
Outcome = Option (Result ActionError (Unit {0}))

abbrev pub action_status_done : ℕ
action_status_done = 4

abbrev pub action_result_success : ℕ
action_result_success = 0

-- What the state of an action says, if it says that the action has ended.
unfoldable pub verdict : ActionState → Outcome
verdict s =
    if int_eq s.status action_status_done
    then some (if int_eq s.result action_result_success then ok tt else err (failed s.reason))
    else if is_negative s.result
    then some (err (failed_early s.reason))
    else none

abbrev pub answered : Option ActionInfo → Outcome
answered none = none
answered (some info) = verdict info.state

unfoldable pub wait_for_action : List (Tick ActionInfo) → Outcome
unfolding verdict
wait_for_action [] = none
wait_for_action (done ∷ _) = some (err cancelled)
wait_for_action (deadline ∷ _) = some (err timed_out)
wait_for_action (asked a ∷ ticks) = elim (answered a) [
  | some r ↦ some r
  | none ↦ wait_for_action ticks
]

-- What the robot does with an action: the answer to the request, and what comes while waiting.
pub record Attempt : Type 0 where
  pub created : Option ActionInfo
  pub ticks : List (Tick ActionInfo)

unfoldable pub submit_action : Attempt → Outcome
unfolding wait_for_action
submit_action a = elim a.created [
  | none ↦ some (err not_created)
  | some info ↦
      if int_eq info.state.result action_result_success
      then wait_for_action a.ticks
      else some (err rejected)
]

unfoldable pub jack_verdict : ℕ → JackStatus → Outcome
jack_verdict target s =
    if int_eq s.alarm 0
    then (if int_eq s.stage target then some (ok tt) else none)
    else some (err (jack_alarm s.alarm))

abbrev jack_answered : ℕ → Option JackStatus → Outcome
jack_answered target none = none
jack_answered target (some s) = jack_verdict target s

unfoldable pub poll_jack_status : ℕ → List (Tick JackStatus) → Outcome
unfolding jack_verdict
poll_jack_status target [] = none
poll_jack_status target (done ∷ _) = some (err cancelled)
poll_jack_status target (deadline ∷ _) = some (err timed_out)
poll_jack_status target (asked a ∷ ticks) = elim (jack_answered target a) [
  | some r ↦ some r
  | none ↦ poll_jack_status target ticks
]
