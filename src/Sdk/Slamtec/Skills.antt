-- ===== src/Sdk/Slamtec/Skills.antt =====
-- The skills of pkg/agentsdk/slamtec/slamtec_robot.go, and the
-- handlers of pkg/agentsdk/task_handler. A skill gives the actions that it submits, in order, and
-- its result, which is `none` while it goes on. The skills that only log and succeed are left out.
use vantage_core.Prelude.{
  ℕ, Bool, true, false, ◌&&◌, not, List, [], ◌∷◌, Option, none, some, Str, lit, ◌==◌, Result, ok,
  err, if◌then◌else◌,
}
use vantage_core.Sdk.Slamtec.{SlamtecRobot, RobotPose, Poi, Elevator, JackStatus, is_positive}
use vantage_core.Sdk.Slamtec.Actions.{
  Action, move_to, enter_elevator, leave_elevator, rotate, go_home, move_to_tag, ActionError,
  not_found, not_sent, not_fetched, no_front_pose, cancelled, Attempt, Tick, Outcome, submit_action,
  poll_jack_status, new_move_to_action_xy, new_move_to_action_xy_yaw, new_move_to_action_full,
  in_mode,
}
use vantage_core.Telemetry.Mapping.Int.{ℤ, pos}

-- agentskill.Status, with what stands in `Err`.
pub data SkillResult : Type 0 where
  success : SkillResult
  failed cancelled_with : ActionError → SkillResult

abbrev pub result_of : Outcome → Option SkillResult
result_of none = none
result_of (some (ok _)) = some success
result_of (some (err e)) = some (failed e)

abbrev pub default_move_mode : ℤ
default_move_mode = pos 2

pub record GoToOption : Type 0 where
  pub forward : Bool
  pub move_mode : ℤ

unfoldable pub mode_of : GoToOption → ℤ
mode_of o =
    if is_positive o.move_mode then o.move_mode else if o.forward then default_move_mode else pos 4

-- What a skill has submitted, and its result.
abbrev pub Done : Type 0 → Type 0
Done Number = List (Action Number) × Option SkillResult

module _ {Number : Type 0} where
  abbrev submitted : Action Number → Attempt → Done Number
  submitted a t = (a ∷ [], result_of (submit_action t))

  -- After an action that went well, the next part of a skill; otherwise the skill fails.
  abbrev pub and_then : Action Number → Outcome → Done Number → Done Number
  and_then a none rest = (a ∷ [], none)
  and_then a (some (err e)) rest = (a ∷ [], some (failed e))
  and_then a (some (ok _)) (as', r) = (a ∷ as', r)

  -- The first point of interest with a name.
  unfoldable pub find_poi : Str → List (Poi Number) → Option (Poi Number)
  find_poi name [] = none
  find_poi name (p ∷ ps) = if p.name == name then some p else find_poi name ps

  unfoldable pub go_charge_nearby : Attempt → Done Number
  go_charge_nearby t = submitted go_home t

  unfoldable pub exit_lift : Str → Attempt → Done Number
  exit_lift lift t = submitted (leave_elevator lift) t

  unfoldable pub move_to_tag_with_options : Str → Attempt → Done Number
  move_to_tag_with_options options t = submitted (move_to_tag options) t

module _ {Number : Type 0} (zero_float : Number) where
  abbrev poi_action : GoToOption → SlamtecRobot Number → Poi Number → Action Number
  poi_action o r p = move_to (
      in_mode (mode_of o) (
        new_move_to_action_full zero_float r.current_floor.building r.current_floor.floor p.pose.x
          p.pose.y p.pose.yaw))

  unfoldable pub go_to_named_target : Str → GoToOption → Attempt → SlamtecRobot Number → Done Number
  go_to_named_target name o t r = elim (find_poi name r.pois) [
    | none ↦ ([], some (failed (not_found name)))
    | some p ↦ submitted (poi_action o r p) t
  ]

  unfoldable pub go_to_xy : (Number → Bool) → Number → Number → Number → Attempt → Done Number
  go_to_xy is_zero x y yaw t =
      let a =
        if is_zero yaw
        then new_move_to_action_xy zero_float x y
        else new_move_to_action_xy_yaw zero_float x y yaw in
      submitted (move_to (in_mode default_move_mode a)) t

  abbrev pub front_action : RobotPose Number → Action Number
  front_action p =
      move_to (in_mode default_move_mode (new_move_to_action_xy_yaw zero_float p.x p.y p.yaw))

module _ {Number : Type 0} (zero_float pi : Number) where
  -- The three actions of `EnterLift`, each with what the robot does with it.
  abbrev pub enter_from : Str → RobotPose Number → Attempt → Attempt → Attempt → Done Number
  enter_from elevator front t t' t'' = and_then (front_action zero_float front) (submit_action t) (
      and_then (enter_elevator elevator) (submit_action t')
        (and_then (rotate pi) (submit_action t'') ([], some success)))

  abbrev pub enter_elevator_at :
      Attempt → Attempt → Attempt → Str → List (RobotPose Number) → Done Number
  enter_elevator_at t t' t'' elevator [] = ([], some (failed no_front_pose))
  enter_elevator_at t t' t'' elevator (front ∷ _) = enter_from elevator front t t' t''

  unfoldable pub enter_lift : Option (Elevator Number) → Attempt → Attempt → Attempt → Done Number
  enter_lift none t t' t'' = ([], some (failed not_fetched))
  enter_lift (some e) t t' t'' = enter_elevator_at t t' t'' e.id e.front_scheduling_poses

-- `StartJackUp` polls for stage 5 and `StartJackDown` for stage 2, once the command is sent.
abbrev moved_jack : ℕ → Bool → List (Tick JackStatus) → Option SkillResult
moved_jack target sent ticks =
    if sent then result_of (poll_jack_status target ticks) else some (failed not_sent)

unfoldable pub start_jack_up : Bool → List (Tick JackStatus) → Option SkillResult
start_jack_up sent ticks = moved_jack 5 sent ticks

unfoldable pub start_jack_down : Bool → List (Tick JackStatus) → Option SkillResult
start_jack_down sent ticks = moved_jack 2 sent ticks

module _ {Number : Type 0} where
  -- `sent` says whether the parameter was set on the robot.
  unfoldable pub activate_soft_brake :
      Bool → SlamtecRobot Number → SlamtecRobot Number × SkillResult
  activate_soft_brake sent r =
      if sent then (record r { soft_brake_active = true }, success) else (r, failed not_sent)

  unfoldable pub release_soft_brake : Bool → SlamtecRobot Number → SlamtecRobot Number × SkillResult
  release_soft_brake sent r =
      if sent then (record r { soft_brake_active = false }, success) else (r, failed not_sent)

  -- `AutoLocalise`, and `ManualLocalise`, which sends a pose with the floor; the context may end
  -- in the wait of three seconds.
  unfoldable pub localise :
      Str → Str → Str → Bool → Bool → SlamtecRobot Number → SlamtecRobot Number × SkillResult
  localise layout_id layout_name building_name sent ended r = (
    record r { layout_id = layout_id },
    if not (building_name == []) && not (layout_name == []) && not sent
        then failed not_sent
        else if ended
        then cancelled_with cancelled
        else success,
  )

-- The payload of a GOTO task.
pub record GotoPayload : Type 0 where
  pub location_name : Str

pub data GotoError : Type 0 where
  invalid_payload location_required context_ended : GotoError
  skill_failed : ActionError → GotoError

abbrev goto_result : SkillResult → Result GotoError (Unit {0})
goto_result success = ok tt
goto_result (failed e) = err (skill_failed e)
goto_result (cancelled_with e) = err (skill_failed e)

abbrev goto_outcome : Bool → Option SkillResult → Option (Result GotoError (Unit {0}))
goto_outcome true _ = some (err context_ended)
goto_outcome false none = none
goto_outcome false (some r) = some (goto_result r)

-- `Execute` with the skill's result for a named target; `ended` says whether the `select` takes the end of
-- the context.
unfoldable pub execute_goto :
    (Str → Option GotoPayload)
    → (Str → GoToOption → Option SkillResult)
    → Bool
    → Str
    → Option (Result GotoError (Unit {0}))
execute_goto decode skill ended payload = elim (decode payload) [
  | none ↦ some (err invalid_payload)
  | some p ↦
      if p.location_name == []
      then some (err location_required)
      else goto_outcome ended (skill p.location_name (record { forward = true; move_mode = pos 0 }))
]

-- gohome_handler.go, with the result of `GoChargeNearby`.
unfoldable pub execute_go_home :
    (Str → Option GotoPayload)
    → Option SkillResult
    → Bool
    → Str
    → Option (Result GotoError (Unit {0}))
execute_go_home decode charged ended payload = elim (decode payload) [
  | none ↦ some (err invalid_payload)
  | some p ↦ goto_outcome ended charged
]

-- The payload of a JACK task.
pub record JackPayload : Type 0 where
  pub direction : Str

-- jack_handler.go, with the results of the two skills. For any other direction the channel is nil, and
-- nothing is ever received from it.
abbrev pub jack_result : Option SkillResult → Option SkillResult → JackPayload → Option SkillResult
jack_result up down p =
    if p.direction == lit "up" then up else if p.direction == lit "down" then down else none

unfoldable pub execute_jack :
    (Str → Option JackPayload)
    → Option SkillResult
    → Option SkillResult
    → Bool
    → Str
    → Option (Result GotoError (Unit {0}))
execute_jack decode up down ended payload = elim (decode payload) [
  | none ↦ some (err invalid_payload)
  | some p ↦ goto_outcome ended (jack_result up down p)
]
