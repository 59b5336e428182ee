-- ===== src/Sdk/SlamtecTests.antt =====
-- Runs of the robot's driver on small inputs.
use vantage_core.Prelude.{
  ℕ, Bool, ◌≡◌, ◌≢◌, ◌↔◌, refl, true, false, List, [], ◌∷◌, none, some, lit, ok, is_some,
}
use vantage_core.Telemetry.Mapping.Int.{pos}
use vantage_core.Sdk.Slamtec.{
  ActionInfo, JackStatus, Elevator, RobotPose, RobotHealth, SlamtecRobot, brake_ch,
}
use vantage_core.Sdk.Slamtec.Actions.{
  Tick, done, deadline, asked, Attempt, wait_for_action, submit_action, poll_jack_status,
}
use vantage_core.Sdk.Slamtec.Skills.{success, enter_lift}
use vantage_core.Sdk.Slamtec.Waiting.{SucceedsAt, wait_for_action-ok_iff, loops_end}
use vantage_core.Sdk.Slamtec.Lift.{Begins, plan_of, enter_lift-plan}
use vantage_core.Sdk.Slamtec.Brake.{EndsWith, poll_all, brake_ch-stale}

abbrev info : ℕ → ActionInfo
info status = record {
  action_id = pos 1;
  action_name = lit "move";
  state = record { status = pos status; result = pos 0; reason = [] };
}

-- An answer that fails, one of an action that goes on, one of an action that is done.
abbrev good : List (Tick ActionInfo)
good = asked none ∷ asked (some (info 1)) ∷ asked (some (info 4)) ∷ []

wait_for_action-ok_iff_example : (wait_for_action good ≡ some (ok tt)) ↔ SucceedsAt good
wait_for_action-ok_iff_example = wait_for_action-ok_iff good

abbrev late : List (Tick ActionInfo)
late = asked (some (info 1)) ∷ deadline ∷ []

abbrev raising : List (Tick JackStatus)
raising = asked (some (record { alarm = pos 0; stage = pos 2 })) ∷ done ∷ []

loops_end_example :
    (is_some (submit_action (record { created = some (info 0); ticks = late })) ≡ true)
    × (is_some (poll_jack_status 5 raising) ≡ true)
loops_end_example = loops_end (some (info 0)) late 5 raising refl refl

abbrev front : RobotPose ℕ
front = record { x = 1; y = 2; yaw = 3 }

abbrev elevator : Elevator ℕ
elevator = record { id = lit "e"; front_scheduling_poses = front ∷ [] }

abbrev attempt : Attempt
attempt = record { created = some (info 0); ticks = good }

abbrev stuck : Attempt
stuck = record { created = some (info 0); ticks = late }

enter_lift-plan_example :
    let entered = enter_lift {Number = ℕ} 0 180 (some elevator) attempt stuck attempt in
    Begins entered.0 (plan_of {Number = ℕ} 0 180 (lit "e") front)
    × ((entered.1 ≡ some success) ↔ (
        (elevator.front_scheduling_poses ≢ [])
        × (submit_action attempt ≡ some (ok tt))
        × (submit_action stuck ≡ some (ok tt))
        × (submit_action attempt ≡ some (ok tt))))
    × ((enter_lift {Number = ℕ} 0 180 none attempt stuck attempt).0 ≡ [])
    × ((enter_lift {Number = ℕ} 0 180 none attempt stuck attempt).1 ≢ some success)
enter_lift-plan_example = enter_lift-plan {Number = ℕ} 0 180 elevator attempt stuck attempt

abbrev health : Bool → RobotHealth
health brake = record {
  has_error = false;
  has_fatal = false;
  has_lidar_disconnected = false;
  has_system_emergency_stop = brake;
}

abbrev robot : SlamtecRobot ℕ
robot = record {
  layout_id = lit "hall";
  current_floor = record { building = []; floor = [] };
  robot_pose = front;
  pois = [];
  cached_health = health false;
  cached_power = record { battery_percentage = pos 50; is_charging = false; docking_status = [] };
  soft_brake_active = false;
  brake_state = false;
  brake_subs = [];
}

-- The channel says that the brake is off, although it is on.
brake_ch-stale_example :
    EndsWith
      (some false)
      (poll_all (some (health false) ∷ some (health true) ∷ []) (brake_ch robot))
    × ((poll_all (some (health false) ∷ some (health true) ∷ []) (brake_ch robot)).brake_state
        ≡ true)
brake_ch-stale_example = brake_ch-stale (some (health false) ∷ []) (health true) robot
