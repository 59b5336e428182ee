-- ===== src/Sdk/Slamtec.antt =====
-- pkg/agentsdk/slamtec: the driver of a robot. This file has the types of models.go and of the actions,
-- and what slamtec_robot.go keeps of the robot. `Number` stands for float64. What a request to the robot
-- gives is an argument, `none` for an error. Fields that nothing here reads are left out.
pub mod Actions
pub mod Waiting
pub mod Skills
pub mod Lift
pub mod Brake
pub mod Events
use vantage_core.Prelude.{
  ℕ, Bool, true, false, ◌||◌, List, [], ◌∷◌, ◌++◌, Option, none, some, Str, lit, ◌==◌, nat_eq,
  if◌then◌else◌,
}
use vantage_core.Telemetry.Mapping.Int.{ℤ, pos, negsuc}

pub record RobotPose (Number : Type 0) : Type 0 where
  pub x : Number
  pub y : Number
  pub yaw : Number

pub record Poi (Number : Type 0) : Type 0 where
  pub id : Str
  pub name : Str
  pub pose : RobotPose Number

pub record Floor : Type 0 where
  pub building : Str
  pub floor : Str

pub record PowerStatus : Type 0 where
  pub battery_percentage : ℤ
  pub is_charging : Bool
  pub docking_status : Str

pub record RobotHealth : Type 0 where
  pub has_error : Bool
  pub has_fatal : Bool
  pub has_lidar_disconnected : Bool
  pub has_system_emergency_stop : Bool

pub record JackStatus : Type 0 where
  pub alarm : ℤ
  pub stage : ℤ

pub record ActionState : Type 0 where
  pub status : ℤ
  pub result : ℤ
  pub reason : Str

pub record ActionInfo : Type 0 where
  pub action_id : ℤ
  pub action_name : Str
  pub state : ActionState

pub record Elevator (Number : Type 0) : Type 0 where
  pub id : Str
  pub front_scheduling_poses : List (RobotPose Number)

pub record RobotEvent : Type 0 where
  pub type : Str
  pub timestamp : Str

-- A subscriber's channel has room for one value.
abbrev pub Channel : Type 0
Channel = Option Bool

pub record SlamtecRobot (Number : Type 0) : Type 0 where
  pub layout_id : Str
  pub current_floor : Floor
  pub robot_pose : RobotPose Number
  pub pois : List (Poi Number)
  pub cached_health : RobotHealth
  pub cached_power : PowerStatus
  pub soft_brake_active : Bool
  pub brake_state : Bool
  pub brake_subs : List Channel

abbrev pub int_eq : ℤ → ℕ → Bool
int_eq (pos n) k = nat_eq n k
int_eq (negsuc n) k = false

abbrev pub is_negative : ℤ → Bool
is_negative (pos n) = false
is_negative (negsuc n) = true

abbrev pub is_positive : ℤ → Bool
is_positive (pos n) = if nat_eq n 0 then false else true
is_positive (negsuc n) = false

abbrev or_keep {ℓ κ} : {A : Type ℓ} {R : Type κ} → (A → R → R) → Option A → R → R
or_keep f none r = r
or_keep f (some a) r = f a r

-- `ch <- state` where the channel has room
abbrev pub offer : Bool → Channel → Channel
offer state none = some state
offer state (some old) = some old

unfoldable pub broadcast_brake : Bool → List Channel → List Channel
broadcast_brake state [] = []
broadcast_brake state (ch ∷ chs) = offer state ch ∷ broadcast_brake state chs

abbrev same : Bool → Bool → Bool
same true b = b
same false b = if b then false else true

abbrev is_jacked : Option JackStatus → Bool
is_jacked none = false
is_jacked (some s) = int_eq s.stage 5

module _ {Number : Type 0} where
  abbrev set_floor : Floor → SlamtecRobot Number → SlamtecRobot Number
  set_floor floor r = record r { current_floor = floor }

  -- A round of each of the background loops.
  unfoldable pub poll_floor : Option Floor → SlamtecRobot Number → SlamtecRobot Number
  poll_floor got r = or_keep set_floor got r

  abbrev set_health : RobotHealth → SlamtecRobot Number → SlamtecRobot Number
  set_health h r =
      let new_brake = h.has_system_emergency_stop in
      record r {
        cached_health = h;
        brake_state = new_brake;
        brake_subs =
            if same r.brake_state new_brake
            then r.brake_subs
            else broadcast_brake new_brake r.brake_subs;
      }

  unfoldable pub poll_health : Option RobotHealth → SlamtecRobot Number → SlamtecRobot Number
  poll_health got r = or_keep set_health got r

  abbrev set_power : PowerStatus → SlamtecRobot Number → SlamtecRobot Number
  set_power p r = record r { cached_power = p }

  unfoldable pub poll_power : Option PowerStatus → SlamtecRobot Number → SlamtecRobot Number
  poll_power got r = or_keep set_power got r

  abbrev set_pose : RobotPose Number → SlamtecRobot Number → SlamtecRobot Number
  set_pose p r = record r { robot_pose = p }

  unfoldable pub poll_pose : Option (RobotPose Number) → SlamtecRobot Number → SlamtecRobot Number
  poll_pose got r = or_keep set_pose got r

  abbrev set_pois : List (Poi Number) → SlamtecRobot Number → SlamtecRobot Number
  set_pois ps r = record r { pois = ps }

  unfoldable pub refresh_pois :
      Option (List (Poi Number)) → SlamtecRobot Number → SlamtecRobot Number
  refresh_pois got r = or_keep set_pois got r

  -- The new channel is the last.
  unfoldable pub brake_ch : SlamtecRobot Number → SlamtecRobot Number
  brake_ch r = record r { brake_subs = r.brake_subs ++ some r.brake_state ∷ [] }

  abbrev is_docked : SlamtecRobot Number → Bool
  is_docked r = r.cached_power.docking_status == lit "on_dock"

  unfoldable pub is_battery_charging : SlamtecRobot Number → Bool
  is_battery_charging r = r.cached_power.is_charging || is_docked r

  -- `jack` is what the robot answers for the status of the jack.
  unfoldable pub is_status_active : Option JackStatus → Str → SlamtecRobot Number → Bool
  unfolding is_battery_charging
  is_status_active jack key r =
      if key == lit "SOFT_BRAKE"
      then r.soft_brake_active
      else if key == lit "ESTOP"
      then r.cached_health.has_system_emergency_stop
      else if key == lit "FATAL"
      then r.cached_health.has_fatal
      else if key == lit "CHARGING"
      then is_battery_charging r
      else if key == lit "DOCKED"
      then is_docked r
      else if key == lit "JACK_UP"
      then is_jacked jack
      else false
