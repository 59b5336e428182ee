-- ===== src/Sdk/PoseStream.antt =====
-- pkg/agentsdk/service/stream_pose.go: the poses that an agent streams to core. `Number` stands for float64
-- with its operations. An event of `run` is one whose `Send` returned no error, which need not have reached
-- core. The choice of the `select` is a list.
pub mod Recorded
use vantage_core.Prelude.{
  ℕ, Bool, true, false, ◌&&◌, List, [], ◌∷◌, Option, none, some, Str, ◌==◌, nat_eq, length,
  if◌then◌else◌,
}
use vantage_core.Core.Api.AgentStream.{TransformationMatrix}
use vantage_core.Core.Poses.{PoseTelemetryEvent}
use vantage_core.Sdk.Slamtec.{RobotPose}

pub record Arithmetic (Number : Type 0) : Type 0 where
  pub add : Number → Number → Number
  pub mul : Number → Number → Number

pub record StreamPose (Number : Type 0) : Type 0 where
  pub agent_id : Str
  pub layout_id : Str
  pub matrix : Option (List Number)
  pub north_offset : Number

-- The end of the context, or a tick with the pose of the robot, the time, and whether `Send` goes well.
pub data Tick (Number : Type 0) : Type 0 where
  done : Tick Number
  sampled : RobotPose Number → ℕ → Bool → Tick Number

module _ {Number : Type 0} where
  -- The loop over the matrices of the response.
  unfoldable pub load_matrix :
      List (TransformationMatrix Number) → StreamPose Number → StreamPose Number
  load_matrix [] p = p
  load_matrix (m ∷ ms) p =
      if m.layout_id == p.layout_id && nat_eq (length m.matrix) 9
      then record p { matrix = some m.matrix; north_offset = m.north_offset }
      else load_matrix ms p

  -- The call for the matrices, where `none` stands for an error.
  unfoldable pub fetch_matrix :
      Option (List (TransformationMatrix Number)) → StreamPose Number → StreamPose Number
  unfolding load_matrix
  fetch_matrix none p = p
  fetch_matrix (some ms) p = load_matrix ms p

module _ {Number : Type 0} (a : Arithmetic Number) where
  abbrev line : Number → Number → Number → Number → Number → Number
  line m n k x y = a.add (a.add (a.mul m x) (a.mul n y)) k

  -- `none` stands for an index out of range.
  unfoldable pub apply_affine : List Number → Number → Number → Option (Number × Number)
  apply_affine (m0 ∷ m1 ∷ m2 ∷ m3 ∷ m4 ∷ m5 ∷ _) x y = some (line m0 m1 m2 x y, line m3 m4 m5 x y)
  apply_affine _ x y = none

  abbrev turned : Number → Number → Option (Number × Number) → Option (RobotPose Number)
  turned north yaw none = none
  turned north yaw (some (x, y)) = some (record { x = x; y = y; yaw = a.add yaw north })

  unfoldable pub get_layout_pose : StreamPose Number → RobotPose Number → Option (RobotPose Number)
  unfolding apply_affine
  get_layout_pose p rp = elim p.matrix [
    | none ↦ some rp
    | some m ↦ turned p.north_offset rp.yaw (apply_affine m rp.x rp.y)
  ]

  abbrev pub event_of : StreamPose Number → ℕ → RobotPose Number → PoseTelemetryEvent Number
  event_of p now rp = record {
    layout_id = p.layout_id;
    x = rp.x;
    y = rp.y;
    yaw = rp.yaw;
    timestamp = now;
  }

  -- The loop: the events whose `Send` returns no error.
  unfoldable pub run : StreamPose Number → List (Tick Number) → List (PoseTelemetryEvent Number)
  unfolding get_layout_pose
  run p [] = []
  run p (done ∷ _) = []
  run p (sampled rp now false ∷ _) = []
  run p (sampled rp now true ∷ ticks) = elim (get_layout_pose p rp) [
    | none ↦ []
    | some q ↦ event_of p now q ∷ run p ticks
  ]
