-- ===== src/Core/Poses.antt =====
-- cmd/core/service/pose_listener.go: the poses that the agents report. `Number` stands for float64, and
-- a time is a number of nanoseconds. The keys of a Go map are visited in the order of the entries.
pub mod History
use vantage_core.Prelude.{
  ℕ, ◌+◌, Bool, List, [], ◌∷◌, ◌++◌, Option, none, some, Str, map, filter, ltb,
}
use vantage_core.Prelude.Assoc
use vantage_core.Prelude.Assoc.{Map}

-- cmd/core/model/layout_pose.go
pub record LayoutPose (Number : Type 0) : Type 0 where
  pub agent_id : Str
  pub layout_id : Str
  pub x : Number
  pub y : Number
  pub yaw : Number
  pub timestamp : ℕ

pub record PoseTelemetryEvent (Number : Type 0) : Type 0 where
  pub layout_id : Str
  pub x : Number
  pub y : Number
  pub yaw : Number
  pub timestamp : ℕ

pub record PoseListener (Number : Type 0) : Type 0 where
  pub latest : Map (LayoutPose Number)
  pub history : Map (List (LayoutPose Number))
  pub keep_for : ℕ

module _ {Number : Type 0} where
  abbrev pub new_pose_listener : ℕ → PoseListener Number
  new_pose_listener keep_for = record { latest = []; history = []; keep_for = keep_for }

  abbrev pub pose_of : Str → PoseTelemetryEvent Number → LayoutPose Number
  pose_of id e = record {
    agent_id = id;
    layout_id = e.layout_id;
    x = e.x;
    y = e.y;
    yaw = e.yaw;
    timestamp = e.timestamp;
  }

  -- `p.history[agentID]`, which is empty for a missing key
  abbrev pub or_empty : Option (List (LayoutPose Number)) → List (LayoutPose Number)
  or_empty none = []
  or_empty (some poses) = poses

  unfoldable pub get_history : Str → PoseListener Number → List (LayoutPose Number)
  get_history id p = or_empty (Assoc.get p.history id)

  -- `none` stands for the zero pose that the source returns for an agent that never reported one.
  unfoldable pub get_latest_pose : Str → PoseListener Number → Option (LayoutPose Number)
  get_latest_pose id p = Assoc.get p.latest id

  unfoldable pub on_pose_update :
      Str → PoseTelemetryEvent Number → PoseListener Number → PoseListener Number
  on_pose_update id e p = record p {
    latest = Assoc.put p.latest id (pose_of id e);
    history = Assoc.put p.history id (or_empty (Assoc.get p.history id) ++ pose_of id e ∷ []);
  }

  -- `time.Since(pose.Timestamp) < p.keepFor`, where the left side may be negative
  abbrev pub is_recent : ℕ → ℕ → LayoutPose Number → Bool
  is_recent keep_for now pose = ltb now (pose.timestamp + keep_for)

  abbrev pub clean_entry : ℕ → ℕ → Str × List (LayoutPose Number) → Str × List (LayoutPose Number)
  clean_entry keep_for now (id, poses) = (id, filter (is_recent keep_for now) poses)

  unfoldable pub clean_history : ℕ → PoseListener Number → PoseListener Number
  clean_history now p = record p { history = map (clean_entry p.keep_for now) p.history }
