-- ===== src/Sdk/PoseStreamTests.antt =====
-- An agent that streams three poses, of which the last is not sent and the second does not arrive.
use vantage_core.Prelude.{
  ℕ, ◌+◌, ◌*◌, ◌≡◌, refl, true, false, List, [], ◌∷◌, ◌++◌, none, lit, ◌==◌, if◌then◌else◌,
}
use vantage_core.Core.Api.AgentStream.{report_pose_telemetry}
use vantage_core.Core.Config.{AgentLayoutConfig}
use vantage_core.Core.Poses.{PoseListener, get_history, new_pose_listener}
use vantage_core.Sdk.PoseStream.{Arithmetic, StreamPose, Tick, sampled}
use vantage_core.Sdk.PoseStream.Recorded.{context, arrives, recorded, get_history-stream_pose}
use vantage_core.Sdk.Slamtec.{RobotPose}

abbrev numbers : Arithmetic ℕ
numbers = record { add = λ m n. m + n; mul = λ m n. m * n }

abbrev agent : StreamPose ℕ
agent = record { agent_id = lit "a"; layout_id = lit "hall"; matrix = none; north_offset = 0 }

-- The matrix moves a pose by 10 and 20.
abbrev layouts : List (AgentLayoutConfig ℕ)
layouts =
    record {
      layout_id = lit "hall";
      agent_id = lit "a";
      north_offset = 90;
      transformation_matrix = (1 ∷ 0 ∷ 10 ∷ []) ∷ (0 ∷ 1 ∷ 20 ∷ []) ∷ (0 ∷ 0 ∷ 1 ∷ []) ∷ [];
    }
    ∷ []

abbrev at : ℕ → RobotPose ℕ
at x = record { x = x; y = 2; yaw = 3 }

abbrev ticks : List (Tick ℕ)
ticks = sampled (at 1) 5 true ∷ sampled (at 4) 6 true ∷ sampled (at 7) 8 false ∷ []

abbrev listener : PoseListener ℕ
listener = new_pose_listener 10

moved :
    recorded numbers agent layouts (lit "Bearer t" ∷ []) (at 1, 5)
    ≡ record { agent_id = lit "a"; layout_id = lit "hall"; x = 11; y = 22; yaw = 93; timestamp = 5 }
unfolding ◌==◌
moved = refl

get_history-stream_pose_example :
    get_history
      (lit "a")
      (report_pose_telemetry
        (context numbers agent layouts (lit "Bearer t" ∷ []))
        (arrives numbers agent layouts (lit "Bearer t" ∷ []) 1 true ticks)
        listener).0
    ≡ get_history (lit "a") listener
      ++ (if lit "a" == lit "a"
          then recorded numbers agent layouts (lit "Bearer t" ∷ []) (at 1, 5) ∷ []
          else [])
get_history-stream_pose_example =
    get_history-stream_pose numbers agent layouts (lit "Bearer t" ∷ []) 1 true ticks listener
      (lit "a") refl
