-- ===== src/Core/Tests/Poses.antt =====
-- Poses that two agents report, and a cleaning between them.
use vantage_core.Prelude.{ℕ, ◌≡◌, refl, List, [], ◌∷◌, ◌++◌, lit, filter, ◌==◌}
use vantage_core.Prelude.Assoc
use vantage_core.Core.Poses.{
  PoseTelemetryEvent, PoseListener, new_pose_listener, pose_of, get_history, on_pose_update,
  clean_history,
}
use vantage_core.Core.Poses.History.{
  Happening, reports, cleans, after, after_all, lasts, lasting, get_history-after_all,
}

abbrev at : ℕ → PoseTelemetryEvent ℕ
at time = record { layout_id = lit "hall"; x = 1; y = 2; yaw = 0; timestamp = time }

abbrev listener : PoseListener ℕ
listener = on_pose_update (lit "a") (at 20) (new_pose_listener 10)

-- At time 31 the poses of times 20 and 21 are too old.
abbrev shift : List (Happening ℕ)
shift =
    reports (lit "a") (at 21)
    ∷ reports (lit "b") (at 30)
    ∷ reports (lit "a") (at 22)
    ∷ cleans 31
    ∷ reports (lit "a") (at 32)
    ∷ []

two_are_kept :
    get_history (lit "a") (after_all shift listener)
    ≡ pose_of (lit "a") (at 22) ∷ pose_of (lit "a") (at 32) ∷ []
unfolding after_all after on_pose_update clean_history get_history Assoc.get Assoc.put ◌==◌
two_are_kept = refl

get_history-after_all_example :
    get_history (lit "a") (after_all shift listener)
    ≡ filter (lasts 10 shift) (pose_of (lit "a") (at 20) ∷ []) ++ lasting 10 (lit "a") shift
unfolding get_history on_pose_update Assoc.get Assoc.put ◌==◌
get_history-after_all_example = get_history-after_all (lit "a") shift listener
