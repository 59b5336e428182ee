-- ===== src/Core/Tests/Page.antt =====
-- The page of core with three tasks.
use vantage_core.Prelude.{
  ℕ, ◌≤◌, ◌≡◌, ◌⊎◌, Bool, List, [], ◌∷◌, ◌++◌, Str, lit, length, map, filter, All,
}
use vantage_core.Core.Auth
use vantage_core.Core.Repo.{list_tasks}
use vantage_core.Core.Task.{Task}
use vantage_core.Core.Task.Status.{finished}
use vantage_core.Core.Ui.{Ui, task_view, stats}
use vantage_core.Core.Ui.Recent.{Before, IsRecentFirst, recent_tasks-stats}

abbrev task : Str → ℕ → Task
task id received_at = record {
  id = id;
  agent_id = lit "a";
  type = lit "move";
  payload = [];
  status = finished;
  result = [];
  mission_id = [];
  mission_context_id = [];
  mission_context = [];
  received_at = received_at;
  start_at = 0;
  to_expire_at = 0;
}

abbrev page : Ui ℕ ℕ
page = record {
  ar = record {
    auth_service = Auth.new_auth_service;
    allowed_agents = record { agent_id = lit "a"; name = lit "Robot"; key = lit "key" } ∷ [];
    skills = [];
    cameras = [];
    grpc_advertise_addr = [];
    mqtt_last_seen = [];
  };
  task_repo = record {
    ts =
        (lit "1", task (lit "1") 5)
        ∷ (lit "2", task (lit "2") 9)
        ∷ (lit "3", task (lit "3") 7)
        ∷ [];
  };
  mr = record { missions = []; streams = []; alloweds = []; auth_service = Auth.new_auth_service };
  pose_listener = record { latest = []; history = []; keep_for = 10 };
}

recent_tasks-stats_example :
    (listed : List Task) × (others : List Task) × ((stats 10 page).recent_tasks
      ≡ map (task_view page.ar) listed)
    × ((p : Task → Bool)
        → length (filter p (listed ++ others)) ≡ length (filter p (list_tasks page.task_repo [])))
    × IsRecentFirst listed
    × All (λ x. All (Before x) others) listed
    × ((others ≡ []) ⊎ (length listed ≡ 20))
    × (length listed ≤ 20)
recent_tasks-stats_example = recent_tasks-stats 10 page
