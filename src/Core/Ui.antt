-- ===== src/Core/Ui.antt =====
-- cmd/core/ui.go: the numbers and lists on the page of core. The markup of the page is left out. Tasks that
-- were received at the same time may come in another order, and so may agents, which are the entries of a
-- map.
pub mod Recent
use vantage_core.Prelude.{
  ℕ, suc, Bool, true, false, ◌||◌, List, [], ◌∷◌, Option, none, some, Str, lit, length, take, map,
  leb, nat_eq, get_or, if◌then◌else◌,
}
use vantage_core.Prelude.Assoc
use vantage_core.Prelude.Assoc.{Map}
use vantage_core.Core.Agents.{
  AgentRegistry, Agent, AgentSkill, CameraConfig, online_agents, name_for,
}
use vantage_core.Core.Missions.{MissionRegistry, MissionInfo, list_missions}
use vantage_core.Core.Poses.{PoseListener, LayoutPose, get_latest_pose}
use vantage_core.Core.Repo.{TaskRepoMemory, list_tasks}
use vantage_core.Core.Task.{Task}
use vantage_core.Core.Task.Status.{
  TaskStatus, draft, starting, cannot_start, started, expiring, expired, aborting, aborted, failed,
  finishing, finished,
}

pub record AgentWithPose (Number : Type 0) : Type 0 where
  pub agent : Agent
  pub pose : Option (LayoutPose Number)
  pub cameras : List CameraConfig
  pub skills : List AgentSkill

pub record TaskView : Type 0 where
  pub id : Str
  pub type : Str
  pub status : TaskStatus
  pub agent_name : Str
  pub received_at : ℕ

pub record RegistryStats (Number : Type 0) : Type 0 where
  pub connected_agents : ℕ
  pub total_agents : ℕ
  pub agents : List (AgentWithPose Number)
  pub recent_tasks : List TaskView
  pub connected_missions : ℕ
  pub total_missions : ℕ
  pub missions : List MissionInfo

pub record Ui (Number Stream : Type 0) : Type 0 where
  pub ar : AgentRegistry
  pub task_repo : TaskRepoMemory
  pub mr : MissionRegistry Stream
  pub pose_listener : PoseListener Number

-- `sort.Slice` by the time of receipt, the last first.
unfoldable pub insert : Task → List Task → List Task
insert t [] = t ∷ []
insert t (u ∷ us) = if leb u.received_at t.received_at then t ∷ u ∷ us else u ∷ insert t us

unfoldable pub recent_first : List Task → List Task
unfolding insert
recent_first [] = []
recent_first (t ∷ ts) = insert t (recent_first ts)

abbrev pub recent_limit : ℕ
recent_limit = 20

abbrev pub task_view : AgentRegistry → Task → TaskView
task_view ar t = record {
  id = t.id;
  type = t.type;
  status = t.status;
  agent_name = name_for ar t.agent_id;
  received_at = t.received_at;
}

unfoldable pub count_online : List MissionInfo → ℕ
count_online [] = 0
count_online (m ∷ ms) = let n = count_online ms in if m.online then suc n else n

module _ {Number Stream : Type 0} where
  abbrev agent_with_pose : Ui Number Stream → Str × Agent → AgentWithPose Number
  agent_with_pose r (id, a) = record {
    agent = a;
    pose = get_latest_pose a.id r.pose_listener;
    cameras = get_or (Assoc.get r.ar.cameras a.id) [];
    skills = get_or (Assoc.get r.ar.skills a.id) [];
  }

  unfoldable pub stats : ℕ → Ui Number Stream → RegistryStats Number
  unfolding recent_first count_online
  stats now r =
      let online = online_agents now r.ar in
      let all = recent_first (list_tasks r.task_repo []) in
      let infos = list_missions r.mr in
      record {
        connected_agents = length online;
        total_agents = length r.ar.allowed_agents;
        agents = map (agent_with_pose r) online;
        recent_tasks = map (task_view r.ar) (take recent_limit all);
        connected_missions = count_online infos;
        total_missions = length infos;
        missions = infos;
      }

-- `none` stands for the dash of a status without a label.
unfoldable pub task_status_label : TaskStatus → Option Str
task_status_label s =
    if nat_eq s draft
    then some (lit "draft")
    else if nat_eq s starting
    then some (lit "starting")
    else if nat_eq s cannot_start
    then some (lit "cannot start")
    else if nat_eq s started
    then some (lit "started")
    else if nat_eq s expiring
    then some (lit "expiring")
    else if nat_eq s expired
    then some (lit "expired")
    else if nat_eq s aborting
    then some (lit "aborting")
    else if nat_eq s aborted
    then some (lit "aborted")
    else if nat_eq s failed
    then some (lit "failed")
    else if nat_eq s finishing
    then some (lit "finishing")
    else if nat_eq s finished
    then some (lit "finished")
    else none

unfoldable pub task_status_class : TaskStatus → Str
task_status_class s =
    if nat_eq s started || nat_eq s finishing || nat_eq s finished
    then lit "status-ok"
    else if nat_eq s failed || nat_eq s expired || nat_eq s aborted || nat_eq s cannot_start
    then lit "status-err"
    else if nat_eq s starting || nat_eq s expiring || nat_eq s aborting
    then lit "status-warn"
    else lit "status-dim"
