-- ===== src/Core/Task.antt =====
-- cmd/core/model/task.go: a task and its statuses.
pub mod Status
use vantage_core.Prelude.{ℕ, Bool, true, false, ◌||◌, Str, nat_eq, if◌then◌else◌}
use vantage_core.Core.Task.Status.{
  TaskStatus, unspecified, draft, starting, cannot_start, started, expiring, expired, aborting,
  aborted, failed, finishing, finished,
}

-- A time is a number of nanoseconds since the zero time of Go, which is 0 here.
pub record Task : Type 0 where
  pub id : Str
  pub agent_id : Str
  pub type : Str
  pub payload : Str
  pub status : TaskStatus
  pub result : Str
  pub mission_id : Str
  pub mission_context_id : Str
  pub mission_context : Str
  pub received_at : ℕ
  pub start_at : ℕ
  pub to_expire_at : ℕ

unfoldable pub transient : Task → Bool
transient t =
    nat_eq t.status unspecified
    || nat_eq t.status draft
    || nat_eq t.status starting
    || nat_eq t.status expiring
    || nat_eq t.status aborting
    || nat_eq t.status finishing

unfoldable pub final_status : TaskStatus → Bool
final_status s = nat_eq s aborted || nat_eq s failed || nat_eq s finished

abbrev pub final : Task → Bool
final t = final_status t.status

-- `t.CopyMetadata(tn)` writes to `tn`.
unfoldable pub copy_metadata : Task → Task → Task
copy_metadata t tn = record tn {
  received_at = t.received_at;
  start_at = t.start_at;
  to_expire_at = t.to_expire_at;
}

pub data MissionTaskStatus : Type 0 where
  status_unspecified status_accepted status_in_progress status_completed status_failed :
      MissionTaskStatus

unfoldable pub mission_task_status : Task → MissionTaskStatus
mission_task_status t =
    if nat_eq t.status started
    then status_in_progress
    else if nat_eq t.status finished
    then status_completed
    else if nat_eq t.status failed
        || nat_eq t.status cannot_start
        || nat_eq t.status aborted
        || nat_eq t.status expired
    then status_failed
    else status_unspecified
