-- ===== src/Journey/Updates.antt =====
-- What the updates of the one active task of an agent do.
use vantage_core.Prelude.{ℕ, ◌≡◌, true, false, Option, some, Str, ==_refl, arith}
use vantage_core.Core.Task.{Task, final, final_status}
use vantage_core.Core.Repo.{TaskRepoMemory, save_task, stamped, get_task_by_id}
use vantage_core.Core.Dispatcher.{TaskDispatcher, WireTask, send_task}
use vantage_core.Core.Dispatcher.OneActive.{
  active_count, active_count-save_task, active_count-save_task_over, active_count-save_task-final,
  active_count_saved, repo-send_task, stamped_fields,
}
use vantage_core.Core.Dispatcher.Delivery.{get_task_by_id-save_task}
use vantage_core.Core.Missions.{MissionRegistry}
use vantage_core.Core.Missions.TaskManager.{TaskAck, acked, on_task_updated}
use vantage_core.Core.Missions.Updates.{stamped_found}

-- The repository has this task under its own id, and it is the one active task of its agent.
pub record Works (r : TaskRepoMemory) (u : Task) : Type 0 where
  pub found : get_task_by_id r u.id ≡ some u
  pub unfinished : final u ≡ false
  pub alone : active_count r u.agent_id ≡ 1

pub send_task-Works :
    (encode : WireTask → Option Str) (now : ℕ) (d : TaskDispatcher) (t : Task)
    → active_count d.task_repo t.agent_id ≡ 0
    → final t ≡ false
    → Works
        (send_task encode now d t).dispatcher.task_repo
        (stamped now (get_task_by_id d.task_repo t.id) t)
send_task-Works encode now d t idle unfinished =
    let r = d.task_repo in
    let f = stamped_fields now (get_task_by_id r t.id) t in
    let repo = repo-send_task encode now d t in
    record {
      found = ground (arith, repo, f, get_task_by_id-save_task now r t t.id, ==_refl t.id);
      unfinished = ground (arith, f);
      alone = ground (
        arith,
        repo,
        f,
        active_count-save_task now r t t.agent_id,
        active_count_saved now r t unfinished,
      );
    }

module _ {Stream : Type 0} (mr : MissionRegistry Stream) (now : ℕ) (ack : TaskAck)
    (d : TaskDispatcher) (u : Task) (w : Works d.task_repo u) (same : ack.task_id ≡ u.id) where
  abbrev after : TaskRepoMemory
  after = (on_task_updated mr now ack d).0.task_repo

  after-eq : after ≡ (save_task now d.task_repo (acked u ack)).0
  unfolding on_task_updated
  after-eq = ground (arith, w.found)

  found_after : get_task_by_id after u.id ≡ some (acked u ack)
  found_after = ground (
    arith,
    after-eq,
    get_task_by_id-save_task now d.task_repo (acked u ack) u.id,
    w.found,
    stamped_found now u ack,
    ==_refl u.id,
  )

  pub on_task_updated-Works : final_status ack.status ≡ false → Works after (acked u ack)
  on_task_updated-Works unfinished = record {
    found = found_after;
    unfinished = unfinished;
    alone = ground (
      arith,
      after-eq,
      w.alone,
      w.unfinished,
      ==_refl u.agent_id,
      active_count-save_task_over now d.task_repo (acked u ack) u u.agent_id w.found,
      active_count_saved now d.task_repo (acked u ack) unfinished,
    );
  }

  pub on_task_updated-ends :
      final_status ack.status ≡ true
      → (get_task_by_id after u.id ≡ some (acked u ack)) × (active_count after u.agent_id ≡ 0)
  on_task_updated-ends ended = (
    found_after,
    ground (
      arith,
      after-eq,
      w.alone,
      w.unfinished,
      ==_refl u.agent_id,
      active_count-save_task-final now d.task_repo (acked u ack) u u.agent_id w.found,
    ),
  )
