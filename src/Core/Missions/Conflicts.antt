-- ===== src/Core/Missions/Conflicts.antt =====
-- Updates that come twice, late, or say that a task did not start.
use vantage_core.Prelude.{
  ℕ, ◌≡◌, ◌≢◌, ◌≤◌, ◌⊎◌, refl, false, Option, some, Str, ==_iff, ==_refl, arith, Option-cases, inl,
  inr, err,
}
use vantage_core.Prelude.Assoc
use vantage_core.Core.Task.{
  Task, final, final_status, mission_task_status, status_failed, copy_metadata,
}
use vantage_core.Core.Task.Status.{cannot_start, expired}
use vantage_core.Core.Repo.{
  TaskRepoMemory, save_task, stamped, get_task_by_id, is_active, get_active_tasks_by_agent,
}
use vantage_core.Core.Repo.Active.{length-select-two, length-select-pos}
use vantage_core.Core.Dispatcher.{TaskDispatcher, WireTask, agent_is_busy, send_task}
use vantage_core.Core.Dispatcher.OneActive.{active_count, send_task-busy_iff}
use vantage_core.Core.Dispatcher.Delivery.{get_task_by_id-save_task}
use vantage_core.Core.Missions.{MissionRegistry}
use vantage_core.Core.Missions.TaskManager.{TaskAck, acked, on_task_updated}
use vantage_core.Core.Missions.Updates.{IsKeyed, stamped_found}

save_task_again :
    (now : ℕ) (r : TaskRepoMemory) (t : Task)
    → get_task_by_id r t.id ≡ some t
    → save_task now r t ≡ (r, t)
unfolding save_task get_task_by_id stamped copy_metadata
save_task_again now r t h = ground (arith, Assoc.put_self r.ts t.id t h)

saved :
    (now : ℕ) (r : TaskRepoMemory) (t : Task)
    → (save_task now r t).1 ≡ stamped now (get_task_by_id r t.id) t
unfolding save_task get_task_by_id
saved now r t = refl

module _ {Stream : Type 0} (mr : MissionRegistry Stream) (now : ℕ) (ack : TaskAck)
    (d : TaskDispatcher) where
  found_after :
      (found : Task)
      → get_task_by_id d.task_repo ack.task_id ≡ some found
      → found.id ≡ ack.task_id
      → get_task_by_id (on_task_updated mr now ack d).0.task_repo ack.task_id
        ≡ some (acked found ack)
  unfolding on_task_updated
  found_after found e k = ground (
    arith,
    get_task_by_id-save_task now d.task_repo (acked found ack) ack.task_id,
    stamped_found now found ack,
    ==_refl ack.task_id,
  )

  kept :
      (id : Str) (other found : Task)
      → get_task_by_id d.task_repo ack.task_id ≡ some found
      → found.id ≡ ack.task_id
      → id ≢ ack.task_id
      → get_task_by_id d.task_repo id ≡ some other
      → get_task_by_id (on_task_updated mr now ack d).0.task_repo id ≡ some other
  unfolding on_task_updated
  kept id other found e k n f =
      ground
        (arith, get_task_by_id-save_task now d.task_repo (acked found ack) id, ==_iff found.id id)

  still_active :
      (found : Task)
      → get_task_by_id d.task_repo ack.task_id ≡ some found
      → found.id ≡ ack.task_id
      → final_status ack.status ≡ false
      → 1 ≤ active_count (on_task_updated mr now ack d).0.task_repo found.agent_id
  unfolding get_active_tasks_by_agent get_task_by_id
  still_active found e k f =
      length-select-pos (is_active found.agent_id) _ ack.task_id (acked found ack)
        (found_after found e k) (ground (arith, ==_refl found.agent_id))

  -- The same update a second time leaves every task as it is, and sends the mission what the first
  -- one sent, again.
  pub on_task_updated_twice :
      (later : ℕ)
      → IsKeyed d.task_repo
      → on_task_updated mr later ack (on_task_updated mr now ack d).0
        ≡ ((on_task_updated mr now ack d).0, (on_task_updated mr now ack d).1)
  unfolding on_task_updated
  on_task_updated_twice later keyed = elim (Option-cases (get_task_by_id d.task_repo ack.task_id)) [
    | inl e ↦ ground arith
    | inr (found, e) ↦
        let k = keyed.at ack.task_id found e in
        let r : TaskRepoMemory = (save_task now d.task_repo (acked found ack)).0 in
        ground (
          arith,
          k,
          found_after found e k,
          get_task_by_id-save_task now d.task_repo (acked found ack) ack.task_id,
          stamped_found now found ack,
          ==_refl ack.task_id,
          save_task_again later r (acked found ack),
          saved now d.task_repo (acked found ack),
        )
  ]

  -- A late update with a status that is not final gives an agent two active tasks, if the agent has
  -- another active task by then.
  pub on_task_updated-two_active :
      (found other : Task)
      → get_task_by_id d.task_repo ack.task_id ≡ some found
      → found.id ≡ ack.task_id
      → get_task_by_id d.task_repo other.id ≡ some other
      → other.id ≢ ack.task_id
      → other.agent_id ≡ found.agent_id
      → final other ≡ false
      → final_status ack.status ≡ false
      → 2 ≤ active_count (on_task_updated mr now ack d).0.task_repo found.agent_id
  unfolding get_active_tasks_by_agent get_task_by_id
  on_task_updated-two_active found other e k f n a fo fa =
      length-select-two (is_active found.agent_id) _ other.id ack.task_id other (acked found ack) n
        (kept other.id other found e k n f) (found_after found e k)
        (ground (arith, ==_iff other.agent_id found.agent_id))
        (ground (arith, ==_refl found.agent_id))

  -- When an agent reports that a task could not start or has expired, the status for its mission is
  -- that it failed, and the agent is still refused the next task as busy.
  pub on_task_updated-blocks :
      (encode : WireTask → Option Str) (later : ℕ) (found next : Task)
      → get_task_by_id d.task_repo ack.task_id ≡ some found
      → found.id ≡ ack.task_id
      → (ack.status ≡ cannot_start) ⊎ (ack.status ≡ expired)
      → next.agent_id ≡ found.agent_id
      → (mission_task_status (acked found ack) ≡ status_failed)
        × ((send_task encode later (on_task_updated mr now ack d).0 next).result
            ≡ err agent_is_busy)
  unfolding mission_task_status
  on_task_updated-blocks encode later found next e k s a = (
    ground arith,
    (send_task-busy_iff encode later (on_task_updated mr now ack d).0 next).0.1
        (rw a (still_active found e k (unfold final_status in ground arith))),
  )
