-- ===== src/Core/Dispatcher/OneActive.antt =====
-- One active task per agent.
use vantage_core.Prelude.{
  ℕ, ◌+◌, ◌≤◌, ◌≡◌, ◌≢◌, ◌↔◌, refl, ap, true, false, [], Option, none, some, Str, ==_iff, ==_refl,
  length, arith, leb, err, if◌then◌else◌,
}
use vantage_core.Prelude.Assoc
use vantage_core.Prelude.Assoc.{Map}
use vantage_core.Core.Task.{Task, final, copy_metadata}
use vantage_core.Core.Repo.{
  TaskRepoMemory, is_active, get_active_tasks_by_agent, save_task, stamped, get_task_by_id,
}
use vantage_core.Core.Repo.Active.{
  length-select-put, length-select-put_over, length-select-pos, length-select-put_off,
}
use vantage_core.Core.Dispatcher.{TaskDispatcher, WireTask, Sent, agent_is_busy, deliver, send_task}

abbrev pub active_count : TaskRepoMemory → Str → ℕ
active_count r agent_id = length (get_active_tasks_by_agent r agent_id)

pub record OneActive (r : TaskRepoMemory) : Type 0 where
  pub at : (agent_id : Str) → active_count r agent_id ≤ 1

-- The task that is stored keeps its id, its agent and its status.
pub stamped_fields :
    (now : ℕ) (found : Option Task) (t : Task)
    → ((stamped now found t).id ≡ t.id)
      × ((stamped now found t).agent_id ≡ t.agent_id)
      × ((stamped now found t).status ≡ t.status)
unfolding stamped copy_metadata
stamped_fields now none t = (refl, refl, refl)
stamped_fields now (some f) t = (refl, refl, refl)

pub active_count-save_task :
    (now : ℕ) (r : TaskRepoMemory) (t : Task) (a : Str)
    → active_count (save_task now r t).0 a ≤ active_count r a + (if is_active a t then 1 else 0)
unfolding save_task get_active_tasks_by_agent
active_count-save_task now r t a =
    let t' = stamped now (Assoc.get r.ts t.id) t in
    ground (
      arith,
      stamped_fields now (Assoc.get r.ts t.id) t,
      length-select-put (is_active a) r.ts t.id t',
    )

-- Saving a task over an active one of the agent adds none.
pub active_count-save_task_over :
    (now : ℕ) (r : TaskRepoMemory) (t u : Task) (a : Str)
    → get_task_by_id r t.id ≡ some u
    → is_active a u ≡ true
    → active_count (save_task now r t).0 a ≤ active_count r a
unfolding save_task get_active_tasks_by_agent get_task_by_id
active_count-save_task_over now r t u a e h =
    length-select-put_over (is_active a) r.ts t.id (stamped now (Assoc.get r.ts t.id) t) u e h

-- Saving a task that is final over an active one of its agent leaves one less.
pub active_count-save_task-final :
    (now : ℕ) (r : TaskRepoMemory) (t u : Task) (a : Str)
    → get_task_by_id r t.id ≡ some u
    → is_active a u ≡ true
    → final t ≡ true
    → active_count (save_task now r t).0 a + 1 ≡ active_count r a
unfolding save_task get_active_tasks_by_agent get_task_by_id
active_count-save_task-final now r t u a e h f =
    let t' = stamped now (Assoc.get r.ts t.id) t in
    let s = stamped_fields now (Assoc.get r.ts t.id) t in
    length-select-put_off (is_active a) r.ts t.id t' u e h (ground (arith, s))

pub active_count_saved :
    (now : ℕ) (r : TaskRepoMemory) (t : Task)
    → final t ≡ false
    → 1 ≤ active_count (save_task now r t).0 t.agent_id
unfolding save_task get_active_tasks_by_agent
active_count_saved now r t h =
    let t' = stamped now (Assoc.get r.ts t.id) t in
    length-select-pos (is_active t.agent_id) (Assoc.put r.ts t.id t') t.id t'
      (ground (arith, Assoc.get-put r.ts t.id t.id t', ==_refl t.id))
      (ground (arith, stamped_fields now (Assoc.get r.ts t.id) t, ==_refl t.agent_id))

-- What a call gives for a busy agent.
abbrev pub refused : TaskDispatcher → Sent
refused d = record { dispatcher = d; published = []; result = err agent_is_busy }

module _ (encode : WireTask → Option Str) where
  dispatcher-deliver : (d : TaskDispatcher) (t : Task) → (deliver encode d t).dispatcher ≡ d
  unfolding deliver
  dispatcher-deliver d t = ground arith

  deliver-ne-busy :
      (d : TaskDispatcher) (t : Task) → (deliver encode d t).result ≢ err agent_is_busy
  unfolding deliver
  deliver-ne-busy d t = ground arith

  pub repo-send_task :
      (now : ℕ) (d : TaskDispatcher) (t : Task)
      → (send_task encode now d t).dispatcher.task_repo ≡ (
          if leb 1 (active_count d.task_repo t.agent_id)
          then d.task_repo
          else (save_task now d.task_repo t).0)
  unfolding send_task
  repo-send_task now d t =
      let (repo, t') = save_task now d.task_repo t in
      ground (arith, dispatcher-deliver (record d { task_repo = repo }) t')

  -- Sending a task never gives an agent a second active task, whatever the task and however the
  -- delivery ends.
  pub send_task-OneActive :
      (now : ℕ) (d : TaskDispatcher) (t : Task)
      → OneActive d.task_repo
      → OneActive (send_task encode now d t).dispatcher.task_repo
  send_task-OneActive now d t h = record {
    at = λ a. ground (
      arith,
      h.at a,
      repo-send_task now d t,
      active_count-save_task now d.task_repo t a,
      ==_iff t.agent_id a,
    );
  }

  -- A task is refused as busy exactly when its agent has an active task, and exactly then the call
  -- saves nothing and publishes nothing.
  pub send_task-busy_iff :
      (now : ℕ) (d : TaskDispatcher) (t : Task)
      → (((send_task encode now d t).result ≡ err agent_is_busy)
          ↔ (1 ≤ active_count d.task_repo t.agent_id))
        × ((send_task encode now d t ≡ refused d) ↔ (1 ≤ active_count d.task_repo t.agent_id))
  unfolding send_task
  send_task-busy_iff now d t =
      let (repo, t') = save_task now d.task_repo t in
      let stays = deliver-ne-busy (record d { task_repo = repo }) t' in
      (
        (λ h. ground (arith, stays), λ h. ground arith),
        (λ h. ground (arith, stays, ap (λ (s : Sent). s.result) h), λ h. ground arith),
      )

  -- Whatever the first call returned, an agent that was sent a task that is not final refuses the
  -- next one, also when the first was never delivered.
  pub send_task-blocks :
      (now later : ℕ) (d : TaskDispatcher) (t u : Task)
      → final t ≡ false
      → u.agent_id ≡ t.agent_id
      → (send_task encode later (send_task encode now d t).dispatcher u).result ≡ err agent_is_busy
  send_task-blocks now later d t u h e =
      (send_task-busy_iff later (send_task encode now d t).dispatcher u).0.1
        (ground (arith, repo-send_task now d t, active_count_saved now d.task_repo t h))
