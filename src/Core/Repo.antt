-- ===== src/Core/Repo.antt =====
-- cmd/core/repository/task_repo_memory.go: tasks by id. The map holds pointers, and every read
-- returns a copy of the task, so a map of values behaves the same; the caller of `save_task` sees
-- the task as it was stored.
pub mod Active
use vantage_core.Prelude.{
  ℕ, Bool, true, false, ◌&&◌, not, List, [], ◌∷◌, ◌++◌, Option, none, some, Str, ◌==◌, filter, map,
  Result, ok, err, if◌then◌else◌, ◌||◌,
}
use vantage_core.Prelude.Assoc
use vantage_core.Prelude.Assoc.{Map}
use vantage_core.Core.Task.{Task, final, copy_metadata}

pub record TaskRepoMemory : Type 0 where
  pub ts : Map Task

abbrev pub new_task_repo_memory : TaskRepoMemory
new_task_repo_memory = record { ts = [] }

unfoldable pub get_task_by_id : TaskRepoMemory → Str → Option Task
get_task_by_id r task_id = Assoc.get r.ts task_id

-- What `SaveTask` writes to the task: the times of the task it replaces, or the time now.
unfoldable pub stamped : ℕ → Option Task → Task → Task
stamped now none task = record task { received_at = now }
stamped now (some found) task = copy_metadata found task

unfoldable pub save_task : ℕ → TaskRepoMemory → Task → TaskRepoMemory × Task
unfolding stamped
save_task now r task =
    let task' = stamped now (Assoc.get r.ts task.id) task in
    (record { ts = Assoc.put r.ts task.id task' }, task')

-- The tasks that a `range` over the map does not skip.
unfoldable pub select : (Task → Bool) → Map Task → List Task
select p [] = []
select p ((k, t) ∷ ts) = let rest = select p ts in if p t then t ∷ rest else rest

abbrev pub is_active : Str → Task → Bool
is_active agent_id t = t.agent_id == agent_id && not (final t)

unfoldable pub get_active_tasks_by_agent : TaskRepoMemory → Str → List Task
get_active_tasks_by_agent r agent_id = select (is_active agent_id) r.ts

abbrev pub is_listed : Str → Task → Bool
is_listed agent_id t = agent_id == [] || t.agent_id == agent_id

unfoldable pub list_tasks : TaskRepoMemory → Str → List Task
list_tasks r agent_id = select (is_listed agent_id) r.ts
