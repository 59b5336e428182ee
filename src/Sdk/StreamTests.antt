-- ===== src/Sdk/StreamTests.antt =====
-- An agent that gets its tasks over a stream.
use vantage_core.Prelude.{◌+◌, ◌≡◌, refl, false, List, [], ◌∷◌, none, lit, ◌==◌, ok, err}
use vantage_core.Prelude.Assoc
use vantage_core.Sdk.Stream.{
  StreamTask, TaskHandler, AgentTaskManager, new_agent_task_manager, running_in, handle_task, begin,
  abort_current_task, clear_task, finish_task, is_task_running, last_ack, started_ack,
}
use vantage_core.Sdk.Stream.Outcomes.{
  Happening, comes, aborts, starts, returns, after, after_all, held, begun, ended, all_begun,
  all_ended, held-after_all, finish_task-steals,
}

abbrev mover : TaskHandler
mover = record { task_type = lit "move"; payload_schema = lit "{}" }

abbrev agent : AgentTaskManager
agent = record { handlers = (lit "move", mover) ∷ []; current = none; contexts = 0; cancelled = [] }

abbrev move : StreamTask
move = record { id = lit "1"; type = lit "move"; payload = [] }

-- The handlers of a new manager are found by their types.
new_manager : new_agent_task_manager (mover ∷ []) ≡ agent
unfolding Assoc.put
new_manager = refl

abbrev day : List Happening
day =
    comes move
    ∷ starts (running_in agent move)
    ∷ aborts (lit "1")
    ∷ returns (running_in agent move) (err (lit "cancelled"))
    ∷ comes move
    ∷ []

-- Two runs of the task began, one of them was aborted, and the other one is still held.
day_counts :
    (all_begun (lit "1") day agent ≡ 2)
    × (all_ended (lit "1") day agent ≡ 1)
    × (held (lit "1") (after_all day agent) ≡ 1)
unfolding all_begun all_ended after_all begun ended after held handle_task begin abort_current_task
    clear_task finish_task started_ack Assoc.get ◌==◌
day_counts = (refl, refl, refl)

held-after_all_example :
    held (lit "1") agent + all_begun (lit "1") day agent
    ≡ all_ended (lit "1") day agent + held (lit "1") (after_all day agent)
held-after_all_example = held-after_all (lit "1") day agent

finish_task-steals_example :
    let old = running_in agent move in
    let again = after (comes move) (after (aborts (lit "1")) (after (comes move) agent)) in
    let stolen = finish_task old (ok (lit "a")) again in
    ((handle_task move (after (aborts (lit "1")) (after (comes move) agent))).result
      ≡ ok (record { task = move; cancel = 1 }))
    × (stolen.1 ≡ last_ack old (ok (lit "a")) ∷ [])
    × (is_task_running stolen.0 ≡ false)
    × (stolen.0.cancelled ≡ 0 ∷ 0 ∷ [])
    × ((finish_task (record { task = move; cancel = 1 }) (ok (lit "b")) stolen.0).1 ≡ [])
unfolding is_task_running Assoc.get ◌==◌
finish_task-steals_example = finish_task-steals move agent (lit "a") (lit "b") refl refl
