-- ===== src/Core/Missions/Updates.antt =====
-- What an update of an agent changes, and which missions hear of it.
use mathlib.Core.Option
use vantage_core.Prelude.{
  ℕ, ◌≡◌, ◌≢◌, ◌↔◌, inl, inr, refl, true, false, ◌&&◌, [], ◌∷◌, some, Str, ◌==◌, ==_iff, arith,
  if◌then◌else◌, is_some, Option-cases, All, ◌⊎◌,
}
use vantage_core.Core.Task.{
  Task, final, final_status, transient, copy_metadata, mission_task_status, MissionTaskStatus,
  status_unspecified, status_accepted, status_in_progress, status_completed, status_failed,
}
use vantage_core.Core.Task.Status
use vantage_core.Core.Task.Status.{TaskStatus}
use vantage_core.Core.Repo.{TaskRepoMemory, save_task, stamped, get_task_by_id}
use vantage_core.Core.Dispatcher.{TaskDispatcher}
use vantage_core.Core.Dispatcher.OneActive.{
  OneActive, active_count-save_task, active_count-save_task_over, stamped_fields,
}
use vantage_core.Core.Dispatcher.Delivery.{get_task_by_id-save_task}
use vantage_core.Core.Missions.{MissionRegistry, get_stream}
use vantage_core.Core.Missions.TaskManager.{TaskAck, Notice, acked, notices, on_task_updated}

-- Every task stands under its own id.
pub record IsKeyed (r : TaskRepoMemory) : Type 0 where
  pub at : (id : Str) (t : Task) → get_task_by_id r id ≡ some t → t.id ≡ id

pub save_task-IsKeyed :
    (now : ℕ) (r : TaskRepoMemory) (t : Task) → IsKeyed r → IsKeyed (save_task now r t).0
save_task-IsKeyed now r t h = record {
  at = λ id u e. ground (
    arith,
    get_task_by_id-save_task now r t id,
    stamped_fields now (get_task_by_id r t.id) t,
    ==_iff t.id id,
    h.at id u,
  );
}

pub stamped_found :
    (now : ℕ) (found : Task) (ack : TaskAck)
    → stamped now (some found) (acked found ack) ≡ acked found ack
unfolding stamped copy_metadata
stamped_found now found ack = refl

-- The statuses of a task that a mission is told of.
abbrev pub Confirmed : TaskStatus → Type 0
Confirmed s =
    All (λ x. s ≢ x)
      (Status.unspecified ∷ Status.draft ∷ Status.starting ∷ Status.expiring ∷ Status.aborting
        ∷ Status.finishing ∷ [])

-- What a status of a task means for a mission.
abbrev pub MeansFor : TaskStatus → MissionTaskStatus → Type 0
MeansFor s status_unspecified =
    All (λ x. s ≢ x)
      (Status.started ∷ Status.finished ∷ Status.failed ∷ Status.cannot_start ∷ Status.aborted
        ∷ Status.expired ∷ [])
MeansFor s status_accepted = ⊥
MeansFor s status_in_progress = s ≡ Status.started
MeansFor s status_completed = s ≡ Status.finished
MeansFor s status_failed =
    (s ≡ Status.failed) ⊎ (s ≡ Status.cannot_start) ⊎ (s ≡ Status.aborted) ⊎ (s ≡ Status.expired)

pub transient_iff : (t : Task) → (transient t ≡ false) ↔ Confirmed t.status
unfolding transient
transient_iff t = (λ h. ground arith, λ h. ground arith)

pub MeansFor-iff :
    (t : Task) (m : MissionTaskStatus) → (mission_task_status t ≡ m) ↔ MeansFor t.status m
unfolding mission_task_status
MeansFor-iff t status_unspecified = (λ h. ground arith, λ h. ground arith)
MeansFor-iff t status_accepted = (λ h. ground arith, λ h. absurd h)
MeansFor-iff t status_in_progress = (λ h. ground arith, λ h. ground arith)
MeansFor-iff t status_completed = (λ h. ground arith, λ h. ground arith)
MeansFor-iff t status_failed = (λ h. ground arith, λ h. ground arith)

module _ {Stream : Type 0} (mr : MissionRegistry Stream) (now : ℕ) (ack : TaskAck)
    (d : TaskDispatcher) where
  abbrev after : TaskDispatcher
  after = (on_task_updated mr now ack d).0

  -- An update of a task that the repository has changes the status and the result of that task, and
  -- nothing else; an update of an unknown task changes no task. Tasks stay under their own ids.
  pub find-on_task_updated :
      IsKeyed d.task_repo
      → ((id : Str)
          → get_task_by_id after.task_repo id ≡ (
              if is_some (get_task_by_id d.task_repo ack.task_id) && ack.task_id == id
              then Option.map {A = Task}
                  (λ t. record t { status = ack.status; result = ack.result })
                  (get_task_by_id d.task_repo id)
              else get_task_by_id d.task_repo id))
        × IsKeyed after.task_repo
  unfolding on_task_updated
  find-on_task_updated keyed = elim (Option-cases (get_task_by_id d.task_repo ack.task_id)) [
    | inl e ↦ (λ id. ground arith, rw (e, after, on_task_updated) keyed)
    | inr (found, e) ↦ (
      λ id. ground (
        arith,
        keyed.at ack.task_id found e,
        get_task_by_id-save_task now d.task_repo (acked found ack) id,
        stamped_found now found ack,
        ==_iff ack.task_id id,
      ),
      rw (e, after, on_task_updated) (save_task-IsKeyed now d.task_repo (acked found ack) keyed),
    )
  ]

  -- A mission hears of an update exactly when the task is one of its own, the new status is not
  -- unspecified, draft, starting, expiring, aborting or finishing, and the mission holds a stream: then
  -- its stream gets, once, the context of the task with the mission's word for the new status, which is in
  -- progress for started, completed for finished, failed for failed, cannot start, aborted and expired,
  -- and unspecified for a status that is no known one.
  pub notices-on_task_updated :
      (found : Task)
      → get_task_by_id d.task_repo ack.task_id ≡ some found
      → found.id ≡ ack.task_id
      → (n : Notice Stream)
      → ((on_task_updated mr now ack d).1 ≡ n ∷ []) ↔ (
          (found.mission_id ≢ [])
          × Confirmed ack.status
          × (get_stream mr found.mission_id ≡ some n.stream)
          × (n.update.mission_context ≡ found.mission_context)
          × MeansFor ack.status n.update.status)
  unfolding on_task_updated notices save_task get_task_by_id
  notices-on_task_updated found e k n =
      let s = stamped_found now found ack in
      let u = acked found ack in
      let means = MeansFor-iff u n.update.status in
      (
        λ p. (
          ground (arith, ==_iff found.mission_id []),
          (transient_iff u).0 (ground arith),
          ground arith,
          ground arith,
          means.0 (ground arith),
        ),
        λ (asked, confirmed, stream, context, told).
            let c = (transient_iff u).1 confirmed in
            let m = means.1 told in ground (arith, ==_iff found.mission_id []),
      )

  -- An update keeps one active task per agent, unless it gives a final task a status that is not
  -- final.
  pub on_task_updated-OneActive :
      IsKeyed d.task_repo
      → ((found : Task)
          → get_task_by_id d.task_repo ack.task_id ≡ some found
          → final found ≡ true
          → final_status ack.status ≡ true)
      → OneActive d.task_repo
      → OneActive after.task_repo
  unfolding on_task_updated
  on_task_updated-OneActive keyed stays h =
      elim (Option-cases (get_task_by_id d.task_repo ack.task_id)) [
        | inl e ↦ rw (e, after, on_task_updated) h
        | inr (found, e) ↦
            rw (e, after, on_task_updated)
              (record {
                at = λ a. ground (
                  arith,
                  h.at a,
                  stays found e,
                  keyed.at ack.task_id found e,
                  active_count-save_task now d.task_repo (acked found ack) a,
                  active_count-save_task_over now d.task_repo (acked found ack) found a,
                );
              })
      ]
