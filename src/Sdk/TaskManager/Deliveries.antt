-- ===== src/Sdk/TaskManager/Deliveries.antt =====
-- What a delivery of a task does, the first time and again.
use vantage_core.Prelude.{
  ℕ, suc, zero, ◌<◌, ◌≡◌, refl, ap, true, List, [], ◌∷◌, ◌++◌, Option, none, some, Str, ltb, length,
  get_last?, arith, Bool-cases, Option-cases, inl, inr, subst, sym,
}
use vantage_core.Prelude.Assoc
use vantage_core.Prelude.Assoc.{Map}
use vantage_core.Sdk.LinkedList
use vantage_core.Sdk.LinkedList.{LinkedList, find, without, to_front, assign}
use vantage_core.Sdk.LinkedList.Pointers.{
  DistinctPointers, find-assign, find-to_front, find_last, get_last?-ne-none,
}
use vantage_core.Sdk.Mqtt.{Client}
use vantage_core.Sdk.Topic.{Topic}
use vantage_core.Sdk.TaskManager.Seen.{
  Agrees, IsValid, Agrees-pushed, pushed, first_seen, evict_from-IsValid, drop_last,
}
use vantage_core.Sdk.TaskManager.{
  TaskManager, SeenTask, TaskStatusPayload, Task, Job, Message, max_tracked_tasks, evict_from,
  evict_oldest, track, recall, remember, set_status, status_at, started, no_error, publish_status,
  ack, listen_new_task, start, Handler, outcome, with_status, finish,
}

abbrev pub Tracked : TaskManager → Str → ℕ → SeenTask → Type 0
Tracked t id e s = (Assoc.get t.seen id ≡ some e) × (find t.seen_order.nodes e ≡ some s)

abbrev dropped : TaskManager → ℕ → SeenTask → TaskManager
dropped t d u = record t {
  seen = Assoc.del t.seen u.task_id;
  seen_order = LinkedList.remove d t.seen_order;
}

-- The last of two or more elements is not the first.
without-first :
    (e d : ℕ) (s u : SeenTask) (l : List (ℕ × SeenTask))
    → DistinctPointers ((e, s) ∷ l)
    → 1 < length ((e, s) ∷ l)
    → get_last? ((e, s) ∷ l) ≡ some (d, u)
    → without ((e, s) ∷ l) d ≡ (e, s) ∷ without l d
unfolding without
without-first e d s u [] h n g = absurd (omega arith)
without-first e d s u (x ∷ l) (h, hs) n g = ground (arith, find_last (x ∷ l) d u hs g)

-- The eviction never takes the first element.
find-evict_from :
    (fuel : ℕ) (t : TaskManager) (e : ℕ) (s : SeenTask) (l : List (ℕ × SeenTask))
    → Agrees t
    → t.seen_order.nodes ≡ (e, s) ∷ l
    → find (evict_from fuel t).seen_order.nodes e ≡ some s
unfolding evict_from
find-evict_from zero t e s l h n = unfold find in ground arith
find-evict_from (suc fuel) t e s l h n =
    elim (Bool-cases (ltb max_tracked_tasks (LinkedList.size t.seen_order))) [
      | inr small ↦ rw (small, evict_from) (unfold find in ground arith)
      | inl large ↦ elim (Option-cases (LinkedList.back t.seen_order)) [
        | inl g ↦ absurd (ground (arith, get_last?-ne-none t.seen_order.nodes g))
        | inr ((d, u), last) ↦
            rw (large, last, evict_from)
              (find-evict_from fuel (dropped t d u) e s (without l d) (drop_last t d u h last) (
                subst (λ m. without m d ≡ (e, s) ∷ without l d) (sym n)
                  (without-first e d s u l (subst DistinctPointers n h.distinct)
                    (rw n at (many large)) (rw n at last))))
      ]
    ]
  where
    many :
        ltb max_tracked_tasks (LinkedList.size t.seen_order) ≡ true → 1 < length t.seen_order.nodes
    many x = ground arith

status_at_found :
    (t : TaskManager) (e : ℕ) (s : SeenTask)
    → find t.seen_order.nodes e ≡ some s
    → status_at t e ≡ some s.status
status_at_found t e s f = rw (f, status_at) refl

pub recall_new :
    (id : Str) (t : TaskManager) → Assoc.get t.seen id ≡ none → recall id t ≡ (track id t, none)
unfolding recall
recall_new id t new = rw (new, recall) refl

-- The status that a tracked task has.
pub recall-Tracked :
    (id : Str) (t : TaskManager) (e : ℕ) (s : SeenTask)
    → Tracked t id e s
    → recall id t
      ≡ (record t { seen_order = LinkedList.move_to_front e t.seen_order }, some s.status)
unfolding recall
recall-Tracked id t e s (g, f) =
    rw (g, recall)
      (ap (λ x. (record t { seen_order = LinkedList.move_to_front e t.seen_order }, x))
        (status_at_found t e s f))

abbrev pub noted : TaskStatusPayload → TaskManager → ℕ → SeenTask → TaskManager
noted p t e s = record t {
  seen_order = record t.seen_order {
    nodes = to_front e (assign e (with_status p s) t.seen_order.nodes);
  };
}

pub remember-Tracked :
    (p : TaskStatusPayload) (t : TaskManager) (e : ℕ) (s : SeenTask)
    → Tracked t p.task_id e s
    → remember p t ≡ noted p t e s
unfolding remember set_status
remember-Tracked p t e s (g, f) = rw (g, remember, f, set_status) refl

module _ (decode : Str → Option Task) (encode : TaskStatusPayload → Option Str) where
  -- A delivery of a task that is tracked starts nothing: it publishes the status that was noted last
  -- for the task, and acknowledges the message.
  pub listen_new_task-Tracked :
      (msg : Message) (t : TaskManager) (task : Task) (e : ℕ) (s : SeenTask)
      → decode msg.payload ≡ some task
      → Tracked t task.id e s
      → let h = listen_new_task decode encode msg t in
        (h.job ≡ none) × (h.effects ≡ publish_status encode t s.status ++ ack ∷ [])
  unfolding listen_new_task recall publish_status
  listen_new_task-Tracked msg t task e s d w =
      rw (d, listen_new_task, recall-Tracked task.id t e s w) (refl, refl)

pub track-Tracked :
    (id : Str) (t : TaskManager)
    → IsValid t
    → Assoc.get t.seen id ≡ none
    → Tracked (track id t) id t.seen_order.next (first_seen id)
unfolding track evict_oldest
track-Tracked id t h new =
    let e = t.seen_order.next in
    let p = pushed id (first_seen id) t in
    let fuel = LinkedList.size p.seen_order in
    let agrees = Agrees-pushed id (first_seen id) t refl new h.agrees in
    let kept = find-evict_from fuel p e (first_seen id) t.seen_order.nodes agrees refl in
    let after = evict_from-IsValid fuel p agrees (omega arith) in
    (after.agrees.mapped e (first_seen id) kept, kept)

-- What the memory of seen tasks has no part in.
abbrev pub fields : TaskManager → Map Handler × Topic × Option Client
fields t = (t.handlers, t.topic, t.mqtt)

fields-evict_from : (fuel : ℕ) (t : TaskManager) → fields (evict_from fuel t) ≡ fields t
unfolding evict_from
fields-evict_from zero t = refl
fields-evict_from (suc fuel) t =
    elim (Bool-cases (ltb max_tracked_tasks (LinkedList.size t.seen_order))) [
      | inr small ↦ rw (small, evict_from) refl
      | inl large ↦ elim (Option-cases (LinkedList.back t.seen_order)) [
        | inl g ↦ rw (large, g, evict_from) refl
        | inr ((d, u), last) ↦ rw (large, last, evict_from) (fields-evict_from fuel (dropped t d u))
      ]
    ]

pub fields-track : (id : Str) (t : TaskManager) → fields (track id t) ≡ fields t
unfolding track evict_oldest
fields-track id t =
    fields-evict_from (suc (LinkedList.size t.seen_order)) (pushed id (first_seen id) t)

pub handlers-track : (id : Str) (t : TaskManager) → (track id t).handlers ≡ t.handlers
handlers-track id t = ap (λ x. x.0) (fields-track id t)

-- A first sight of a task returns no status, and the next one the status `started`.
pub recall_twice :
    (id : Str) (t : TaskManager)
    → IsValid t
    → Assoc.get t.seen id ≡ none
    → let (t', first) = recall id t in
      (first ≡ none) × ((recall id t').1 ≡ some (no_error id started))
recall_twice id t h new =
    subst (λ x. (x.1 ≡ none) × ((recall id x.0).1 ≡ some (no_error id started)))
      (sym (recall_new id t new))
      (
        refl,
        ap (λ x. x.1)
            (recall-Tracked id (track id t) t.seen_order.next (first_seen id)
              (track-Tracked id t h new)),
      )

found_noted :
    (p : TaskStatusPayload) (t : TaskManager) (e : ℕ) (s : SeenTask)
    → find t.seen_order.nodes e ≡ some s
    → find (noted p t e s).seen_order.nodes e ≡ some (with_status p s)
found_noted p t e s f = ground (
  arith,
  find-to_front (assign e (with_status p s) t.seen_order.nodes) e e,
  find-assign t.seen_order.nodes e e (with_status p s),
)

-- After the outcome of a tracked task is noted, a delivery of the task finds this outcome.
pub recall-remember :
    (p : TaskStatusPayload) (t : TaskManager) (e : ℕ) (s : SeenTask)
    → Tracked t p.task_id e s
    → (recall p.task_id (remember p t)).1 ≡ some p
recall-remember p t e s (g, f) = rw (remember-Tracked p t e s (g, f)) (
    ap (λ x. x.1)
      (recall-Tracked p.task_id (noted p t e s) e (with_status p s) (g, found_noted p t e s f)))

module _ (decode : Str → Option Task) (encode : TaskStatusPayload → Option Str) where
  pub outcome-task_id : (j : Job) → (outcome decode encode j).task_id ≡ j.task.id
  outcome-task_id j = elim (Option-cases (j.handler j.message)) [
    | inl g ↦ rw (g, outcome) refl
    | inr (m, g) ↦ rw (g, outcome) refl
  ]

  -- After the job of a tracked task has ended, another delivery of the task does what the end of the
  -- job did, and no more: it publishes the outcome and acknowledges its message. It starts no job.
  pub listen_new_task-finish :
      (msg : Message) (j : Job) (t : TaskManager) (e : ℕ) (s : SeenTask)
      → decode msg.payload ≡ some j.task
      → Tracked t j.task.id e s
      → let h = finish decode encode j t in
        let again = listen_new_task decode encode msg h.manager in
        (again.effects ≡ h.effects) × (again.job ≡ none)
  unfolding finish
  listen_new_task-finish msg j t e s d w =
      let p = outcome decode encode j in
      let (job, effects) =
        listen_new_task-Tracked decode encode msg (noted p t e s) j.task e (with_status p s) d
          (w.0, found_noted p t e s w.1) in
      let same = subst (λ i. Tracked t i e s) (sym (outcome-task_id j)) w in
      rw (remember-Tracked p t e s same) (effects, job)

  listen_new_task_unhandled :
      (msg : Message) (t : TaskManager) (task : Task)
      → decode msg.payload ≡ some task
      → Assoc.get t.seen task.id ≡ none
      → Assoc.get t.handlers task.type ≡ none
      → listen_new_task decode encode msg t
        ≡ record { manager = track task.id t; effects = ack ∷ []; job = none }
  unfolding listen_new_task start
  listen_new_task_unhandled msg t task d new nh =
      rw (d, listen_new_task, recall_new task.id t new, handlers-track task.id t, nh) refl

  -- A task that no handler is registered for: its first delivery is only acknowledged, and the next one
  -- publishes that the task has started, though neither delivery starts a job.
  pub listen_new_task-unknown_type :
      (msg : Message) (t : TaskManager) (task : Task)
      → IsValid t
      → decode msg.payload ≡ some task
      → Assoc.get t.seen task.id ≡ none
      → Assoc.get t.handlers task.type ≡ none
      → let h = listen_new_task decode encode msg t in
        let again = listen_new_task decode encode msg h.manager in
        (h.effects ≡ ack ∷ [])
        × (h.job ≡ none)
        × (again.effects ≡ publish_status encode h.manager (no_error task.id started) ++ ack ∷ [])
        × (again.job ≡ none)
  listen_new_task-unknown_type msg t task h d new nh =
      let s = first_seen task.id in
      let (job, effects) =
        listen_new_task-Tracked decode encode msg (track task.id t) task t.seen_order.next s d
          (track-Tracked task.id t h new) in
      rw (listen_new_task_unhandled msg t task d new nh) (refl, refl, effects, job)
