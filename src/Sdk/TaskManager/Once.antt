-- ===== src/Sdk/TaskManager/Once.antt =====
-- Which tasks a manager starts over a run of deliveries and completions.
use vantage_core.Prelude.{
  ℕ, suc, ◌+◌, ◌<◌, ◌≤◌, ◌≡◌, refl, Bool, true, false, List, [], ◌∷◌, Option, none, some, Str, ◌==◌,
  ==_iff, ==_refl, ltb, All, if◌then◌else◌, is_some, arith, Option-cases, subst, sym, inl, inr,
}
use vantage_core.Prelude.Assoc
use vantage_core.Sdk.LinkedList
use vantage_core.Sdk.LinkedList.Pointers.{length-to_front}
use vantage_core.Sdk.TaskManager.Deliveries.{recall_new, recall-Tracked}
use vantage_core.Sdk.TaskManager.Seen.{
  IsValid, recall-IsValid, remember-IsValid, Agrees-set_status, length-set_status, first_seen,
  pushed,
}
use vantage_core.Sdk.TaskManager.{
  TaskManager, TaskStatusPayload, Task, Handler, Handled, Effect, Job, Message, max_tracked_tasks,
  evict_from, evict_oldest, track, recall, remember, set_status, handle_recalled, listen_new_task,
  start, outcome, ack, finish,
}

-- What a run is made of: a message of the topic of new tasks, or the end of a job.
pub data Event : Type 0 where
  deliver : Message → Event
  complete : Job → Event

abbrev tracks : TaskManager → Str → Bool
tracks t id = is_some (Assoc.get t.seen id)

abbrev id_of : Option Job → List Str → List Str
id_of none ids = ids
id_of (some j) ids = j.task.id ∷ ids

module _ (decode : Str → Option Task) (encode : TaskStatusPayload → Option Str) where
  abbrev pub step : Event → TaskManager → Handled
  step (deliver msg) t = listen_new_task decode encode msg t
  step (complete j) t = finish decode encode j t

  -- The ids of the jobs of a run, in order.
  unfoldable pub started_ids : List Event → TaskManager → List Str
  started_ids [] t = []
  started_ids (v ∷ vs) t = let h = step v t in id_of h.job (started_ids vs h.manager)

abbrev pub deliveries : List Event → ℕ
deliveries [] = 0
deliveries (deliver _ ∷ vs) = suc (deliveries vs)
deliveries (complete _ ∷ vs) = deliveries vs

abbrev pub AllDifferent : List Str → Type 0
AllDifferent [] = Unit
AllDifferent (x ∷ xs) = All (λ y. (x == y) ≡ false) xs × AllDifferent xs

-- Below the bound nothing is evicted.
track-pushed :
    (id : Str) (t : TaskManager)
    → LinkedList.size t.seen_order < max_tracked_tasks
    → track id t ≡ pushed id (first_seen id) t
unfolding track evict_oldest evict_from
track-pushed id t h =
    let small : ltb max_tracked_tasks (suc (LinkedList.size t.seen_order)) ≡ false = ground arith in
    rw (small, track, evict_oldest, evict_from) refl

recall-step :
    (id : Str) (t : TaskManager)
    → IsValid t
    → LinkedList.size t.seen_order < max_tracked_tasks
    → (LinkedList.size (recall id t).0.seen_order ≤ suc (LinkedList.size t.seen_order))
      × ((k : Str) → tracks (recall id t).0 k ≡ (if id == k then true else tracks t k))
unfolding recall
recall-step id t h b = elim (Option-cases (Assoc.get t.seen id)) [
  | inl new ↦
      rw (new, recall, track-pushed id t b)
        (omega arith, λ k. ground (arith, Assoc.get-put t.seen id k t.seen_order.next))
  | inr (e, old) ↦
      rw (old, recall)
        (
          ground (arith, length-to_front t.seen_order.nodes e h.agrees.distinct),
          λ k. ground (arith, ==_iff id k),
        )
]

remember-step :
    (p : TaskStatusPayload) (t : TaskManager)
    → IsValid t
    → (LinkedList.size (remember p t).seen_order ≡ LinkedList.size t.seen_order)
      × ((remember p t).seen ≡ t.seen)
unfolding remember
remember-step p t h = elim (Option-cases (Assoc.get t.seen p.task_id)) [
  | inl new ↦ rw (new, remember) (refl, refl)
  | inr (e, old) ↦
      rw (old, remember)
        (
          ground (
            arith,
            length-to_front (set_status e p t.seen_order).nodes e
                (Agrees-set_status e p t h.agrees).distinct,
            length-set_status e p t.seen_order,
          ),
          refl,
        )
]

abbrev NewJob : TaskManager → TaskManager → Option Job → Type 0
NewJob t t' none = Unit
NewJob t t' (some j) = (tracks t j.task.id ≡ false) × (tracks t' j.task.id ≡ true)

-- What holds of a step that tracks at most `n` more tasks.
record Steps (n : ℕ) (t : TaskManager) (h : Handled) : Type 0 where
  valid : IsValid h.manager
  longer : LinkedList.size h.manager.seen_order ≤ n + LinkedList.size t.seen_order
  kept : (k : Str) → tracks h.manager k ≡ false → tracks t k ≡ false
  new_job : NewJob t h.manager h.job

stays :
    (n : ℕ) (t : TaskManager) (es : List Effect)
    → IsValid t
    → Steps n t (record { manager = t; effects = es; job = none })
stays n t es h = record { valid = h; longer = omega arith; kept = λ k x. x; new_job = tt }

module _ (decode : Str → Option Task) (encode : TaskStatusPayload → Option Str) where
  start-Steps :
      (task : Task) (message : Str) (t t' : TaskManager) (o : Option Handler)
      → IsValid t'
      → LinkedList.size t'.seen_order ≤ suc (LinkedList.size t.seen_order)
      → ((k : Str) → tracks t' k ≡ (if task.id == k then true else tracks t k))
      → tracks t task.id ≡ false
      → Steps 1 t (start decode encode t' task message o)
  unfolding start
  start-Steps task message t t' none v l k u = record {
    valid = v;
    longer = omega arith;
    kept = λ i x. ground (arith, k i);
    new_job = tt;
  }
  start-Steps task message t t' (some f) v l k u = record {
    valid = v;
    longer = omega arith;
    kept = λ i x. ground (arith, k i);
    new_job = (u, ground (arith, k task.id, ==_refl task.id));
  }

  handle_recalled-Steps :
      (task : Task) (message : Str) (t : TaskManager)
      → IsValid t
      → LinkedList.size t.seen_order < max_tracked_tasks
      → Steps 1 t (handle_recalled decode encode task message (recall task.id t))
  handle_recalled-Steps task message t h b =
      let v = recall-IsValid task.id t h in
      let (l, k) = recall-step task.id t h b in
      elim (Option-cases (Assoc.get t.seen task.id)) [
        | inl new ↦
            let r = recall_new task.id t new in
            subst (λ x. Steps 1 t (handle_recalled decode encode task message x)) (sym r)
              (start-Steps task message t (track task.id t) _ (subst (λ x. IsValid x.0) r v)
                (subst (λ x. LinkedList.size x.0.seen_order ≤ suc (LinkedList.size t.seen_order)) r
                  l)
                (subst (λ x. (i : Str) → tracks x.0 i ≡ (if task.id == i then true else tracks t i))
                  r k)
                (rw new refl))
        | inr (e, old) ↦
            let (s, f, _) = h.agrees.pointed task.id e old in
            let r = recall-Tracked task.id t e s (old, f) in
            subst (λ x. Steps 1 t (handle_recalled decode encode task message x)) (sym r)
              (record {
                valid = subst (λ x. IsValid x.0) r v;
                longer = omega (
                  arith,
                  subst (λ x. LinkedList.size x.0.seen_order ≤ suc (LinkedList.size t.seen_order)) r
                      l,
                );
                kept = λ i x. x;
                new_job = tt;
              })
      ]

  deliver-Steps :
      (msg : Message) (t : TaskManager)
      → IsValid t
      → LinkedList.size t.seen_order < max_tracked_tasks
      → Steps 1 t (listen_new_task decode encode msg t)
  unfolding listen_new_task
  deliver-Steps msg t h b = elim (Option-cases (decode msg.payload)) [
    | inl bad ↦ rw (bad, listen_new_task) (stays 1 t (ack ∷ []) h)
    | inr (task, d) ↦ rw (d, listen_new_task) (handle_recalled-Steps task msg.payload t h b)
  ]

  complete-Steps : (j : Job) (t : TaskManager) → IsValid t → Steps 0 t (finish decode encode j t)
  unfolding finish
  complete-Steps j t h =
      let p = outcome decode encode j in
      let (l, same) = remember-step p t h in
      record {
        valid = remember-IsValid p t h;
        longer = omega (arith, l);
        kept = λ i x. rw (sym same) x;
        new_job = tt;
      }

  later :
      (t t' : TaskManager) (ids : List Str)
      → ((k : Str) → tracks t' k ≡ false → tracks t k ≡ false)
      → All (λ k. tracks t' k ≡ false) ids
      → All (λ k. tracks t k ≡ false) ids
  later t t' [] f h = tt
  later t t' (i ∷ ids) f (h, hs) = (f i h, later t t' ids f hs)

  differs :
      (t : TaskManager) (i : Str) (ids : List Str)
      → tracks t i ≡ true
      → All (λ k. tracks t k ≡ false) ids
      → All (λ k. (i == k) ≡ false) ids
  differs t i [] x h = tt
  differs t i (k ∷ ids) x (h, hs) = (ground (arith, ==_iff i k), differs t i ids x hs)

  id_of-different :
      (n : ℕ) (t : TaskManager) (h : Handled) (ids : List Str)
      → Steps n t h
      → All (λ k. tracks h.manager k ≡ false) ids × AllDifferent ids
      → All (λ k. tracks t k ≡ false) (id_of h.job ids) × AllDifferent (id_of h.job ids)
  id_of-different n t h ids s (a, d) = by_job h.job s.new_job
    where
      by_job :
          (o : Option Job)
          → NewJob t h.manager o
          → All (λ k. tracks t k ≡ false) (id_of o ids) × AllDifferent (id_of o ids)
      by_job none _ = (later t h.manager ids s.kept a, d)
      by_job (some j) (u, v) =
          ((u, later t h.manager ids s.kept a), (differs h.manager j.task.id ids v a, d))

  started_ids-untracked :
      (vs : List Event) (t : TaskManager)
      → IsValid t
      → LinkedList.size t.seen_order + deliveries vs ≤ max_tracked_tasks
      → All (λ k. tracks t k ≡ false) (started_ids decode encode vs t)
        × AllDifferent (started_ids decode encode vs t)
  unfolding started_ids
  started_ids-untracked [] t h b = (tt, tt)
  started_ids-untracked (deliver msg ∷ vs) t h b =
      let s = deliver-Steps msg t h (omega arith) in
      id_of-different 1 t _ _ s (started_ids-untracked vs _ s.valid (omega (arith, s.longer)))
  started_ids-untracked (complete j ∷ vs) t h b =
      let s = complete-Steps j t h in
      id_of-different 0 t _ _ s (started_ids-untracked vs _ s.valid (omega (arith, s.longer)))

  -- In a run from a valid manager that tracks no task, over deliveries of at most 500 messages and any
  -- ends of jobs in between, no two jobs have the same task id: each task is started at most once,
  -- however often its message is delivered.
  pub started_ids-AllDifferent :
      (vs : List Event) (t : TaskManager)
      → IsValid t
      → LinkedList.size t.seen_order ≡ 0
      → deliveries vs ≤ max_tracked_tasks
      → AllDifferent (started_ids decode encode vs t)
  started_ids-AllDifferent vs t h e b = (started_ids-untracked vs t h (omega arith)).1
