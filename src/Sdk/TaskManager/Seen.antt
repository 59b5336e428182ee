-- ===== src/Sdk/TaskManager/Seen.antt =====
-- The agreement of the map and the list of seen tasks, and the bound on their number.
use vantage_core.Prelude.{
  ℕ, suc, zero, ◌+◌, ◌<◌, ◌≤◌, ◌≡◌, refl, List, [], ◌∷◌, none, some, Str, ◌==◌, ==_iff, nat_eq, ltb,
  All, arith, Bool-cases, Option-cases, inl, inr,
}
use vantage_core.Prelude.Assoc
use vantage_core.Sdk.LinkedList
use vantage_core.Sdk.LinkedList.{LinkedList, find, without, to_front, assign}
use vantage_core.Sdk.LinkedList.Pointers.{
  DistinctPointers, find-without, find-assign, without-DistinctPointers, assign-DistinctPointers,
  find_absent, All-without, find_last, length-without, get_last?-ne-none, find-to_front,
  to_front-DistinctPointers, All-to_front, length-to_front, length-assign, All-assign,
}
use vantage_core.Sdk.TaskManager.{
  TaskManager, SeenTask, TaskStatusPayload, max_tracked_tasks, evict_from, evict_oldest, track,
  recall, remember, set_status, no_error, started,
}

abbrev pub Below : ℕ → List (ℕ × SeenTask) → Type 0
Below n = All (λ x. x.0 < n)

-- The map sends a task to the element that holds it, and each element stands in the map.
pub record Agrees (t : TaskManager) : Type 0 where
  pub distinct : DistinctPointers t.seen_order.nodes
  pub fresh : Below t.seen_order.next t.seen_order.nodes
  pub pointed :
      (k : Str) (e : ℕ)
      → Assoc.get t.seen k ≡ some e
      → (s : SeenTask) × (find t.seen_order.nodes e ≡ some s) × (s.task_id ≡ k)
  pub mapped :
      (e : ℕ) (s : SeenTask)
      → find t.seen_order.nodes e ≡ some s
      → Assoc.get t.seen s.task_id ≡ some e

pub record IsValid (t : TaskManager) : Type 0 where
  pub agrees : Agrees t
  pub bounded : LinkedList.size t.seen_order ≤ max_tracked_tasks

Agrees-move_to_front :
    (e : ℕ) (t : TaskManager)
    → Agrees t
    → Agrees (record t { seen_order = LinkedList.move_to_front e t.seen_order })
Agrees-move_to_front e t h = record {
  distinct = to_front-DistinctPointers t.seen_order.nodes e h.distinct;
  fresh = All-to_front _ t.seen_order.nodes e h.fresh;
  pointed = λ k d g.
      let (s, a, b) = h.pointed k d g in
      (s, ground (arith, find-to_front t.seen_order.nodes e d), b);
  mapped = λ d s g. h.mapped d s (ground (arith, find-to_front t.seen_order.nodes e d));
}

-- Dropping the last element and its entry.
pub drop_last :
    (t : TaskManager) (e : ℕ) (s : SeenTask)
    → Agrees t
    → LinkedList.back t.seen_order ≡ some (e, s)
    → Agrees (record t {
      seen = Assoc.del t.seen s.task_id;
      seen_order = LinkedList.remove e t.seen_order;
    })
drop_last t e s h b =
    let here = find_last t.seen_order.nodes e s h.distinct b in
    record {
      distinct = without-DistinctPointers t.seen_order.nodes e h.distinct;
      fresh = All-without _ t.seen_order.nodes e h.fresh;
      pointed = λ k d g.
          let (u, a, c) = h.pointed k d (ground (arith, Assoc.get-del t.seen s.task_id k)) in
          (
            u,
            ground (
              arith,
              find-without t.seen_order.nodes e d,
              Assoc.get-del t.seen s.task_id k,
              ==_iff s.task_id k,
            ),
            c,
          );
      mapped = λ d u g. ground (
        arith,
        find-without t.seen_order.nodes e d,
        Assoc.get-del t.seen s.task_id u.task_id,
        ==_iff s.task_id u.task_id,
        h.mapped d u,
        h.mapped e s here,
      );
    }

pub evict_from-IsValid :
    (fuel : ℕ) (t : TaskManager)
    → Agrees t
    → LinkedList.size t.seen_order ≤ max_tracked_tasks + fuel
    → IsValid (evict_from fuel t)
unfolding evict_from
evict_from-IsValid zero t h b = record { agrees = h; bounded = omega arith }
evict_from-IsValid (suc fuel) t h b =
    elim (Bool-cases (ltb max_tracked_tasks (LinkedList.size t.seen_order))) [
      | inr small ↦ rw (small, evict_from) (record { agrees = h; bounded = ground arith })
      | inl large ↦ elim (Option-cases (LinkedList.back t.seen_order)) [
        | inl e ↦ absurd (ground (arith, get_last?-ne-none t.seen_order.nodes e))
        | inr ((e, s), last) ↦
            rw (large, last, evict_from)
              (evict_from-IsValid fuel _ (drop_last t e s h last) (
                ground (
                  arith,
                  length-without t.seen_order.nodes e h.distinct,
                  find_last t.seen_order.nodes e s h.distinct last,
                )))
      ]
    ]

Below-suc : (n : ℕ) (l : List (ℕ × SeenTask)) → Below n l → Below (suc n) l
Below-suc n [] h = tt
Below-suc n (x ∷ l) (h, hs) = (omega arith, Below-suc n l hs)

-- The manager with a new element for a task that was not seen, before the eviction.
abbrev pub pushed : Str → SeenTask → TaskManager → TaskManager
pushed id s t = record t {
  seen = Assoc.put t.seen id t.seen_order.next;
  seen_order = (LinkedList.push_front s t.seen_order).0;
}

pub Agrees-pushed :
    (id : Str) (s : SeenTask) (t : TaskManager)
    → s.task_id ≡ id
    → Assoc.get t.seen id ≡ none
    → Agrees t
    → Agrees (pushed id s t)
unfolding find
Agrees-pushed id s t same new h =
    let n = t.seen_order.next in
    let absent = find_absent t.seen_order.nodes n h.fresh in
    record {
      distinct = (absent, h.distinct);
      fresh = (omega arith, Below-suc n t.seen_order.nodes h.fresh);
      pointed = λ k e g. elim (Bool-cases (id == k)) [
        | inl y ↦ (s, ground (arith, Assoc.get-put t.seen id k n), ground (arith, ==_iff id k))
        | inr z ↦
            let (u, a, b) = h.pointed k e (ground (arith, Assoc.get-put t.seen id k n)) in
            (u, ground (arith, absent), b)
      ];
      mapped = λ e u g.
          ground (arith, Assoc.get-put t.seen id u.task_id n, ==_iff id u.task_id, h.mapped e u);
    }

abbrev pub first_seen : Str → SeenTask
first_seen id = record { task_id = id; status = no_error id started }

pub track-IsValid :
    (id : Str) (t : TaskManager) → Assoc.get t.seen id ≡ none → Agrees t → IsValid (track id t)
unfolding track evict_oldest
track-IsValid id t new h =
    evict_from-IsValid (suc (LinkedList.size t.seen_order)) (pushed id (first_seen id) t)
      (Agrees-pushed id (first_seen id) t refl new h) (omega arith)

-- Recalling a task, seen before or not, keeps the cache valid: the map and the list agree, and at most
-- 500 tasks are tracked.
pub recall-IsValid : (id : Str) (t : TaskManager) → IsValid t → IsValid (recall id t).0
unfolding recall
recall-IsValid id t h = elim (Option-cases (Assoc.get t.seen id)) [
  | inl new ↦ rw (new, recall) (track-IsValid id t new h.agrees)
  | inr (e, old) ↦
      rw (old, recall)
        (record {
          agrees = Agrees-move_to_front e t h.agrees;
          bounded =
              ground (arith, h.bounded, length-to_front t.seen_order.nodes e h.agrees.distinct);
        })
]

pub Agrees-set_status :
    (e : ℕ) (p : TaskStatusPayload) (t : TaskManager)
    → Agrees t
    → Agrees (record t { seen_order = set_status e p t.seen_order })
unfolding set_status
Agrees-set_status e p t h = elim (Option-cases (find t.seen_order.nodes e)) [
  | inl g ↦ rw (g, set_status) h
  | inr (s, g) ↦
      let s' : SeenTask = record s { status = p } in
      let l = t.seen_order.nodes in
      rw (g, set_status)
        (record {
          distinct = assign-DistinctPointers l e s' h.distinct;
          fresh = All-assign _ l e s' h.fresh;
          pointed = λ k d q.
              let (u, a, b) = h.pointed k d q in
              elim (Bool-cases (nat_eq e d)) [
                | inl y ↦ (s', ground (arith, find-assign l e d s'), ground arith)
                | inr z ↦ (u, ground (arith, find-assign l e d s'), b)
              ];
          mapped = λ d u q. ground (arith, find-assign l e d s', h.mapped d u, h.mapped e s g);
        })
]

pub length-set_status :
    (e : ℕ) (p : TaskStatusPayload) (l : LinkedList SeenTask)
    → LinkedList.size (set_status e p l) ≡ LinkedList.size l
unfolding set_status
length-set_status e p l = elim (Option-cases (find l.nodes e)) [
  | inl g ↦ ground arith
  | inr (s, g) ↦ ground (arith, length-assign l.nodes e (record s { status = p }))
]

-- Noting the outcome of a task keeps the cache valid.
pub remember-IsValid :
    (p : TaskStatusPayload) (t : TaskManager) → IsValid t → IsValid (remember p t)
unfolding remember
remember-IsValid p t h = elim (Option-cases (Assoc.get t.seen p.task_id)) [
  | inl new ↦ rw (new, remember) h
  | inr (e, old) ↦
      rw (old, remember)
        (let set = Agrees-set_status e p t h.agrees in
          record {
            agrees =
                Agrees-move_to_front e (record t { seen_order = set_status e p t.seen_order }) set;
            bounded = ground (
              arith,
              h.bounded,
              length-set_status e p t.seen_order,
              length-to_front (set_status e p t.seen_order).nodes e set.distinct,
            );
          })
]
