-- ===== src/Telemetry/Throttle/Keeps.antt =====
-- The operations of the throttler and the order of its windows.
use vantage_core.Prelude.{
  ℕ, suc, ◌≤◌, ◌≡◌, refl, [], Option, none, some, Str, ◌==◌, ==_iff, ltb, nat_eq, length, arith,
  Bool-cases, Option-cases, inl, inr,
}
use vantage_core.Prelude.Assoc
use vantage_core.Prelude.Assoc.{Map}
use vantage_core.Sdk.LinkedList
use vantage_core.Sdk.LinkedList.{LinkedList, find}
use vantage_core.Sdk.LinkedList.Pointers.{
  find_last, length-without, get_last?-ne-none, length-to_front,
}
use vantage_core.Telemetry.Throttle.{
  Throttler, Window, Emission, windows_of, lru_of, set_agent, ensure_agent, count_in, open_window,
  new_window, make_room, evict_oldest, emit_evicted, emit_summary, try_emit, record_violation,
  close_window, without_window, roll, first_event, summary,
}
use vantage_core.Telemetry.Throttle.Windows.{
  Agrees-empty, Agrees-opened, Agrees-counted, Agrees-removed, IsValid, Crowded, set_agent-IsValid,
  set_agent-Crowded, relaxed,
}
use vantage_core.Telemetry.Violation.{Violation, signature}

ensure_agent-IsValid : (a : Str) (t : Throttler) → IsValid t → IsValid (ensure_agent a t)
unfolding ensure_agent
ensure_agent-IsValid a t h = elim (Option-cases (Assoc.get t.by_agent a)) [
  | inl new ↦
      rw (new, ensure_agent)
        (set_agent-IsValid a [] LinkedList.empty t Agrees-empty (omega arith) (relaxed a t h))
  | inr (ws, old) ↦ rw (old, ensure_agent) h
]

count_in-IsValid :
    (now : ℕ) (a sig : Str) (w : Window) (t : Throttler)
    → Assoc.get (windows_of t a) sig ≡ some w
    → IsValid t
    → IsValid (count_in now a sig w t)
unfolding count_in
count_in-IsValid now a sig w t old h =
    let g = h.agrees a in
    set_agent-IsValid a _ _ t
      (Agrees-counted sig w (record w { count = suc w.count; last_seen = now }) (windows_of t a)
        (lru_of t a) refl old g)
      (omega (arith, length-to_front (lru_of t a).nodes w.lru_elem g.distinct, h.bounded a))
      (relaxed a t h)

open_window-Crowded :
    (now : ℕ) (sig : Str) (v : Violation) (t : Throttler)
    → Assoc.get (windows_of t v.agent_id) sig ≡ none
    → IsValid t
    → Crowded v.agent_id (open_window now sig v t)
unfolding open_window
open_window-Crowded now sig v t new h =
    let a = v.agent_id in
    let w = new_window now v t.timers.next (lru_of t a).next in
    let c =
      set_agent-Crowded a (Assoc.put (windows_of t a) sig w)
        (LinkedList.push_front sig (lru_of t a)).0 t
        (Agrees-opened sig w (windows_of t a) (lru_of t a) refl new (h.agrees a))
        (omega (arith, h.bounded a)) h in
    record {
      positive = c.positive;
      paired = c.paired;
      agrees = c.agrees;
      bounded = c.bounded;
      others = c.others;
    }

evicted-IsValid :
    (a sig : Str) (e : ℕ) (t : Throttler)
    → LinkedList.back (lru_of t a) ≡ some (e, sig)
    → Crowded a t
    → IsValid (set_agent a (Assoc.del (windows_of t a) sig) (LinkedList.remove e (lru_of t a)) t)
evicted-IsValid a sig e t last h =
    let g = h.agrees a in
    let here = find_last (lru_of t a).nodes e sig g.distinct last in
    set_agent-IsValid a _ _ t (Agrees-removed sig e (windows_of t a) (lru_of t a) here g)
      (ground (arith, length-without (lru_of t a).nodes e g.distinct, h.bounded a)) h

calm :
    (a : Str) (t : Throttler)
    → LinkedList.size (lru_of t a) ≤ t.per_agent_cap
    → Crowded a t
    → IsValid t
calm a t b h = record {
  positive = h.positive;
  paired = h.paired;
  agrees = h.agrees;
  bounded = λ c. ground (arith, ==_iff a c, h.others c);
}

make_room-IsValid : (a : Str) (t : Throttler) → Crowded a t → IsValid (make_room a t).0
unfolding make_room evict_oldest
make_room-IsValid a t h = elim (Bool-cases (ltb t.per_agent_cap (LinkedList.size (lru_of t a)))) [
  | inr small ↦ rw (small, make_room) (calm a t (ground arith) h)
  | inl large ↦ elim (Option-cases (LinkedList.back (lru_of t a))) [
    | inl g ↦ absurd (ground (arith, get_last?-ne-none (lru_of t a).nodes g))
    | inr ((e, sig), last) ↦
        let g = h.agrees a in
        let (w, here, _) = g.mapped e sig (find_last (lru_of t a).nodes e sig g.distinct last) in
        let v = evicted-IsValid a sig e t last h in
        rw (large, make_room, last, evict_oldest, here)
          (record {
            positive = v.positive;
            paired = v.paired;
            agrees = v.agrees;
            bounded = v.bounded;
          })
  ]
]

record SameWindows (t t' : Throttler) : Type 0 where
  cap : t'.per_agent_cap ≡ t.per_agent_cap
  by_agent : t'.by_agent ≡ t.by_agent
  lru_lists : t'.lru_lists ≡ t.lru_lists

same-IsValid : (t t' : Throttler) → SameWindows t t' → IsValid t → IsValid t'
same-IsValid t t' s h = record {
  positive = rw s.cap h.positive;
  paired = rw (s.by_agent, s.lru_lists) h.paired;
  agrees = rw (s.by_agent, s.lru_lists) h.agrees;
  bounded = rw (s.cap, s.lru_lists) h.bounded;
}

try_emit-same : (now : ℕ) (e : Emission) (t : Throttler) → SameWindows t (try_emit now e t)
unfolding try_emit roll
try_emit-same now e t = record {
  cap = ground arith;
  by_agent = ground arith;
  lru_lists = ground arith;
}

emit_summary-same : (now : ℕ) (w : Window) (t : Throttler) → SameWindows t (emit_summary now w t)
unfolding emit_summary
emit_summary-same now w t = elim (Bool-cases (ltb 1 w.count)) [
  | inl e ↦ rw (e, emit_summary) (try_emit-same now (summary w) t)
  | inr e ↦ rw (e, emit_summary) (record { cap = refl; by_agent = refl; lru_lists = refl })
]

emit_evicted-IsValid :
    (now : ℕ) (t : Throttler) (o : Option Window) → IsValid t → IsValid (emit_evicted now (t, o))
emit_evicted-IsValid now t none h = h
emit_evicted-IsValid now t (some w) h =
    same-IsValid _ _ (emit_summary-same now w (record t { evictions = suc t.evictions }))
      (record { positive = h.positive; paired = h.paired; agrees = h.agrees; bounded = h.bounded })

-- Recording a violation keeps the throttler valid: each agent's windows agree with its list of
-- signatures, and no agent has more open windows than the cap.
pub record_violation-IsValid :
    (sha256 : Str → Str) (now first later : ℕ) (v : Violation) (t : Throttler)
    → IsValid t
    → IsValid (record_violation sha256 now first later v t)
unfolding record_violation
record_violation-IsValid sha256 now first later v t h =
    let sig = signature sha256 v in
    let known = ensure_agent v.agent_id t in
    let k = ensure_agent-IsValid v.agent_id t h in
    elim (Option-cases (Assoc.get (windows_of known v.agent_id) sig)) [
      | inr (w, old) ↦
          rw (old, record_violation) (count_in-IsValid now v.agent_id sig w known old k)
      | inl new ↦
          let r = make_room v.agent_id (open_window now sig v known) in
          let m =
            make_room-IsValid v.agent_id (open_window now sig v known)
              (open_window-Crowded now sig v known new k) in
          rw (new, record_violation)
            (emit_evicted-IsValid later (try_emit first (first_event now v) r.0) r.1
              (same-IsValid r.0 _ (try_emit-same first (first_event now v) r.0) m))
    ]

abbrev dropped_agent : Str → Throttler → Throttler
dropped_agent a t = record t {
  by_agent = Assoc.del t.by_agent a;
  lru_lists = Assoc.del t.lru_lists a;
}

dropped_agent-IsValid : (a : Str) (t : Throttler) → IsValid t → IsValid (dropped_agent a t)
dropped_agent-IsValid a t h = record {
  positive = h.positive;
  paired =
      λ c. ground (arith, Assoc.get-del t.by_agent a c, Assoc.get-del t.lru_lists a c, h.paired c);
  agrees = λ c. elim (Bool-cases (a == c)) [
    | inl e ↦ rw (Assoc.get-del t.by_agent a c, Assoc.get-del t.lru_lists a c, e) Agrees-empty
    | inr e ↦ rw (Assoc.get-del t.by_agent a c, Assoc.get-del t.lru_lists a c, e) (h.agrees c)
  ];
  bounded = λ c. elim (Bool-cases (a == c)) [
    | inl e ↦ rw (Assoc.get-del t.lru_lists a c, e) (omega arith)
    | inr e ↦ rw (Assoc.get-del t.lru_lists a c, e) (h.bounded c)
  ];
}

without_window-IsValid :
    (a sig : Str) (w : Window) (t : Throttler)
    → Assoc.get (windows_of t a) sig ≡ some w
    → IsValid t
    → IsValid (without_window a sig w t)
without_window-IsValid a sig w t old h =
    elim (Bool-cases (nat_eq (length (Assoc.del (windows_of t a) sig)) 0)) [
      | inl e ↦ rw (e, without_window) (dropped_agent-IsValid a t h)
      | inr e ↦
          rw (e, without_window)
            (set_agent-IsValid a _ _ t
              (Agrees-removed sig w.lru_elem (windows_of t a) (lru_of t a)
                ((h.agrees a).pointed sig w old) (h.agrees a))
              (ground (
                arith,
                length-without (lru_of t a).nodes w.lru_elem (h.agrees a).distinct,
                (h.agrees a).pointed sig w old,
                h.bounded a,
              ))
              (relaxed a t h))
    ]

-- The end of a window, whether it is still open or not, keeps the throttler valid.
pub close_window-IsValid :
    (now : ℕ) (a sig : Str) (t : Throttler) → IsValid t → IsValid (close_window now a sig t)
unfolding close_window
close_window-IsValid now a sig t h = elim (Option-cases (Assoc.get (windows_of t a) sig)) [
  | inl g ↦ rw (close_window, g) h
  | inr (w, g) ↦
      rw (close_window, g)
        (same-IsValid _ _ (emit_summary-same now w (without_window a sig w t))
          (without_window-IsValid a sig w t g h))
]
