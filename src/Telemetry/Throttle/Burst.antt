-- ===== src/Telemetry/Throttle/Burst.antt =====
-- A burst of equal violations in one window.
use vantage_core.Prelude.{
  ℕ, suc, ◌+◌, ◌≡◌, refl, List, [], ◌∷◌, some, Str, ==_refl, ltb, if◌then◌else◌, length, arith, All,
  Option-cases, inl, inr, subst, sym, ◌∙◌,
}
use vantage_core.Prelude.Assoc
use vantage_core.Telemetry.Throttle.{
  Throttler, Window, windows_of, ensure_agent, count_in, emit_summary, try_emit, record_violation,
  record_known, close_window, without_window, summary,
}
use vantage_core.Telemetry.Violation.{Violation, signature}

-- A call of `Record`, with what its readings of the clock return.
pub record Call : Type 0 where
  pub now : ℕ
  pub first : ℕ
  pub later : ℕ
  pub violation : Violation

module _ (sha256 : Str → Str) where
  unfoldable pub record_all : List Call → Throttler → Throttler
  record_all [] t = t
  record_all (c ∷ cs) t =
      record_all cs (record_violation sha256 c.now c.first c.later c.violation t)

  abbrev pub SameKey : Str → Str → List Call → Type 0
  SameKey a sig = All (λ c. (c.violation.agent_id ≡ a) × (signature sha256 c.violation ≡ sig))

-- The last time of a list of calls, or `s` if there is none.
abbrev pub last_time : ℕ → List Call → ℕ
last_time s [] = s
last_time s (c ∷ cs) = last_time c.now cs

abbrev pub grown : Window → List Call → Window
grown w cs = record w { count = w.count + length cs; last_seen = last_time w.last_seen cs }

ensure_agent_known :
    (a sig : Str) (w : Window) (t : Throttler)
    → Assoc.get (windows_of t a) sig ≡ some w
    → ensure_agent a t ≡ t
unfolding ensure_agent Assoc.get
ensure_agent_known a sig w t h = elim (Option-cases (Assoc.get t.by_agent a)) [
  | inl e ↦ absurd (ground arith)
  | inr (ws, e) ↦ rw (e, ensure_agent) refl
]

get-count_in :
    (now : ℕ) (a sig : Str) (w : Window) (t : Throttler)
    → Assoc.get (windows_of (count_in now a sig w t) a) sig
      ≡ some (record w { count = suc w.count; last_seen = now })
unfolding count_in
get-count_in now a sig w t =
    let u : Window = record w { count = suc w.count; last_seen = now } in
    ground (
      arith,
      Assoc.get-put t.by_agent a a (Assoc.put (windows_of t a) sig u),
      Assoc.get-put (windows_of t a) sig sig u,
      ==_refl a,
      ==_refl sig,
    )

emitted-count_in :
    (now : ℕ) (a sig : Str) (w : Window) (t : Throttler)
    → (count_in now a sig w t).emitted ≡ t.emitted
unfolding count_in
emitted-count_in now a sig w t = refl

ceiling-count_in :
    (now : ℕ) (a sig : Str) (w : Window) (t : Throttler)
    → (count_in now a sig w t).global_per_second ≡ t.global_per_second
unfolding count_in
ceiling-count_in now a sig w t = refl

emitted-emit_summary :
    (now : ℕ) (w : Window) (t : Throttler)
    → t.global_per_second ≡ 0
    → (emit_summary now w t).emitted ≡ (if ltb 1 w.count then summary w ∷ t.emitted else t.emitted)
unfolding emit_summary try_emit
emitted-emit_summary now w t z = ground arith

without_window-fields :
    (a sig : Str) (w : Window) (t : Throttler)
    → ((without_window a sig w t).emitted ≡ t.emitted)
      × ((without_window a sig w t).global_per_second ≡ t.global_per_second)
without_window-fields a sig w t = ground arith

module _ (sha256 : Str → Str) where
  record_violation_again :
      (c : Call) (w : Window) (t : Throttler)
      → Assoc.get (windows_of t c.violation.agent_id) (signature sha256 c.violation) ≡ some w
      → record_violation sha256 c.now c.first c.later c.violation t
        ≡ count_in c.now c.violation.agent_id (signature sha256 c.violation) w t
  unfolding record_violation
  record_violation_again c w t h =
      let v = c.violation in
      let sig = signature sha256 v in
      subst
        (λ x.
          record_known sha256 c.now c.first c.later v x (Assoc.get (windows_of x v.agent_id) sig)
          ≡ count_in c.now v.agent_id sig w t)
        (sym (ensure_agent_known v.agent_id sig w t h))
        (subst
          (λ x. record_known sha256 c.now c.first c.later v t x ≡ count_in c.now v.agent_id sig w t)
          (sym h) refl)

  -- The window afterwards, and what stays the same.
  record_all-window :
      (a sig : Str) (cs : List Call) (w : Window) (t : Throttler)
      → SameKey sha256 a sig cs
      → Assoc.get (windows_of t a) sig ≡ some w
      → let t' = record_all sha256 cs t in
        (Assoc.get (windows_of t' a) sig ≡ some (grown w cs))
        × (t'.emitted ≡ t.emitted)
        × (t'.global_per_second ≡ t.global_per_second)
  unfolding record_all
  record_all-window a sig [] w t k h = (ground arith, refl, refl)
  record_all-window a sig (c ∷ cs) w t ((e, f), ks) h =
      let w' : Window = record w { count = suc w.count; last_seen = c.now } in
      let again = record_violation_again c w t (rw (f, e) h) in
      let next : record_violation sha256 c.now c.first c.later c.violation t
          ≡ count_in c.now a sig w t =
        subst
          (λ x.
            record_violation sha256 c.now c.first c.later c.violation t ≡ count_in c.now x sig w t)
          e
          (subst
            (λ x.
              record_violation sha256 c.now c.first c.later c.violation t
              ≡ count_in c.now c.violation.agent_id x w t)
            f again) in
      let (p, q, r) =
        record_all-window a sig cs w' (count_in c.now a sig w t) ks
          (get-count_in c.now a sig w t) in
      rw (record_all, next)
        (
          ground (arith, p),
          ground (arith, q, emitted-count_in c.now a sig w t),
          ground (arith, r, ceiling-count_in c.now a sig w t),
        )

  -- Without a ceiling: a window is open, any number of equal violations arrive in it, and it ends. The
  -- end emits one event, which counts these violations with the ones before and carries the first
  -- violation and the times of the first and of the last, and nothing else was emitted since; or no
  -- event, if only the first violation ever arrived.
  pub close_window-record_all :
      (a sig : Str) (cs : List Call) (w : Window) (t : Throttler) (now : ℕ)
      → t.global_per_second ≡ 0
      → SameKey sha256 a sig cs
      → Assoc.get (windows_of t a) sig ≡ some w
      → (close_window now a sig (record_all sha256 cs t)).emitted ≡ (
          if ltb 1 (w.count + length cs)
          then record {
            violation = w.violation;
            count = w.count + length cs;
            first_seen = w.first_seen;
            last_seen = last_time w.last_seen cs;
          }
            ∷ t.emitted
          else t.emitted)
  unfolding close_window
  close_window-record_all a sig cs w t now z k h =
      let (p, q, r) = record_all-window a sig cs w t k h in
      let end = record_all sha256 cs t in
      let (x, y) = without_window-fields a sig (grown w cs) end in
      rw (close_window, p)
        (rw
          (
            emitted-emit_summary now (grown w cs) (without_window a sig (grown w cs) end)
                (y ∙ r ∙ z),
            x,
            q,
          )
          refl)
