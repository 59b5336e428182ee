-- ===== src/Telemetry/Throttle/Rate.antt =====
-- The ceiling on the events of a second.
use vantage_core.Prelude.{ℕ, suc, ◌+◌, ◌/◌, ◌≤◌, ◌<◌, ◌≡◌, List, [], ◌∷◌, length, arith, All}
use vantage_core.Telemetry.Throttle.{Throttler, Emission, try_emit, roll, second}

-- The events of a list of calls of `tryEmit`, each with the time at which it reads the clock.
unfoldable pub emit_all : List (ℕ × Emission) → Throttler → Throttler
emit_all [] t = t
emit_all ((now, e) ∷ es) t = emit_all es (try_emit now e t)

abbrev Within : ℕ → List (ℕ × Emission) → Type 0
Within s = All (λ x. x.0 / second ≡ s)

-- What a call of `tryEmit` does to the counters.
try_emit-counts :
    (now : ℕ) (e : Emission) (t : Throttler)
    → 0 < t.global_per_second
    → t.rate_count ≤ t.global_per_second
    → let t' = try_emit now e t in
      (t'.global_per_second ≡ t.global_per_second)
      × (t'.rate_second ≡ now / second)
      × (t'.rate_count ≤ t'.global_per_second)
      × (length t'.emitted + t'.dropped ≡ suc (length t.emitted + t.dropped))
      × (length t'.emitted ≤ suc (length t.emitted))
      × (length t.emitted ≤ length t'.emitted)
      × (now / second ≡ t.rate_second
          → t.rate_count + length t'.emitted ≡ t'.rate_count + length t.emitted)
      × (length t'.emitted ≤ t'.rate_count + length t.emitted)
unfolding try_emit roll
try_emit-counts now e t p b = ground arith

emit_all-same :
    (s : ℕ) (es : List (ℕ × Emission)) (t : Throttler)
    → 0 < t.global_per_second
    → t.rate_second ≡ s
    → t.rate_count ≤ t.global_per_second
    → Within s es
    → let t' = emit_all es t in
      (t.rate_count + length t'.emitted ≤ t.global_per_second + length t.emitted)
      × (length t'.emitted + t'.dropped ≡ length t.emitted + t.dropped + length es)
unfolding emit_all
emit_all-same s [] t p e b w = (omega arith, omega arith)
emit_all-same s ((now, x) ∷ es) t p e b (h, hs) =
    let (g, r, c, d, _, _, k, _) = try_emit-counts now x t p b in
    let (m, n) = emit_all-same s es (try_emit now x t) (ground arith) (ground arith) c hs in
    (omega (arith, k (ground arith), m, g), omega (arith, n, d))

-- Under a ceiling, the calls of `tryEmit` within one second of the clock emit no more events than the
-- ceiling, whatever the counter was before; each call either emits its event or counts it as dropped.
pub emit_all-ceiling :
    (s : ℕ) (es : List (ℕ × Emission)) (t : Throttler)
    → 0 < t.global_per_second
    → t.rate_count ≤ t.global_per_second
    → Within s es
    → let t' = emit_all es t in
      (length t'.emitted ≤ t.global_per_second + length t.emitted)
      × (length t'.emitted + t'.dropped ≡ length t.emitted + t.dropped + length es)
unfolding emit_all
emit_all-ceiling s [] t p b w = (omega arith, omega arith)
emit_all-ceiling s ((now, x) ∷ es) t p b (h, hs) =
    let (g, r, c, d, _, _, _, k) = try_emit-counts now x t p b in
    let (m, n) = emit_all-same s es (try_emit now x t) (ground arith) (ground arith) c hs in
    (omega (arith, k, m, g), omega (arith, n, d))
