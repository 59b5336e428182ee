-- ===== src/Telemetry/Mapping/Window.antt =====
-- Which mapped times count as sane.
use vantage_core.Prelude.{◌+◌, ◌≤◌, ◌≡◌, ◌⊎◌, ◌↔◌, true, arith}
use vantage_core.Telemetry.Mapping.Int.{ℤ, pos, negsuc, ◌-ℤ◌, pos_part, neg_part}
use vantage_core.Telemetry.Mapping.{
  at_most, saturate, magnitude, within_sane_window, sane_window, int64_bound,
}

-- A time counts as sane when it is at most 24 hours from the receive time, or when it lies 2 ^ 63
-- nanoseconds (292 years) or more before the receive time, and in no other case.
pub within_sane_window_iff :
    (t received_at : ℤ)
    → let d = t -ℤ received_at in
      (within_sane_window t received_at ≡ true)
      ↔ ((pos_part d + neg_part d ≤ 86400000000000) ⊎ (9223372036854775808 ≤ neg_part d))
unfolding within_sane_window saturate magnitude
within_sane_window_iff t received_at = by (t -ℤ received_at)
  where
    by :
        (d : ℤ)
        → (at_most (magnitude (saturate d)) sane_window ≡ true)
          ↔ ((pos_part d + neg_part d ≤ sane_window) ⊎ (int64_bound ≤ neg_part d))
    by (pos n) = ground arith
    by (negsuc n) = ground arith
