-- ===== src/Telemetry/EventTests.antt =====
-- A violation that is stored and read.
use vantage_core.Prelude.{
  ℕ, ◌/◌, ◌*◌, List, Str, Option, refl, ◌≡◌, [], ◌∷◌, some, lit, ◌==◌, ap, arith, if◌then◌else◌,
}
use vantage_core.Prelude.Joined.{join, split, split-join}
use vantage_core.Telemetry.AgentEvents.{event_record, violation_summary}
use vantage_core.Telemetry.AgentEvents.RoundTrip.{shown, violation_summary-event_record}
use vantage_core.Telemetry.Mapping.Int.{pos}
use vantage_core.Telemetry.Violation.{Violation, constraint, kind_string}

abbrev violation : Violation
violation = record {
  agent_id = lit "a";
  group_id = lit "g";
  schema_hash = lit "7b7d";
  kind = constraint;
  paths = lit "/battery" ∷ lit "/" ∷ [];
  detail = lit "too low";
  sample = lit "7";
}

-- A database that keeps JSON texts as they are, and times to the millisecond.
abbrev milliseconds : ℕ → ℕ
milliseconds t = t / 1000000 * 1000000

abbrev read_joined : Str → Option (List Str)
read_joined s = some (split s)

violation_summary-event_record_example :
    violation_summary join read_joined
      (λ s. s)
      some
      milliseconds
      (event_record join read_joined (λ s. s) some milliseconds violation 3 10 20)
    ≡ record {
      kind = kind_string constraint;
      detail = lit "too low";
      count = pos 3;
      last_seen = milliseconds 20;
      paths = lit "/battery" ∷ lit "/" ∷ [];
      sample_json = if lit "7" == [] then [] else shown (some (lit "7"));
    }
violation_summary-event_record_example =
    violation_summary-event_record join read_joined (λ s. s) some milliseconds violation 3 10 20
      (λ ps. (join ps, refl, ap some (split-join ps))) (omega arith)
