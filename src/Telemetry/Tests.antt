-- ===== src/Telemetry/Tests.antt =====
-- Violations, rows, pages, live payloads and mappings on small inputs.
use vantage_core.Prelude.{
  ℕ, suc, ◌+◌, ◌≤◌, ◌≡◌, ◌/◌, ◌↔◌, ◌⊎◌, refl, true, false, List, [], ◌∷◌, Option, none, some, Str,
  lit, ==_refl, length, if◌then◌else◌, arith, ltb,
}
use vantage_core.Prelude.Assoc
use vantage_core.Sdk.LinkedList
use vantage_core.Sdk.LinkedList.{LinkedList}
use vantage_core.Telemetry.Violation.{Violation, constraint, signature}
use vantage_core.Telemetry.Throttle.{
  Throttler, Window, record_violation, close_window, summary, windows_of,
}
use vantage_core.Telemetry.Throttle.Windows
use vantage_core.Telemetry.Throttle.Windows.{Agrees-empty}
use vantage_core.Telemetry.Throttle.Keeps.{record_violation-IsValid}
use vantage_core.Telemetry.Throttle.Burst.{Call, record_all, grown, close_window-record_all}
use vantage_core.Telemetry.Store.{Row, Store, Fate, Event, enqueued, received, ticked, run}
use vantage_core.Telemetry.Store.Accounting.{total, run-total}
use vantage_core.Telemetry.Store.Bounds
use vantage_core.Telemetry.Store.Bounds.{run-IsValid}
use vantage_core.Telemetry.Query.{Point, between}
use vantage_core.Telemetry.Query.Ascending.{StrictlyAscending}
use vantage_core.Telemetry.Query.Buckets.{Monotone, newest, superseded}
use vantage_core.Telemetry.Query.Pages.{pages, pages-newest}
use vantage_core.Telemetry.Json.{Json, object, field, no_fields, number}
use vantage_core.Telemetry.Mapping.{within_sane_window, sane_window, int64_bound}
use vantage_core.Telemetry.Mapping.Int.{pos, pos_part, neg_part, ◌-ℤ◌}
use vantage_core.Telemetry.Mapping.Window.{within_sane_window_iff}

abbrev hash : Str → Str
hash s = s

abbrev violation : Violation
violation = record {
  agent_id = lit "a";
  group_id = lit "g";
  schema_hash = [];
  kind = constraint;
  paths = [];
  detail = [];
  sample = [];
}

abbrev quiet : Throttler
quiet = record {
  per_agent_cap = 2;
  global_per_second = 0;
  by_agent = [];
  lru_lists = [];
  timers = LinkedList.empty;
  evictions = 0;
  dropped = 0;
  rate_second = 0;
  rate_count = 0;
  emitted = [];
}

quiet-IsValid : Windows.IsValid quiet
unfolding Assoc.get
quiet-IsValid = record {
  positive = omega arith;
  paired = λ a. refl;
  agrees = λ a. Agrees-empty;
  bounded = λ a. omega arith;
}

record_violation-IsValid_example : Windows.IsValid (record_violation hash 5 6 7 violation quiet)
record_violation-IsValid_example = record_violation-IsValid hash 5 6 7 violation quiet quiet-IsValid

abbrev sig : Str
sig = signature hash violation

abbrev window : Window
window = record {
  violation = violation;
  count = 1;
  first_seen = 5;
  last_seen = 5;
  timer = 0;
  lru_elem = 0;
}

abbrev opened : Throttler
opened = record quiet {
  by_agent = (lit "a", (sig, window) ∷ []) ∷ [];
  lru_lists = (lit "a", record { next = 1; nodes = (0, sig) ∷ [] }) ∷ [];
}

abbrev calls : List Call
calls = record { now = 8; first = 8; later = 8; violation = violation } ∷ []

window_open : Assoc.get (windows_of opened (lit "a")) sig ≡ some window
unfolding Assoc.get
window_open = ground (arith, ==_refl sig, ==_refl (lit "a"))

close_window-record_all_example :
    (close_window 90 (lit "a") sig (record_all hash calls opened)).emitted
    ≡ (if ltb 1 (1 + 1) then summary (grown window calls) ∷ [] else [])
close_window-record_all_example =
    close_window-record_all hash (lit "a") sig calls window opened 90 refl ((refl, refl), tt)
      window_open

abbrev row : Row
row = record {
  time = pos 1;
  received_at = pos 1;
  agent_id = lit "a";
  group_id = [];
  schema_hash = [];
  valid = none;
  fields = [];
  payload = lit "{}";
}

abbrev fails_once : Fate
fails_once = record { stopped = λ n. false; acknowledged = λ n. ltb 0 n }

abbrev store : Store
store = record {
  cfg = record { batch_size = 2; queue_size = 3; max_retries = 3; retry_backoff = 200 };
  queue = [];
  written = 0;
  dropped = 0;
  failed = 0;
  batch = [];
  inserted = [];
}

abbrev work : List Event
work =
    enqueued row ∷ enqueued row ∷ received fails_once ∷ received fails_once ∷ ticked fails_once ∷ []

run-total_example : total (run work store) ≡ 0 + 2
run-total_example = run-total work store (
  (λ f e n. absurd (ground arith)),
  (
    (λ f e n. absurd (ground arith)),
    ((λ f e n. ground arith), ((λ f e n. ground arith), ((λ f e n. ground arith), tt))),
  ),
)

run-IsValid_example : Bounds.IsValid (run work store)
run-IsValid_example =
    run-IsValid work store (record { counted = refl; queued = omega arith; batched = omega arith })

abbrev at_time : ℕ → Point
at_time t = record {
  agent_id = lit "a";
  time = t;
  received_at = t;
  group_id = [];
  schema_hash = [];
  valid = none;
  fields = none;
  payload = [];
}

-- A token as the time itself, behind a byte.
abbrev encode : ℕ → Str
encode t = 1 ∷ t ∷ []

abbrev decode : Str → Option ℕ
decode (_ ∷ t ∷ []) = some t
decode _ = none

abbrev bucket_of_four : Option (ℕ → ℕ)
bucket_of_four = some (λ t. t / 4)

bucket_of_four-Monotone : Monotone bucket_of_four
bucket_of_four-Monotone t u h = omega arith

abbrev three_rows : List Point
three_rows = at_time 2 ∷ at_time 3 ∷ at_time 5 ∷ []

pages-newest_example :
    let l = newest bucket_of_four (between 1 9 three_rows) in
    pages encode decode bucket_of_four (suc (length l)) three_rows (lit "a") 1 9 1 [] ≡ some l
pages-newest_example =
    pages-newest encode decode (record { decoded = λ t. refl; non_empty = λ t. omega arith })
      bucket_of_four three_rows (lit "a") 1 9 1 bucket_of_four-Monotone ascending (omega arith)
  where
    ascending : StrictlyAscending three_rows
    ascending = ((omega arith, (omega arith, tt)), ((omega arith, tt), (tt, tt)))

-- The newest rows of the two buckets.
newest_of_three : newest bucket_of_four (between 1 9 three_rows) ≡ at_time 3 ∷ at_time 5 ∷ []
unfolding superseded
newest_of_three = refl

within_sane_window_iff_example : (within_sane_window (pos 1000) (pos 1500) ≡ true) ↔ (
    (pos_part (pos 1000 -ℤ pos 1500) + neg_part (pos 1000 -ℤ pos 1500) ≤ sane_window)
    ⊎ (int64_bound ≤ neg_part (pos 1000 -ℤ pos 1500)))
within_sane_window_iff_example = within_sane_window_iff (pos 1000) (pos 1500)

abbrev payload : Json
payload =
    object (field (lit "header") (object (field (lit "stamp") (number 7) no_fields)) no_fields)
