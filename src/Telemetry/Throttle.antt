-- ===== src/Telemetry/Throttle.antt =====
-- cmd/core/telemetry/events/throttle.go: the violations of an agent that are equal are collapsed into
-- two events. Times are nanoseconds; `emitted` is the calls of the sink, the newest first. A timer is
-- an element of `timers`, which `AfterFunc` adds and `Stop` removes: its callback is `close_window`.
pub mod Rate
pub mod Windows
pub mod Keeps
pub mod Burst
use vantage_core.Prelude.{
  ℕ, suc, zero, ◌+◌, ◌/◌, Bool, true, false, List, [], ◌∷◌, Option, none, some, Str, ltb, leb,
  nat_eq, if◌then◌else◌, get_or, ◌&&◌, length,
}
use vantage_core.Prelude.Assoc
use vantage_core.Prelude.Assoc.{Map}
use vantage_core.Sdk.LinkedList
use vantage_core.Sdk.LinkedList.{LinkedList}
use vantage_core.Telemetry.Violation.{Violation, signature}

pub record Window : Type 0 where
  pub violation : Violation
  pub count : ℕ
  pub first_seen : ℕ
  pub last_seen : ℕ
  pub timer : ℕ
  pub lru_elem : ℕ

pub record Emission : Type 0 where
  pub violation : Violation
  pub count : ℕ
  pub first_seen : ℕ
  pub last_seen : ℕ

pub record Throttler : Type 0 where
  pub per_agent_cap : ℕ
  pub global_per_second : ℕ
  pub by_agent : Map (Map Window)
  pub lru_lists : Map (LinkedList Str)
  pub timers : LinkedList (Str × Str)
  pub evictions : ℕ
  pub dropped : ℕ
  pub rate_second : ℕ
  pub rate_count : ℕ
  pub emitted : List Emission

-- `New`, but for the length of a window, which only the timers use.
unfoldable pub new_throttler : ℕ → ℕ → Throttler
new_throttler cap ceiling = record {
  per_agent_cap = if leb cap 0 then 50 else cap;
  global_per_second = ceiling;
  by_agent = [];
  lru_lists = [];
  timers = LinkedList.empty;
  evictions = 0;
  dropped = 0;
  rate_second = 0;
  rate_count = 0;
  emitted = [];
}

abbrev pub second : ℕ
second = 1000000000

-- The counter of a second starts again at its first event.
unfoldable pub roll : ℕ → Throttler → Throttler
roll now t =
    if nat_eq (now / second) t.rate_second
    then t
    else record t { rate_second = now / second; rate_count = 0 }

abbrev pub emit : Emission → Throttler → Throttler
emit e t = record t { emitted = e ∷ t.emitted }

abbrev pub limited : Emission → Throttler → Throttler
limited e t =
    if leb t.global_per_second t.rate_count
    then record t { dropped = suc t.dropped }
    else emit e (record t { rate_count = suc t.rate_count })

unfoldable pub try_emit : ℕ → Emission → Throttler → Throttler
try_emit now e t = if ltb 0 t.global_per_second then limited e (roll now t) else emit e t

abbrev pub summary : Window → Emission
summary w = record {
  violation = w.violation;
  count = w.count;
  first_seen = w.first_seen;
  last_seen = w.last_seen;
}

-- The event of a window that ends, unless only its first violation arrived.
unfoldable pub emit_summary : ℕ → Window → Throttler → Throttler
emit_summary now w t = if ltb 1 w.count then try_emit now (summary w) t else t

abbrev pub windows_of : Throttler → Str → Map Window
windows_of t agent = get_or (Assoc.get t.by_agent agent) []

abbrev pub lru_of : Throttler → Str → LinkedList Str
lru_of t agent = get_or (Assoc.get t.lru_lists agent) LinkedList.empty

abbrev pub set_agent : Str → Map Window → LinkedList Str → Throttler → Throttler
set_agent agent ws lru t = record t {
  by_agent = Assoc.put t.by_agent agent ws;
  lru_lists = Assoc.put t.lru_lists agent lru;
}

unfoldable pub evict_oldest : Str → Throttler → Throttler × Option Window
evict_oldest agent t = elim (LinkedList.back (lru_of t agent)) [
  | none ↦ (t, none)
  | some (e, sig) ↦ elim (Assoc.get (windows_of t agent) sig) [
    | none ↦ (t, none)
    | some w ↦ (
      record (set_agent agent (Assoc.del (windows_of t agent) sig)
          (LinkedList.remove e (lru_of t agent)) t) { timers = LinkedList.remove w.timer t.timers },
      some w,
    )
  ]
]

-- The entries of an agent that has none are made.
unfoldable pub ensure_agent : Str → Throttler → Throttler
ensure_agent agent t = elim (Assoc.get t.by_agent agent) [
  | none ↦ set_agent agent [] LinkedList.empty t
  | some _ ↦ t
]

-- One more violation in a window that is open.
unfoldable pub count_in : ℕ → Str → Str → Window → Throttler → Throttler
count_in now agent sig w t =
    set_agent agent
      (Assoc.put (windows_of t agent) sig (record w { count = suc w.count; last_seen = now }))
      (LinkedList.move_to_front w.lru_elem (lru_of t agent)) t

abbrev pub new_window : ℕ → Violation → ℕ → ℕ → Window
new_window now v timer elem = record {
  violation = v;
  count = 1;
  first_seen = now;
  last_seen = now;
  timer = timer;
  lru_elem = elem;
}

unfoldable pub open_window : ℕ → Str → Violation → Throttler → Throttler
open_window now sig v t =
    let (lru, elem) = LinkedList.push_front sig (lru_of t v.agent_id) in
    let (timers, timer) = LinkedList.push_front (v.agent_id, sig) t.timers in
    record (set_agent v.agent_id
      (Assoc.put (windows_of t v.agent_id) sig (new_window now v timer elem)) lru t) {
        timers = timers;
      }

-- The window that is evicted for a new one, if there are too many.
unfoldable pub make_room : Str → Throttler → Throttler × Option Window
make_room agent t =
    let evicted = evict_oldest agent t in
    if ltb t.per_agent_cap (LinkedList.size (lru_of t agent)) then evicted else (t, none)

abbrev pub emit_evicted : ℕ → Throttler × Option Window → Throttler
emit_evicted now (t, none) = t
emit_evicted now (t, some w) = emit_summary now w (record t { evictions = suc t.evictions })

abbrev pub first_event : ℕ → Violation → Emission
first_event now v = record { violation = v; count = 1; first_seen = now; last_seen = now }

module _ (sha256 : Str → Str) where
  -- `Record` from its look at the window on, where the agent has its entries.
  abbrev pub record_known : ℕ → ℕ → ℕ → Violation → Throttler → Option Window → Throttler
  record_known now first later v t (some w) = count_in now v.agent_id (signature sha256 v) w t
  record_known now first later v t none =
      let (t', evicted) = make_room v.agent_id (open_window now (signature sha256 v) v t) in
      emit_evicted later (try_emit first (first_event now v) t', evicted)

  -- `Record`; `first` and `later` are the times at which its two calls of `tryEmit` read the clock.
  unfoldable pub record_violation : ℕ → ℕ → ℕ → Violation → Throttler → Throttler
  record_violation now first later v t =
      let known = ensure_agent v.agent_id t in
      record_known now first later v known
        (Assoc.get (windows_of known v.agent_id) (signature sha256 v))

abbrev pub without_window : Str → Str → Window → Throttler → Throttler
without_window agent sig w t =
    let rest = Assoc.del (windows_of t agent) sig in
    if nat_eq (length rest) 0
    then record t { by_agent = Assoc.del t.by_agent agent; lru_lists = Assoc.del t.lru_lists agent }
    else set_agent agent rest (LinkedList.remove w.lru_elem (lru_of t agent)) t

abbrev pub close_in : ℕ → Str → Str → Throttler → Option Window → Throttler
close_in now agent sig t none = t
close_in now agent sig t (some w) = emit_summary now w (without_window agent sig w t)

-- An agent that has no entry has no window.
unfoldable pub close_window : ℕ → Str → Str → Throttler → Throttler
close_window now agent sig t = close_in now agent sig t (Assoc.get (windows_of t agent) sig)

pub record Stats : Type 0 where
  pub evictions : ℕ
  pub rate_dropped : ℕ
  pub active_agents : ℕ
  pub active_windows : ℕ

abbrev pub count_windows : Map (Map Window) → ℕ
count_windows [] = 0
count_windows ((_, ws) ∷ m) = length ws + count_windows m

unfoldable pub stats : Throttler → Stats
stats t = record {
  evictions = t.evictions;
  rate_dropped = t.dropped;
  active_agents = length t.by_agent;
  active_windows = count_windows t.by_agent;
}
