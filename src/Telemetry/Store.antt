-- ===== src/Telemetry/Store.antt =====
-- cmd/core/telemetry/store/store.go: rows wait in a queue and are written to the database in batches.
-- The state has the batch of `Run`, and the values of the batches whose INSERT returned no error. What an
-- INSERT that returned an error did to the table, and what the retention policy deletes, is not here.
pub mod Accounting
pub mod Bounds
use vantage_core.Prelude.{
  ℕ, suc, zero, ◌+◌, ◌*◌, Bool, true, false, ◌&&◌, List, [], ◌∷◌, ◌++◌, map, Option, none, some,
  Str, ltb, leb, nat_eq, length, if◌then◌else◌,
}
use vantage_core.Telemetry.Mapping.Int.{ℤ}

pub record Row : Type 0 where
  pub time : ℤ
  pub received_at : ℤ
  pub agent_id : Str
  pub group_id : Str
  pub schema_hash : Str
  pub valid : Option Bool
  pub fields : Str
  pub payload : Str

-- The values of a row in an INSERT.
pub record Values : Type 0 where
  pub time : ℤ
  pub received_at : ℤ
  pub agent_id : Str
  pub group_id : Option Str
  pub schema_hash : Option Str
  pub valid : Option Bool
  pub fields : Option Str
  pub payload : Str

pub record Config : Type 0 where
  pub batch_size : ℕ
  pub queue_size : ℕ
  pub max_retries : ℕ
  pub retry_backoff : ℕ

abbrev default : ℕ → ℕ → ℕ
default n d = if leb n 0 then d else n

-- Durations are milliseconds.
unfoldable pub with_defaults : Config → Config
with_defaults c = record {
  batch_size = default c.batch_size 100;
  queue_size = default c.queue_size 10000;
  max_retries = default c.max_retries 3;
  retry_backoff = default c.retry_backoff 200;
}

pub record Store : Type 0 where
  pub cfg : Config
  pub queue : List Row
  pub written : ℕ
  pub dropped : ℕ
  pub failed : ℕ
  pub batch : List Row
  pub inserted : List Values

unfoldable pub new_store : Config → Store
new_store c = record {
  cfg = with_defaults c;
  queue = [];
  written = 0;
  dropped = 0;
  failed = 0;
  batch = [];
  inserted = [];
}

unfoldable pub enqueue : Row → Store → Store
enqueue row s =
    if ltb (length s.queue) s.cfg.queue_size
    then record s { queue = s.queue ++ row ∷ [] }
    else record s { dropped = suc s.dropped }

-- `nullableString`, and `nullableJSON`
abbrev pub nullable : Str → Option Str
nullable s = if nat_eq (length s) 0 then none else some s

unfoldable pub values_of : Row → Values
values_of r = record {
  time = r.time;
  received_at = r.received_at;
  agent_id = r.agent_id;
  group_id = nullable r.group_id;
  schema_hash = nullable r.schema_hash;
  valid = r.valid;
  fields = nullable r.fields;
  payload = r.payload;
}

-- What happens to the attempts of a write: whether the context ends the wait before an attempt, and
-- whether its INSERT returns no error.
pub record Fate : Type 0 where
  pub stopped : ℕ → Bool
  pub acknowledged : ℕ → Bool

-- The state after a write, and the waits between its attempts.
pub record Outcome : Type 0 where
  pub store : Store
  pub waits : List ℕ

abbrev pub insert_batch : List Row → Store → Store
insert_batch rows s = record s { inserted = s.inserted ++ map values_of rows }

abbrev pub waiting : ℕ → ℕ → List ℕ → List ℕ
waiting attempt backoff ws = if nat_eq attempt 0 then ws else backoff ∷ ws

abbrev pub next_backoff : ℕ → ℕ → ℕ
next_backoff attempt backoff = if nat_eq attempt 0 then backoff else 2 * backoff

-- The loop of `writeBatch`, with the number of attempts that are left.
unfoldable pub write_from : Fate → List Row → ℕ → ℕ → ℕ → Store → Outcome
write_from fate rows zero attempt backoff s = record {
  store = record s { failed = s.failed + length rows };
  waits = [];
}
write_from fate rows (suc left) attempt backoff s =
    let rest = write_from fate rows left (suc attempt) (next_backoff attempt backoff) s in
    if ltb 0 attempt && fate.stopped attempt then record { store = s; waits = [] } else record {
      store =
          if fate.acknowledged attempt
          then record (insert_batch rows s) { written = s.written + length rows }
          else rest.store;
      waits = waiting attempt backoff (if fate.acknowledged attempt then [] else rest.waits);
    }

unfoldable pub write_batch : Fate → List Row → Store → Outcome
write_batch fate rows s = write_from fate rows (suc s.cfg.max_retries) 0 s.cfg.retry_backoff s

unfoldable pub flush : Fate → Store → Store
flush fate s =
    if nat_eq (length s.batch) 0
    then s
    else record (write_batch fate s.batch s).store { batch = [] }

-- A round of the loop of `Run`, or a call of `Enqueue` between two rounds. The last round, at the end of
-- the context, writes with a context of its own.
pub data Event : Type 0 where
  enqueued : Row → Event
  received : Fate → Event
  ticked : Fate → Event
  stopped : Fate → Event

abbrev pub receive_from : Fate → List Row → Store → Store
receive_from fate [] s = s
receive_from fate (row ∷ rows) s =
    let s' : Store = record s { queue = rows; batch = s.batch ++ row ∷ [] } in
    if leb s'.cfg.batch_size (length s'.batch) then flush fate s' else s'

unfoldable pub receive : Fate → Store → Store
receive fate s = receive_from fate s.queue s

abbrev pub step : Event → Store → Store
step (enqueued row) = enqueue row
step (received fate) = receive fate
step (ticked fate) = flush fate
step (stopped fate) = flush fate

unfoldable pub run : List Event → Store → Store
run [] s = s
run (v ∷ vs) s = run vs (step v s)
