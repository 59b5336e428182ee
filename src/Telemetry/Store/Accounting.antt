-- ===== src/Telemetry/Store/Accounting.antt =====
-- Where the rows of the store are, and how long a write takes.
use vantage_core.Prelude.{
  ℕ, suc, zero, ◌+◌, ◌*◌, ◌^◌, ◌≤◌, ◌<◌, ◌≡◌, refl, ap, true, false, List, [], ◌∷◌, ◌++◌, Option,
  none, some, leb, length, length-append, arith, Bool-cases, inl, inr, All,
}
use native.Mathlib.Numerals.{unary_clauses}
use vantage_core.Telemetry.Store.{
  Row, Store, Fate, enqueue, receive_from, next_backoff, write_from, write_batch, flush, Event,
  receive, step, run, enqueued, received, ticked, stopped,
}

-- The rows that a store has taken.
abbrev pub total : Store → ℕ
total s = s.written + s.dropped + s.failed + length s.queue + length s.batch

-- No wait between two attempts is ended by the context.
abbrev pub Patient : Fate → Type 0
Patient fate = (n : ℕ) → fate.stopped n ≡ false

-- What a write of `rows` leaves as it is.
pub record Kept (s s' : Store) : Type 0 where
  pub cfg : s'.cfg ≡ s.cfg
  pub queue : s'.queue ≡ s.queue
  pub batch : s'.batch ≡ s.batch
  pub dropped : s'.dropped ≡ s.dropped

pub write_from-Kept :
    (fate : Fate) (rows : List Row) (left attempt backoff : ℕ) (s : Store)
    → Kept s (write_from fate rows left attempt backoff s).store
unfolding write_from
write_from-Kept fate rows zero attempt backoff s = record {
  cfg = refl;
  queue = refl;
  batch = refl;
  dropped = refl;
}
write_from-Kept fate rows (suc left) attempt backoff s =
    let k = write_from-Kept fate rows left (suc attempt) (next_backoff attempt backoff) s in
    record {
      cfg = ground (arith, k.cfg);
      queue = ground (arith, k.queue);
      batch = ground (arith, k.batch);
      dropped = ground (arith, k.dropped);
    }

write_from-counts :
    (fate : Fate) (rows : List Row) (left attempt backoff : ℕ) (s : Store)
    → Patient fate
    → let s' = (write_from fate rows left attempt backoff s).store in
      s'.written + s'.failed ≡ s.written + s.failed + length rows
unfolding write_from
write_from-counts fate rows zero attempt backoff s p = omega arith
write_from-counts fate rows (suc left) attempt backoff s p = ground (
  arith,
  p attempt,
  write_from-counts fate rows left (suc attempt) (next_backoff attempt backoff) s p,
)

flush-total : (fate : Fate) (s : Store) → Patient fate → total (flush fate s) ≡ total s
unfolding flush write_batch
flush-total fate s p =
    let k = write_from-Kept fate s.batch (suc s.cfg.max_retries) 0 s.cfg.retry_backoff s in
    let c = write_from-counts fate s.batch (suc s.cfg.max_retries) 0 s.cfg.retry_backoff s p in
    ground (arith, k.queue, k.dropped, c)

abbrev fate_of : Event → Option Fate
fate_of (enqueued _) = none
fate_of (received f) = some f
fate_of (ticked f) = some f
fate_of (stopped f) = some f

-- No wait in a run is ended by the context.
abbrev pub AllPatient : List Event → Type 0
AllPatient = All (λ v. (f : Fate) → fate_of v ≡ some f → Patient f)

abbrev is_enqueue : Event → ℕ
is_enqueue (enqueued _) = 1
is_enqueue (received _) = 0
is_enqueue (ticked _) = 0
is_enqueue (stopped _) = 0

-- The calls of `Enqueue` in a run.
abbrev pub enqueues : List Event → ℕ
enqueues [] = 0
enqueues (v ∷ vs) = is_enqueue v + enqueues vs

receive-total : (fate : Fate) (s : Store) → Patient fate → total (receive fate s) ≡ total s
unfolding receive
receive-total fate s p = from s.queue refl
  where
    from : (q : List Row) → q ≡ s.queue → total (receive_from fate q s) ≡ total s
    from [] e = refl
    from (row ∷ q) e =
        let s' : Store = record s { queue = q; batch = s.batch ++ row ∷ [] } in
        let n : suc (length q) ≡ length s.queue = ap length e in
        elim (Bool-cases (leb s'.cfg.batch_size (length s'.batch))) [
          | inl full ↦
              rw (full, receive_from)
                (omega (arith, flush-total fate s' p, n, length-append s.batch (row ∷ [])))
          | inr more ↦ rw (more, receive_from) (omega (arith, n, length-append s.batch (row ∷ [])))
        ]

step-total :
    (v : Event) (s : Store)
    → ((f : Fate) → fate_of v ≡ some f → Patient f)
    → total (step v s) ≡ is_enqueue v + total s
unfolding enqueue
step-total (enqueued row) s p = ground (arith, length-append s.queue (row ∷ []))
step-total (received f) s p = omega (arith, receive-total f s (p f refl))
step-total (ticked f) s p = omega (arith, flush-total f s (p f refl))
step-total (stopped f) s p = omega (arith, flush-total f s (p f refl))

-- Over a run in which the context ends no wait between attempts, the rows that were handed to the
-- store are as many as those that were counted as written, as dropped at the queue or as failed, with those
-- in the queue and in the batch.
pub run-total :
    (vs : List Event) (s : Store) → AllPatient vs → total (run vs s) ≡ total s + enqueues vs
unfolding run
run-total [] s p = omega arith
run-total (v ∷ vs) s (p, ps) = omega (arith, step-total v s p, run-total vs (step v s) ps)

-- A write whose first attempt fails and whose context ends in the wait after it returns at once: its
-- rows are in no counter.
pub write_batch-cancelled :
    (fate : Fate) (rows : List Row) (s : Store)
    → fate.acknowledged 0 ≡ false
    → fate.stopped 1 ≡ true
    → 0 < s.cfg.max_retries
    → (write_batch fate rows s).store ≡ s
unfolding write_batch write_from
write_batch-cancelled fate rows s e c p = from s.cfg.max_retries p
  where
    from : (n : ℕ) → 0 < n → (write_from fate rows (suc n) 0 s.cfg.retry_backoff s).store ≡ s
    from zero h = absurd (omega arith)
    from (suc n) h = ground arith

abbrev pub sum : List ℕ → ℕ
sum [] = 0
sum (n ∷ ns) = n + sum ns

abbrev doubled : ℕ → ℕ → ℕ
doubled zero b = b
doubled (suc n) b = doubled n (2 * b)

doubled-eq : (n b : ℕ) → doubled n b ≡ 2 ^ n * b
doubled-eq zero b = omega arith
doubled-eq (suc n) b = simp unary_clauses (ground (arith, doubled-eq n (2 * b)))

le-doubled : (n b : ℕ) → b ≤ doubled n b
le-doubled zero b = omega arith
le-doubled (suc n) b = omega (arith, le-doubled n (2 * b))

sum-waits :
    (fate : Fate) (rows : List Row) (left attempt backoff : ℕ) (s : Store)
    → sum (write_from fate rows left (suc attempt) backoff s).waits + backoff ≤ doubled left backoff
unfolding write_from
sum-waits fate rows zero attempt backoff s = omega arith
sum-waits fate rows (suc left) attempt backoff s =
    ground
      (arith, sum-waits fate rows left (suc attempt) (2 * backoff) s, le-doubled left (2 * backoff))

-- However its attempts go, a write waits in total for at most 2 ^ retries - 1 times the first wait.
pub sum-waits-write_batch :
    (fate : Fate) (rows : List Row) (s : Store)
    → sum (write_batch fate rows s).waits + s.cfg.retry_backoff
      ≤ 2 ^ s.cfg.max_retries * s.cfg.retry_backoff
unfolding write_batch write_from
sum-waits-write_batch fate rows s =
    let b = s.cfg.retry_backoff in
    ground (
      arith,
      sum-waits fate rows s.cfg.max_retries 0 b s,
      le-doubled s.cfg.max_retries b,
      doubled-eq s.cfg.max_retries b,
    )
