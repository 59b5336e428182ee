-- ===== src/Telemetry/Store/Bounds.antt =====
-- The rows that the store has inserted, and the sizes of its queue and its batch.
use vantage_core.Prelude.{
  ℕ, suc, zero, ◌≤◌, ◌<◌, ◌≡◌, refl, ap, List, [], ◌∷◌, ◌++◌, map, ltb, leb, nat_eq, length,
  length-append, arith, Bool-cases, inl, inr,
}
use vantage_core.Telemetry.Store.Accounting.{write_from-Kept}
use vantage_core.Telemetry.Store.{
  Row, Store, Fate, enqueue, values_of, receive_from, next_backoff, write_from, write_batch, flush,
  Event, receive, step, run, enqueued, received, ticked, stopped,
}

-- As many rows were inserted as were counted, and the queue and the batch are within their sizes.
pub record IsValid (s : Store) : Type 0 where
  pub counted : length s.inserted ≡ s.written
  pub queued : length s.queue ≤ s.cfg.queue_size
  pub batched : length s.batch < s.cfg.batch_size

length-map-values_of : (rows : List Row) → length (map values_of rows) ≡ length rows
length-map-values_of [] = refl
length-map-values_of (r ∷ rows) = ap suc (length-map-values_of rows)

write_from-counted :
    (fate : Fate) (rows : List Row) (left attempt backoff : ℕ) (s : Store)
    → length s.inserted ≡ s.written
    → let s' = (write_from fate rows left attempt backoff s).store in
      length s'.inserted ≡ s'.written
unfolding write_from
write_from-counted fate rows zero attempt backoff s h = h
write_from-counted fate rows (suc left) attempt backoff s h = ground (
  arith,
  length-append s.inserted (map values_of rows),
  length-map-values_of rows,
  write_from-counted fate rows left (suc attempt) (next_backoff attempt backoff) s h,
)

flush-IsValid :
    (fate : Fate) (s : Store)
    → length s.inserted ≡ s.written
    → length s.queue ≤ s.cfg.queue_size
    → 0 < s.cfg.batch_size
    → IsValid (flush fate s)
unfolding flush write_batch
flush-IsValid fate s h q b = elim (Bool-cases (nat_eq (length s.batch) 0)) [
  | inl e ↦ rw (e, flush) (record { counted = h; queued = q; batched = ground arith })
  | inr e ↦
      let k = write_from-Kept fate s.batch (suc s.cfg.max_retries) 0 s.cfg.retry_backoff s in
      let c = write_from-counted fate s.batch (suc s.cfg.max_retries) 0 s.cfg.retry_backoff s h in
      rw (e, flush)
        (record {
          counted = c;
          queued = ground (arith, k.queue, k.cfg);
          batched = ground (arith, k.cfg);
        })
]

step-IsValid : (v : Event) (s : Store) → IsValid s → IsValid (step v s)
unfolding enqueue receive
step-IsValid (enqueued row) s h = elim (Bool-cases (ltb (length s.queue) s.cfg.queue_size)) [
  | inl free ↦
      rw (free, enqueue)
        (record {
          counted = h.counted;
          queued = ground (arith, length-append s.queue (row ∷ []));
          batched = h.batched;
        })
  | inr full ↦
      rw (full, enqueue) (record { counted = h.counted; queued = h.queued; batched = h.batched })
]
step-IsValid (received f) s h = from s.queue refl
  where
    from : (q : List Row) → q ≡ s.queue → IsValid (receive_from f q s)
    from [] e = h
    from (row ∷ q) e =
        let s' : Store = record s { queue = q; batch = s.batch ++ row ∷ [] } in
        let shorter : length q ≤ s.cfg.queue_size = omega (arith, ap length e, h.queued) in
        elim (Bool-cases (leb s'.cfg.batch_size (length s'.batch))) [
          | inl full ↦
              rw (full, receive_from)
                (flush-IsValid f s' h.counted shorter (omega (arith, h.batched)))
          | inr more ↦
              rw (more, receive_from)
                (record { counted = h.counted; queued = shorter; batched = ground arith })
        ]
step-IsValid (ticked f) s h = flush-IsValid f s h.counted h.queued (omega (arith, h.batched))
step-IsValid (stopped f) s h = flush-IsValid f s h.counted h.queued (omega (arith, h.batched))

-- Over any run, whichever attempts of its writes return an error: the batches whose INSERT returned none
-- have as many rows as were counted as written, the queue holds no more than its size, and the batch less
-- than its size.
pub run-IsValid : (vs : List Event) (s : Store) → IsValid s → IsValid (run vs s)
unfolding run
run-IsValid [] s h = h
run-IsValid (v ∷ vs) s h = run-IsValid vs (step v s) (step-IsValid v s h)
