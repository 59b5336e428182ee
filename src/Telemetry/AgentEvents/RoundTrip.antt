-- ===== src/Telemetry/AgentEvents/RoundTrip.antt =====
-- What a reader of agent_events gets of a violation.
use vantage_core.Prelude.{
  ==_refl, ==_iff, ℕ, ◌<◌, ◌≡◌, refl, List, [], ◌∷◌, Option, none, nat_eq, length, some, Str, lit,
  ◌==◌, arith, if◌then◌else◌,
}
use vantage_core.Telemetry.AgentEvents.{
  event_record, violation_summary, to_int32, read_paths, set_paths, read_sample,
}
use vantage_core.Telemetry.Mapping.Int.{pos}
use vantage_core.Telemetry.Violation.{Violation, kind_string}

to_int32_small : (n : ℕ) → n < 2147483648 → to_int32 n ≡ pos n
unfolding to_int32
to_int32_small n h = ground arith

-- A sample that the reader shows: nothing for the JSON null, or where nothing is kept.
abbrev pub shown : Option Str → Str
shown none = []
shown (some raw) = if raw == lit "null" then [] else raw

module _ (encode : List Str → Str) (decode : Str → Option (List Str)) (sha256 : Str → Str)
    (store_json : Str → Option Str) (store_time : ℕ → ℕ) where
  paths_read :
      ((ps : List Str) → (b : Str) × (store_json (encode ps) ≡ some b) × (decode b ≡ some ps))
      → (ps : List Str)
      → read_paths encode decode sha256 store_json store_time
          (set_paths encode decode sha256 store_json store_time ps)
        ≡ ps
  paths_read h [] = refl
  paths_read h (p ∷ ps) = let (b, e, d) = h (p ∷ ps) in ground arith

  sample_read :
      (o : Option Str) → read_sample encode decode sha256 store_json store_time o ≡ shown o
  sample_read none = refl
  sample_read (some []) = ground arith
  sample_read (some (b ∷ s)) = ground arith

  -- A violation that the throttle emits is read back by the status request with its kind, its detail, its
  -- paths, its count, which is exact below 2 ^ 31, and the time when it was last seen as the database
  -- keeps times; and with its sample as the database keeps JSON texts, where no sample, one that is not
  -- kept and the JSON null are all read as no sample.
  pub violation_summary-event_record :
      (v : Violation) (count first_seen last_seen : ℕ)
      → ((ps : List Str) → (b : Str) × (store_json (encode ps) ≡ some b) × (decode b ≡ some ps))
      → count < 2147483648
      → violation_summary encode decode sha256 store_json store_time
          (event_record encode decode sha256 store_json store_time v count first_seen last_seen)
        ≡ record {
          kind = kind_string v.kind;
          detail = v.detail;
          count = pos count;
          last_seen = store_time last_seen;
          paths = v.paths;
          sample_json = if v.sample == [] then [] else shown (store_json v.sample);
        }
  unfolding violation_summary event_record
  violation_summary-event_record v count first_seen last_seen h small =
      rw
        (
          paths_read h v.paths,
          sample_read (if nat_eq (length v.sample) 0 then none else store_json v.sample),
          with_sample v.sample,
          to_int32_small count small,
        )
        refl
    where
      with_sample :
          (x : Str)
          → shown (if nat_eq (length x) 0 then none else store_json x)
            ≡ (if x == [] then [] else shown (store_json x))
      with_sample [] = ground (arith, ==_refl [])
      with_sample (b ∷ x) = ground (arith, ==_iff (b ∷ x) [])
