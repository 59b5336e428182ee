-- ===== src/Telemetry/Pipeline/Rows.antt =====
-- What becomes of a telemetry message.
use vantage_core.Prelude.{
  ℕ, Bool, ◌≢◌, ◌≡◌, ◌<◌, refl, ap, ◌∙◌, ==_refl, true, false, [], ◌∷◌, ◌++◌, Option, none, some,
  Str, ltb, length, ◌⊎◌, arith, Option-cases, inl, inr,
}
use vantage_core.Telemetry.Live.Latest.{held, held-publish}
use vantage_core.Telemetry.Registry.{group_id}
use vantage_core.Telemetry.Store.{Row, Store, enqueue}
use vantage_core.Telemetry.Validate.{validate}
use vantage_core.Telemetry.Live.{publish}
use vantage_core.Telemetry.Mapping.{Mapped, within_sane_window}
use vantage_core.Telemetry.Mapping.Int.{ℤ}
use vantage_core.Telemetry.Mapping.Apply.{SaneTime, apply-SaneTime}
use vantage_core.Telemetry.Violation.{
  Violation, Kind, missing_required, type_mismatch, constraint, not_json, no_contract,
  schema_contract_mismatch, bad_timestamp,
}
use vantage_core.Telemetry.Pipeline.{
  mapped, mapping_of, Services, Pipeline, Ingested, Clock, telemetry, persist_enabled, valid_ptr,
  valid_of, row_of, enqueue_telemetry_row, publish_live_envelope, on_telemetry, on_message,
  persisted,
}

sane_time :
    (received_at : ℤ) (x : Mapped × Option Violation)
    → SaneTime received_at x
    → (x.0.time ≡ received_at) ⊎ (within_sane_window x.0.time received_at ≡ true)
sane_time received_at (m, none) (_, h) = h
sane_time received_at (m, some v) (_, h, _) = inl h

-- Whether a row may say this of itself, for what the validation found.
abbrev pub IsVerdict : Option Violation → Option Bool → Type 0
IsVerdict none valid = valid ≡ some true
IsVerdict (some v) valid =
    (v.kind ≡ no_contract → valid ≡ none) × (v.kind ≢ no_contract → valid ≡ some false)

valid_ptr-IsVerdict : (o : Option Violation) → IsVerdict o (valid_ptr o)
unfolding valid_ptr
valid_ptr-IsVerdict none = refl
valid_ptr-IsVerdict (some v) = (λ e. rw e refl, λ n. of_kind v.kind n)
  where
    of_kind : (k : Kind) → k ≢ no_contract → valid_of k ≡ some false
    of_kind no_contract n = absurd (n refl)
    of_kind missing_required n = refl
    of_kind type_mismatch n = refl
    of_kind constraint n = refl
    of_kind not_json n = refl
    of_kind schema_contract_mismatch n = refl
    of_kind bad_timestamp n = refl

-- What a subscriber holds: the message, if it can be written, or what it held.
abbrev pub newly_held : Option Str → Option Str → Option Str
newly_held none before = before
newly_held (some env) before = some env

module _ {Resolved : Type 0} (s : Services Resolved) (now : ℕ) (c c' : Clock) (m : Ingested)
    (p : Pipeline) where
  abbrev verdict : Option Violation
  verdict = validate s.validation s.registry m.agent_id m.payload

  enqueue-enqueue_telemetry_row :
      (group : Str) (st : Store)
      → group_id s.registry m.agent_id ≡ some group
      → persist_enabled s.persist group ≡ true
      → (enqueue_telemetry_row s c m verdict st p.throttler).0
        ≡ enqueue (row_of s group m verdict) st
  unfolding enqueue_telemetry_row
  enqueue-enqueue_telemetry_row group st g e = rw (enqueue_telemetry_row, g, e) refl

  enqueue_telemetry_row_off :
      (st : Store)
      → ((group : Str)
          → group_id s.registry m.agent_id ≡ some group
          → persist_enabled s.persist group ≡ false)
      → (enqueue_telemetry_row s c m verdict st p.throttler).0 ≡ st
  unfolding enqueue_telemetry_row
  enqueue_telemetry_row_off st h = elim (Option-cases (group_id s.registry m.agent_id)) [
    | inl e ↦ rw (enqueue_telemetry_row, e) refl
    | inr (group, e) ↦ rw (enqueue_telemetry_row, e, h group e) refl
  ]

  store-on_message :
      (st : Store)
      → m.kind ≡ telemetry
      → p.store ≡ some st
      → (on_message s now c c' m p).store
        ≡ some (enqueue_telemetry_row s c m verdict st p.throttler).0
  unfolding on_message on_telemetry enqueue_telemetry_row row_of
  store-on_message st k h = rw (on_message, k, on_telemetry, h, persisted) refl

  live-on_message :
      m.kind ≡ telemetry
      → (on_message s now c c' m p).live ≡ publish_live_envelope s m verdict p.live
  unfolding on_message on_telemetry publish_live_envelope
  live-on_message k = rw (on_message, k, on_telemetry) refl

  held-published :
      (o : Option Str) (channel : ℕ) (before : Option Str)
      → s.marshal_envelope (valid_ptr verdict) m.payload ≡ o
      → held p.live m.agent_id channel ≡ some before
      → held (publish_live_envelope s m verdict p.live) m.agent_id channel
        ≡ some (newly_held o before)
  unfolding publish_live_envelope
  held-published none channel before e h =
      let same : publish_live_envelope s m verdict p.live ≡ p.live =
        rw (publish_live_envelope, e) refl in
      ap (λ b. held b m.agent_id channel) same ∙ h
  held-published (some env) channel before e h =
      let same : publish_live_envelope s m verdict p.live ≡ publish m.agent_id env p.live =
        rw (publish_live_envelope, e) refl in
      ap (λ b. held b m.agent_id channel) same
      ∙ ground (arith, held-publish p.live m.agent_id m.agent_id env channel, ==_refl m.agent_id)

  -- Telemetry of an agent without a group, or of a group whose persistence is not turned on, leaves the
  -- store as it is.
  pub on_message_off :
      (st : Store)
      → m.kind ≡ telemetry
      → p.store ≡ some st
      → ((group : Str)
          → group_id s.registry m.agent_id ≡ some group
          → persist_enabled s.persist group ≡ false)
      → (on_message s now c c' m p).store ≡ some st
  on_message_off st k h off = store-on_message st k h ∙ ap some (enqueue_telemetry_row_off st off)

  -- Telemetry of an agent in a group whose persistence is turned on, with room in the queue: one row is
  -- queued, for the group and with the payload, at the receive time or a time that counts as sane. The row
  -- is valid if the validation finds no violation, without a verdict if there is no contract, and invalid
  -- otherwise. Every live subscriber of the agent then holds the message with the row's verdict and the
  -- payload, or what it held before where no such message can be written.
  pub on_message_persists :
      (group : Str) (st : Store) (channel : ℕ) (before : Option Str)
      → m.kind ≡ telemetry
      → p.store ≡ some st
      → group_id s.registry m.agent_id ≡ some group
      → persist_enabled s.persist group ≡ true
      → length st.queue < st.cfg.queue_size
      → held p.live m.agent_id channel ≡ some before
      → (row : Row) × ((on_message s now c c' m p).store
          ≡ some (record st { queue = st.queue ++ row ∷ [] }))
        × (row.group_id ≡ group)
        × (row.payload ≡ m.payload)
        × IsVerdict verdict row.valid
        × ((row.time ≡ m.received_at) ⊎ (within_sane_window row.time m.received_at ≡ true))
        × (held (on_message s now c c' m p).live m.agent_id channel
            ≡ some (newly_held (s.marshal_envelope row.valid m.payload) before))
  unfolding row_of enqueue
  on_message_persists group st channel before k h g e room there =
      let row = row_of s group m verdict in
      let free : ltb (length st.queue) st.cfg.queue_size ≡ true = ground arith in
      let queued : enqueue row st ≡ record st { queue = st.queue ++ row ∷ [] } =
        rw (enqueue, free) refl in
      (
        row,
        store-on_message st k h ∙ ap some (enqueue-enqueue_telemetry_row group st g e ∙ queued),
        refl,
        refl,
        valid_ptr-IsVerdict verdict,
        sane_time m.received_at (mapped s group m) (
            apply-SaneTime s.validation.unmarshal s.parse_rfc3339 s.to_int64 s.describe
              s.describe_window (mapping_of s.persist group) m.agent_id group m.received_at
              m.payload),
        ap (λ b. held b m.agent_id channel) (live-on_message k)
            ∙ held-published (s.marshal_envelope (valid_ptr verdict) m.payload) channel before refl
                there,
      )
