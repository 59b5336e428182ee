-- ===== src/Telemetry/Mapping/Apply.antt =====
-- `Apply`, and what it does with the time of a payload.
use vantage_core.Prelude.{
  ℕ, ◌≡◌, refl, ◌⊎◌, inl, inr, true, [], ◌∷◌, Option, none, some, Str, nat_eq, length, Result, ok,
  err, if◌then◌else◌, Bool-cases, Option-cases,
}
use vantage_core.Prelude.Assoc.{Map}
use vantage_core.Telemetry.Json.{Json, string}
use vantage_core.Telemetry.Mapping.Int.{ℤ}
use vantage_core.Telemetry.Mapping.{
  Spec, Mapped, TimeError, extract, parse_timestamp, normalize_path, within_sane_window,
}
use vantage_core.Telemetry.Violation.{Violation, bad_timestamp}

-- A value of the payload as an agent's name: a string that is not empty.
abbrev name_or : Str → Option Json → Str
name_or topic_agent (some (string s)) = if nat_eq (length s) 0 then topic_agent else s
name_or topic_agent _ = topic_agent

abbrev pub mapped_agent_id : Spec → Str → Json → Str
mapped_agent_id spec topic_agent instance_ =
    if nat_eq (length spec.agent_id) 0
    then topic_agent
    else name_or topic_agent (extract instance_ spec.agent_id)

abbrev project : Option Json → Str → Map Json → Map Json
project none name rest = rest
project (some v) name rest = (name, v) ∷ rest

unfoldable pub mapped_fields : Map Str → Json → Map Json
mapped_fields [] instance_ = []
mapped_fields ((name, path) ∷ fields) instance_ =
    project (extract instance_ path) name (mapped_fields fields instance_)

abbrev pub timestamp_violation : Spec → Str → Str → Str → Violation
timestamp_violation spec agent group detail = record {
  agent_id = agent;
  group_id = group;
  schema_hash = [];
  kind = bad_timestamp;
  paths = normalize_path spec.timestamp ∷ [];
  detail = detail;
  sample = [];
}

abbrev pub defaults : Str → ℤ → Mapped
defaults topic_agent received_at = record {
  agent_id = topic_agent;
  time = received_at;
  received_at = received_at;
  fields = none;
}

module _ (parse_json : Str → Option Json) (parse_rfc3339 : Str → Option ℤ) (to_int64 : ℕ → ℤ)
    (describe : TimeError → Str) (describe_window : ℤ → ℤ → Str) where
  -- The time of a payload, and the detail of a violation.
  abbrev pub checked_time : ℤ → Result TimeError ℤ → ℤ × Option Str
  checked_time received_at (err e) = (received_at, some (describe e))
  checked_time received_at (ok t) =
      if within_sane_window t received_at
      then (t, none)
      else (received_at, some (describe_window t received_at))

  abbrev found_time : Spec → ℤ → Option Json → ℤ × Option Str
  found_time spec received_at none = (received_at, none)
  found_time spec received_at (some v) =
      checked_time received_at (parse_timestamp parse_rfc3339 to_int64 v spec.timestamp_format)

  abbrev pub mapped_time : Spec → ℤ → Json → ℤ × Option Str
  mapped_time spec received_at instance_ =
      if nat_eq (length spec.timestamp) 0
      then (received_at, none)
      else found_time spec received_at (extract instance_ spec.timestamp)

  abbrev violation_for : Spec → Str → Str → Option Str → Option Violation
  violation_for spec agent group none = none
  violation_for spec agent group (some detail) = some (timestamp_violation spec agent group detail)

  unfoldable pub apply_spec : Spec → Str → Str → ℤ → Json → Mapped × Option Violation
  apply_spec spec topic_agent group received_at instance_ =
      let agent = mapped_agent_id spec topic_agent instance_ in
      let (time, detail) = mapped_time spec received_at instance_ in
      (
        record {
          agent_id = agent;
          time = time;
          received_at = received_at;
          fields =
              if nat_eq (length spec.fields) 0
              then none
              else some (mapped_fields spec.fields instance_);
        },
        violation_for spec agent group detail,
      )

  -- `Apply`
  unfoldable pub apply : Option Spec → Str → Str → ℤ → Str → Mapped × Option Violation
  apply none topic_agent group received_at payload = (defaults topic_agent received_at, none)
  apply (some spec) topic_agent group received_at payload = elim (parse_json payload) [
    | none ↦ (defaults topic_agent received_at, none)
    | some instance_ ↦ apply_spec spec topic_agent group received_at instance_
  ]

abbrev pub SaneTime : ℤ → Mapped × Option Violation → Type 0
SaneTime received_at (m, none) =
    (m.received_at ≡ received_at)
    × ((m.time ≡ received_at) ⊎ (within_sane_window m.time received_at ≡ true))
SaneTime received_at (m, some v) =
    (m.received_at ≡ received_at) × (m.time ≡ received_at) × (v.kind ≡ bad_timestamp)

abbrev SaneFor : ℤ → ℤ × Option Str → Type 0
SaneFor received_at (t, none) = (t ≡ received_at) ⊎ (within_sane_window t received_at ≡ true)
SaneFor received_at (t, some _) = t ≡ received_at

module _ (parse_json : Str → Option Json) (parse_rfc3339 : Str → Option ℤ) (to_int64 : ℕ → ℤ)
    (describe : TimeError → Str) (describe_window : ℤ → ℤ → Str) where
  checked_time-sane :
      (received_at : ℤ) (r : Result TimeError ℤ)
      → SaneFor received_at
          (checked_time parse_json parse_rfc3339 to_int64 describe describe_window received_at r)
  checked_time-sane received_at (err e) = refl
  checked_time-sane received_at (ok t) = elim (Bool-cases (within_sane_window t received_at)) [
    | inl e ↦ rw e (inr e)
    | inr e ↦ rw e refl
  ]

  found_time-sane :
      (spec : Spec) (received_at : ℤ) (o : Option Json)
      → SaneFor received_at
          (found_time parse_json parse_rfc3339 to_int64 describe describe_window spec received_at o)
  found_time-sane spec received_at none = inl refl
  found_time-sane spec received_at (some v) = checked_time-sane received_at _

  mapped_time-sane :
      (spec : Spec) (received_at : ℤ) (u : Json)
      → SaneFor received_at (
          mapped_time parse_json parse_rfc3339 to_int64 describe describe_window spec received_at u)
  mapped_time-sane spec received_at u = elim (Bool-cases (nat_eq (length spec.timestamp) 0)) [
    | inl e ↦ rw e (inl refl)
    | inr e ↦ rw e (found_time-sane spec received_at (extract u spec.timestamp))
  ]

  with_detail :
      (spec : Spec) (agent group : Str) (received_at : ℤ) (fields : Option (Map Json))
      (x : ℤ × Option Str)
      → SaneFor received_at x
      → SaneTime received_at (
        record { agent_id = agent; time = x.0; received_at = received_at; fields = fields },
        violation_for parse_json parse_rfc3339 to_int64 describe describe_window spec agent group
            x.1,
      )
  with_detail spec agent group received_at fields (t, none) h = (refl, h)
  with_detail spec agent group received_at fields (t, some d) h = (refl, h, refl)

  -- For every mapping and payload: without a violation the time of the row is the receive time or a
  -- mapped time that counts as sane; with one, it is the receive time, and the violation is a bad
  -- timestamp. The receive time is always kept beside it.
  pub apply-SaneTime :
      (spec : Option Spec) (topic_agent group : Str) (received_at : ℤ) (payload : Str)
      → SaneTime received_at (
          apply parse_json parse_rfc3339 to_int64 describe describe_window spec topic_agent group
            received_at payload)
  unfolding apply apply_spec
  apply-SaneTime none topic_agent group received_at payload = (refl, inl refl)
  apply-SaneTime (some spec) topic_agent group received_at payload =
      elim (Option-cases (parse_json payload)) [
        | inl e ↦ rw (e, apply) (refl, inl refl)
        | inr (u, e) ↦
            rw (e, apply)
              (with_detail spec (mapped_agent_id spec topic_agent u) group received_at
                (apply_spec parse_json parse_rfc3339 to_int64 describe describe_window spec
                  topic_agent group received_at u).0.fields
                _ (mapped_time-sane spec received_at u))
      ]
