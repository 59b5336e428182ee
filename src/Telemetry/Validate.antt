-- ===== src/Telemetry/Validate.antt =====
-- cmd/core/telemetry/validate/validate.go, and the samples of violation.go. `Validation` is what the
-- source uses of the JSON Schema library and of encoding/json: whether a value passes a compiled schema,
-- the error otherwise, the schema that was compiled, and the texts of JSON strings; `is_integral` says
-- whether a float64 is equal to its own conversion to int64 and back.
pub mod Classified
use vantage_core.Prelude.{
  ℕ, Bool, true, false, ◌||◌, ◌&&◌, not, List, [], ◌∷◌, ◌++◌, Option, none, some, is_some, Str, lit,
  ◌==◌, ltb, nat_eq, length, take, map, filter, if◌then◌else◌,
}
use vantage_core.Prelude.Assoc.{Map}
use vantage_core.Telemetry.Json.{
  Json, Fields, get_field, null, boolean, number, string, array, object,
}
use vantage_core.Telemetry.Registry.{Registry, Entry, resolve}
use vantage_core.Telemetry.Violation.{
  Kind, Violation, sort_strings, missing_required, type_mismatch, constraint, not_json, no_contract,
  schema_contract_mismatch,
}

-- What the source reads of a schema.
pub record PropSchema : Type 0 where
  pub type : Str
  pub types : List Str

pub record SchemaView : Type 0 where
  pub required : List Str
  pub properties : Map PropSchema

pub record Validation (Resolved : Type 0) : Type 0 where
  pub schema : Resolved → SchemaView
  pub error : Resolved → Json → Option Str
  pub unmarshal : Str → Option Json
  pub unmarshal_error : Str → Str
  pub marshal_string : Str → Str
  pub is_integral : ℕ → Bool
  pub announced_hash : Str → Option Str
  pub announced_error : Str → Str
  pub mismatch : Str → Str → Str

abbrev pub max_sample_bytes : ℕ
max_sample_bytes = 4000

-- An ellipsis in UTF-8, and a word.
abbrev truncated_mark : Str
truncated_mark = 226 ∷ 128 ∷ 166 ∷ lit "(truncated)"

abbrev pub json_type_of : Json → Str
json_type_of null = lit "null"
json_type_of (boolean _) = lit "boolean"
json_type_of (number _) = lit "number"
json_type_of (string _) = lit "string"
json_type_of (array _) = lit "array"
json_type_of (object _) = lit "object"

abbrev pub paths_for : List Str → List Str
paths_for names = map (λ n. lit "/" ++ n) (sort_strings names)

abbrev joined : List Str → Str
joined [] = []
joined (n ∷ []) = n
joined (n ∷ m ∷ ns) = n ++ (lit ", " ++ joined (m ∷ ns))

abbrev pub join_sorted : List Str → Str
join_sorted names = joined (sort_strings names)

-- `missingRequired`
unfoldable pub missing_names : SchemaView → Fields → List Str
missing_names schema obj = filter (λ n. not (is_some (get_field obj n))) schema.required

-- What `classify` answers: the kind, the paths and the detail.
abbrev pub Classification : Type 0
Classification = Kind × List Str × Str

module _ {Resolved : Type 0} (v : Validation Resolved) where
  unfoldable pub sample_for : Str → Str
  sample_for payload =
      if ltb max_sample_bytes (length payload)
      then v.marshal_string (take max_sample_bytes payload ++ truncated_mark)
      else if is_some (v.unmarshal payload)
      then payload
      else v.marshal_string payload

  abbrev integral : Json → Bool
  integral (number f) = v.is_integral f
  integral _ = false

  abbrev matches_any : Json → List Str → Bool
  matches_any j [] = false
  matches_any j (want ∷ types) =
      json_type_of j == want
      || want == lit "integer" && json_type_of j == lit "number" && integral j
      || matches_any j types

  abbrev declared_types : PropSchema → List Str
  declared_types p =
      if nat_eq (length p.types) 0 && not (nat_eq (length p.type) 0) then p.type ∷ [] else p.types

  unfoldable pub type_matches : Json → PropSchema → Bool
  type_matches j p = nat_eq (length (declared_types p)) 0 || matches_any j (declared_types p)

  abbrev mismatched : Option Json → PropSchema → Bool
  mismatched none p = false
  mismatched (some j) p = not (type_matches j p)

  unfoldable pub mismatched_types : Map PropSchema → Fields → List Str
  mismatched_types [] obj = []
  mismatched_types ((name, p) ∷ properties) obj =
      let rest = mismatched_types properties obj in
      if mismatched (get_field obj name) p then name ∷ rest else rest

  abbrev classify_object : SchemaView → Fields → Str → Classification
  classify_object schema obj error =
      let missing = missing_names schema obj in
      let wrong = mismatched_types schema.properties obj in
      if ltb 0 (length missing)
      then (
        missing_required,
        paths_for missing,
        lit "missing required field(s): " ++ join_sorted missing,
      )
      else if ltb 0 (length wrong)
      then (
        type_mismatch,
        paths_for wrong,
        lit "field(s) with the wrong type: " ++ join_sorted wrong,
      )
      else (constraint, [], error)

  unfoldable pub classify : SchemaView → Json → Str → Classification
  classify schema (object obj) error = classify_object schema obj error
  classify schema _ error = (constraint, [], error)

  abbrev unbound : Str → Str → Violation
  unbound agent payload = record {
    agent_id = agent;
    group_id = [];
    schema_hash = [];
    kind = no_contract;
    paths = [];
    detail = [];
    sample = sample_for payload;
  }

  abbrev bound : Str → Entry Resolved → Str → Classification → Violation
  bound agent e payload (kind, paths, detail) = record {
    agent_id = agent;
    group_id = e.group_id;
    schema_hash = e.hash;
    kind = kind;
    paths = paths;
    detail = detail;
    sample = sample_for payload;
  }

  abbrev pub checked : Str → Entry Resolved → Str → Json → Option Violation
  checked agent e payload j = elim (v.error e.resolved j) [
    | none ↦ none
    | some error ↦ some (bound agent e payload (classify (v.schema e.resolved) j error))
  ]

  unfoldable pub validate : Registry Resolved → Str → Str → Option Violation
  validate r agent payload = elim (resolve r agent) [
    | none ↦ some (unbound agent payload)
    | some e ↦ elim (v.unmarshal payload) [
      | none ↦ some (bound agent e payload (not_json, [], v.unmarshal_error payload))
      | some j ↦ checked agent e payload j
    ]
  ]

  unfoldable pub check_schema_announcement : Registry Resolved → Str → Str → Option Violation
  check_schema_announcement r agent payload = elim (resolve r agent) [
    | none ↦ some (unbound agent payload)
    | some e ↦ elim (v.announced_hash payload) [
      | none ↦ some (bound agent e payload (not_json, [], v.announced_error payload))
      | some hash ↦
          if hash == e.hash
          then none
          else some (bound agent e payload (schema_contract_mismatch, [], v.mismatch hash e.hash))
    ]
  ]
