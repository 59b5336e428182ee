-- ===== src/Telemetry/Validate/Classified.antt =====
-- When a payload is a violation, and what the violation names.
use vantage_core.Prelude.{
  ◌≡◌, refl, ap, ◌∙◌, Bool, true, false, ◌||◌, ◌&&◌, not, List, [], ◌∷◌, ◌++◌, none, some, is_some,
  Str, lit, ◌==◌, ==_iff, ltb, length, map, filter, arith, Option-cases, Bool-cases, inl, inr, ◌↔◌,
}
use vantage_core.Telemetry.Json.{Json, Fields, get_field, object}
use vantage_core.Telemetry.Registry.{Registry, Entry, resolve}
use vantage_core.Telemetry.Validate.{
  SchemaView, Validation, missing_names, classify, checked, validate,
}
use vantage_core.Telemetry.Violation.{missing_required, sort_strings, insert}

-- Whether a string is in a list.
abbrev pub contains : List Str → Str → Bool
contains [] s = false
contains (t ∷ l) s = t == s || contains l s

contains-insert :
    (t : Str) (l : List Str) (s : Str) → contains (insert t l) s ≡ (t == s || contains l s)
unfolding insert
contains-insert t [] s = refl
contains-insert t (u ∷ l) s = ground (arith, contains-insert t l s)

contains-sort_strings : (l : List Str) (s : Str) → contains (sort_strings l) s ≡ contains l s
unfolding sort_strings
contains-sort_strings [] s = refl
contains-sort_strings (t ∷ l) s =
    ground (arith, contains-insert t (sort_strings l) s, contains-sort_strings l s)

slash_cancel : (t s : Str) → (lit "/" ++ t == lit "/" ++ s) ≡ (t == s)
unfolding ◌==◌
slash_cancel t s = ground arith

contains-map :
    (l : List Str) (s : Str) → contains (map (λ n. lit "/" ++ n) l) (lit "/" ++ s) ≡ contains l s
contains-map [] s = refl
contains-map (t ∷ l) s = ground (arith, slash_cancel t s, contains-map l s)

contains-filter :
    (p : Str → Bool) (l : List Str) (s : Str) → contains (filter p l) s ≡ (p s && contains l s)
contains-filter p [] s = ground arith
contains-filter p (t ∷ l) s =
    let same : (t == s) ≡ true → p t ≡ p s = λ e. ap p ((==_iff t s).0 e) in
    ground (arith, same, contains-filter p l s)

module _ {Resolved : Type 0} (v : Validation Resolved) where
  -- A payload that is an object and lacks required properties is classified by them: its paths name a
  -- property exactly if the schema requires it and the payload has none of its name.
  pub contains-classify :
      (schema : SchemaView) (obj : Fields) (error name : Str)
      → (classify v schema (object obj) error).0 ≡ missing_required
      → contains (classify v schema (object obj) error).1 (lit "/" ++ name)
        ≡ (not (is_some (get_field obj name)) && contains schema.required name)
  unfolding classify missing_names
  contains-classify schema obj error name h =
      elim (Bool-cases (ltb 0 (length (missing_names schema obj)))) [
        | inl e ↦
            rw (classify, e)
              (contains-map (sort_strings (missing_names schema obj)) name
                ∙ contains-sort_strings (missing_names schema obj) name
                ∙ contains-filter (λ n. not (is_some (get_field obj n))) schema.required name)
        | inr e ↦ absurd (ground arith)
      ]

  -- A payload is no violation exactly if its agent has a contract, it is JSON, and its value passes the
  -- schema of the contract.
  pub validate-eq-none_iff :
      (r : Registry Resolved) (agent payload : Str)
      → (validate v r agent payload ≡ none) ↔ (
          (e : Entry Resolved) × (resolve r agent ≡ some e)
          × ((j : Json) × (v.unmarshal payload ≡ some j) × (v.error e.resolved j ≡ none)))
  unfolding validate
  validate-eq-none_iff r agent payload = (forth, back)
    where
      back :
          ((e : Entry Resolved) × (resolve r agent ≡ some e)
            × ((j : Json) × (v.unmarshal payload ≡ some j) × (v.error e.resolved j ≡ none)))
          → validate v r agent payload ≡ none
      back (e, p, (j, q, k)) = rw (validate, p, q, checked, k) refl

      forth :
          validate v r agent payload ≡ none
          → (e : Entry Resolved) × (resolve r agent ≡ some e)
            × ((j : Json) × (v.unmarshal payload ≡ some j) × (v.error e.resolved j ≡ none))
      forth h = elim (Option-cases (resolve r agent)) [
        | inl p ↦ absurd (ground arith)
        | inr (e, p) ↦ elim (Option-cases (v.unmarshal payload)) [
          | inl q ↦ absurd (ground arith)
          | inr (j, q) ↦ elim (Option-cases (v.error e.resolved j)) [
            | inl k ↦ (e, p, (j, q, k))
            | inr (x, k) ↦ absurd (ground arith)
          ]
        ]
      ]
