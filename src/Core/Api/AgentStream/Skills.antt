-- ===== src/Core/Api/AgentStream/Skills.antt =====
-- The skills that agents report over gRPC.
use vantage_core.Prelude.{
  ◌≡◌, ◌≢◌, ◌⊎◌, refl, List, [], ◌∷◌, Option, none, some, ==_iff, Str, map, ok, arith,
  if◌then◌else◌, ◌==◌, Result-cases, inl, inr, All,
}
use vantage_core.Prelude.Assoc
use vantage_core.Core.Agents.{AgentRegistry, AgentSkill, set_skills}
use vantage_core.Core.Api.AgentStream.{
  Metadata, agent_id_from_context, validate_schema, ReportedSkill, skills_of, report_skills,
}
use vantage_core.Telemetry.Json.{Json, object, boolean, null, number, string, array}

abbrev pub IsObjectOrBoolean : Json → Type 0
IsObjectOrBoolean (object _) = Unit
IsObjectOrBoolean (boolean _) = Unit
IsObjectOrBoolean _ = ⊥

-- The skill that core keeps of a reported one.
abbrev pub kept : ReportedSkill → AgentSkill
kept sk = record { name = sk.type; payload = sk.payload_schema }

module _ (decode : Str → Option Json) where
  -- The schema is the text of a JSON object or Boolean.
  abbrev pub HasValidSchema : ReportedSkill → Type 0
  HasValidSchema sk =
      (sk.payload_schema ≢ [])
      × ((j : Json) × (decode sk.payload_schema ≡ some j) × IsObjectOrBoolean j)

  HasValidSchema-of_ok :
      (sk : ReportedSkill) (o : Option Json)
      → decode sk.payload_schema ≡ o
      → validate_schema decode sk.payload_schema ≡ ok tt
      → HasValidSchema sk
  unfolding validate_schema
  HasValidSchema-of_ok sk none e h = absurd (ground (arith, ==_iff sk.payload_schema []))
  HasValidSchema-of_ok sk (some (object fs)) e h =
      (λ k. absurd (ground (arith, ==_iff sk.payload_schema [])), (object fs, e, tt))
  HasValidSchema-of_ok sk (some (boolean b)) e h =
      (λ k. absurd (ground (arith, ==_iff sk.payload_schema [])), (boolean b, e, tt))
  HasValidSchema-of_ok sk (some _) e h = absurd (ground (arith, ==_iff sk.payload_schema []))

  ok-of_HasValidSchema :
      (sk : ReportedSkill) → HasValidSchema sk → validate_schema decode sk.payload_schema ≡ ok tt
  unfolding validate_schema
  ok-of_HasValidSchema sk (n, (object fs, e, _)) = ground (arith, ==_iff sk.payload_schema [])
  ok-of_HasValidSchema sk (n, (boolean b, e, _)) = ground (arith, ==_iff sk.payload_schema [])
  ok-of_HasValidSchema sk (n, (null, e, k)) = absurd k
  ok-of_HasValidSchema sk (n, (number x, e, k)) = absurd k
  ok-of_HasValidSchema sk (n, (string x, e, k)) = absurd k
  ok-of_HasValidSchema sk (n, (array x, e, k)) = absurd k

  skills_of-valid :
      (sks : List ReportedSkill) → All HasValidSchema sks → skills_of decode sks ≡ ok (map kept sks)
  unfolding skills_of
  skills_of-valid [] h = refl
  skills_of-valid (sk ∷ sks) (h, hs) =
      ground (arith, ok-of_HasValidSchema sk h, skills_of-valid sks hs)

  skills_of-ok :
      (sks : List ReportedSkill) (out : List AgentSkill)
      → skills_of decode sks ≡ ok out
      → All HasValidSchema sks
  unfolding skills_of
  skills_of-ok [] out e = tt
  skills_of-ok (sk ∷ sks) out e = elim (Result-cases (validate_schema decode sk.payload_schema)) [
    | inr (x, v) ↦ absurd (ground arith)
    | inl (u, v) ↦ elim (Result-cases (skills_of decode sks)) [
      | inr (x, w) ↦ absurd (ground arith)
      | inl (rest, w) ↦
          (HasValidSchema-of_ok sk (decode sk.payload_schema) refl v, skills_of-ok sks rest w)
    ]
  ]

  -- Skills are taken all or none. Either the schema of every skill is the text of a JSON object or Boolean, the call
  -- succeeds, and then the agent of the metadata has exactly the reported skills with their schemas, in order, and the other
  -- agents have theirs; or the schema of some skill is not, the call fails, and nothing changes.
  pub report_skills-all_or_none :
      (ctx : Option Metadata) (sks : List ReportedSkill) (r : AgentRegistry)
      → let (after, answer) = report_skills decode ctx sks r in
        (All HasValidSchema sks
          × (answer ≡ ok tt)
          × ((other : Str)
              → Assoc.get after.skills other ≡ (
                  if agent_id_from_context ctx == other
                  then some (map kept sks)
                  else Assoc.get r.skills other)))
        ⊎ ((¬ All HasValidSchema sks) × (answer ≢ ok tt) × (after ≡ r))
  unfolding report_skills set_skills
  report_skills-all_or_none ctx sks r =
      let id = agent_id_from_context ctx in
      let valid = skills_of-valid sks in
      elim (Result-cases (skills_of decode sks)) [
        | inr (x, e) ↦
            inr (λ h. absurd (ground (arith, valid h)), λ k. absurd (ground arith), ground arith)
        | inl (out, e) ↦
            let h = skills_of-ok sks out e in
            inl (
              h,
              ground arith,
              λ other. ground (arith, valid h, Assoc.get-put r.skills id other (map kept sks)),
            )
      ]
