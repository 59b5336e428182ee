-- ===== src/Core/Tests/Calls.antt =====
-- Calls of agents and of operators.
use vantage_core.Prelude.{
  false, ◌≢◌, err, ℕ, ◌<◌, ◌+◌, ◌≡◌, ◌↔◌, ◌⊎◌, refl, true, List, [], ◌∷◌, ◌++◌, Option, none, some,
  Str, lit, ◌==◌, map, ok, if◌then◌else◌, All,
}
use vantage_core.Prelude.Assoc
use vantage_core.Core.Auth.{AuthService}
use vantage_core.Core.Agents.{AgentRegistry, AllowedAgent, online_agents, mqtt_presence_stale_after}
use vantage_core.Core.Api.AgentStream.{
  Metadata, ReportedSkill, report_skills, authenticate_metadata, agent_id_from_context,
}
use vantage_core.Core.Api.AgentStream.Access.{HasToken, authenticate_metadata-ok_iff}
use vantage_core.Core.Api.AgentStream.Skills.{HasValidSchema, kept, report_skills-all_or_none}
use vantage_core.Core.Api.AgentList.{list_agents, api_agent}
use vantage_core.Core.Api.AgentList.Listed.{list_agents_lem}
use vantage_core.Core.Poses.{}
use vantage_core.Core.Api.Live.{
  Happening, published, takes, ends, frame, handle_live, unauthorized, bad_request,
}
use vantage_core.Core.Api.Live.Newest.{handle_live_lem}
use vantage_core.Core.Api.Operators.{AuthRecord, require_operator}
use vantage_core.Telemetry.Live.{new_broadcaster}
use vantage_core.Telemetry.Live.Latest.{held}
use vantage_core.Telemetry.Json.{Json, object, no_fields, null}

abbrev accounts : AuthService
accounts = record {
  reg_tokens = [];
  auth_tokens = (lit "a", lit "token") ∷ [];
  mqtt_passwords = [];
}

abbrev metadata : Metadata
metadata = record { authorization = lit "Bearer token" ∷ []; agent_id = lit "a" ∷ [] }

authenticate_metadata-ok_iff_example :
    (authenticate_metadata accounts (some metadata) ≡ ok tt) ↔ HasToken accounts metadata
authenticate_metadata-ok_iff_example = authenticate_metadata-ok_iff accounts metadata

abbrev agents : AgentRegistry
agents = record {
  auth_service = accounts;
  allowed_agents = record { agent_id = lit "a"; name = lit "Robot"; key = lit "key" } ∷ [];
  skills = [];
  cameras = [];
  grpc_advertise_addr = [];
  mqtt_last_seen = (lit "a", 50) ∷ [];
}

-- A text that begins with a brace is an object, and another is null.
abbrev decode : Str → Option Json
decode s = some (if s == lit "{}" then object no_fields else null)

-- The second schema is none.
abbrev reported : List ReportedSkill
reported =
    record { type = lit "move"; payload_schema = lit "{}" }
    ∷ record { type = lit "lift"; payload_schema = lit "7" }
    ∷ []

report_skills-all_or_none_example :
    let (after, answer) = report_skills decode (some metadata) reported agents in
    (All (HasValidSchema decode) reported
      × (answer ≡ ok tt)
      × ((other : Str)
          → Assoc.get after.skills other ≡ (
              if agent_id_from_context (some metadata) == other
              then some (map kept reported)
              else Assoc.get agents.skills other)))
    ⊎ ((¬ All (HasValidSchema decode) reported) × (answer ≢ ok tt) × (after ≡ agents))
report_skills-all_or_none_example = report_skills-all_or_none decode (some metadata) reported agents

distinct : Assoc.Distinct agents.mqtt_last_seen
unfolding Assoc.get
distinct = (refl, tt)

list_agents_lem_example :
    (list_agents {Struct = Str} some 60 agents
      ≡ map (api_agent some agents (online_agents 60 agents)) agents.allowed_agents)
    × ((a : AllowedAgent)
        → let entry = api_agent {Struct = Str} some agents (online_agents 60 agents) a in
          (entry.id ≡ a.agent_id)
          × (entry.name ≡ a.name)
          × ((entry.online ≡ true) ↔ (
              (t : ℕ) × (Assoc.get agents.mqtt_last_seen a.agent_id ≡ some t)
              × (60 < t + mqtt_presence_stale_after))))
list_agents_lem_example = list_agents_lem some 60 agents distinct

abbrev find_record : Str → Option AuthRecord
find_record token =
    if token == lit "t"
    then some (record { collection = lit "users"; role = lit "operator" })
    else none

-- The second payload of the agent comes before the reader looks, so the first is never read.
abbrev happenings : List Happening
happenings =
    published (lit "a") (lit "1")
    ∷ published (lit "a") (lit "2")
    ∷ takes
    ∷ published (lit "b") (lit "3")
    ∷ takes
    ∷ []

handle_live_lem_example :
    let run = happenings ++ ends ∷ [] in
    let (after, answer) =
      handle_live find_record (lit "Bearer t") (lit "a") true run new_broadcaster in
    (answer ≡ (
      if require_operator find_record (lit "Bearer t")
      then (if lit "a" == [] then err bad_request else ok (frame (lit "2") ∷ []))
      else err unauthorized))
    × (held after (lit "a") 0 ≡ (
        if require_operator find_record (lit "Bearer t")
        then (if lit "a" == [] then held new_broadcaster (lit "a") 0 else none)
        else held new_broadcaster (lit "a") 0))
    × ((require_operator find_record (lit "Bearer t") ≡ false) ⊎ (lit "a" ≡ [])
        → after ≡ new_broadcaster)
unfolding ◌==◌
handle_live_lem_example =
    handle_live_lem find_record (lit "Bearer t") (lit "a") happenings new_broadcaster
