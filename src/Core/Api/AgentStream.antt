-- ===== src/Core/Api/AgentStream.antt =====
-- cmd/core/grpc/agent_grpc.go and cmd/core/service/schema.go: the service that agents call over gRPC.
-- `Number` stands for float64, and `decode` is `json.Unmarshal` into `any`.
pub mod Skills
pub mod Access
use vantage_core.Prelude.{
  Bool, true, false, List, [], ◌∷◌, ◌++◌, Option, none, some, Str, lit, ◌==◌, cut_prefix, Result,
  ok, err, if◌then◌else◌,
}
use vantage_core.Core.Agents.{AgentRegistry, AgentSkill, set_skills}
use vantage_core.Core.Auth.{AuthService, authenticate}
use vantage_core.Core.Config.{AgentLayoutConfig}
use vantage_core.Core.Poses.{PoseListener, PoseTelemetryEvent, on_pose_update}
use vantage_core.Telemetry.Json.{Json}
use vantage_core.Telemetry.Json

-- gRPC metadata: the values of `authorization` and of `agent_id`.
pub record Metadata : Type 0 where
  pub authorization : List Str
  pub agent_id : List Str

pub data Unauthenticated : Type 0 where
  missing_metadata missing_authorization invalid_format missing_agent_id invalid_token :
      Unauthenticated

abbrev pub check_agent : AuthService → Str → List Str → Result Unauthenticated (Unit {0})
check_agent a token [] = err missing_agent_id
check_agent a token (id ∷ _) = if authenticate id token a then ok tt else err invalid_token

abbrev check_token : AuthService → Metadata → Option Str → Result Unauthenticated (Unit {0})
check_token a md none = err invalid_format
check_token a md (some token) =
    if token == [] then err invalid_format else check_agent a token md.agent_id

abbrev check_authorization : AuthService → Metadata → List Str → Result Unauthenticated (Unit {0})
check_authorization a md [] = err missing_authorization
check_authorization a md (value ∷ _) = check_token a md (cut_prefix value (lit "Bearer "))

-- The check of both interceptors.
unfoldable pub authenticate_metadata :
    AuthService → Option Metadata → Result Unauthenticated (Unit {0})
authenticate_metadata a none = err missing_metadata
authenticate_metadata a (some md) = check_authorization a md md.authorization

abbrev first_or_empty : List Str → Str
first_or_empty [] = []
first_or_empty (id ∷ _) = id

unfoldable pub agent_id_from_context : Option Metadata → Str
agent_id_from_context none = []
agent_id_from_context (some md) = first_or_empty md.agent_id

pub data SchemaError : Type 0 where
  is_empty is_not_json is_not_object_or_bool : SchemaError

abbrev check_json : Option Json → Result SchemaError (Unit {0})
check_json none = err is_not_json
check_json (some (Json.object _)) = ok tt
check_json (some (Json.boolean _)) = ok tt
check_json (some _) = err is_not_object_or_bool

unfoldable pub validate_schema : (Str → Option Json) → Str → Result SchemaError (Unit {0})
validate_schema decode schema = if schema == [] then err is_empty else check_json (decode schema)

-- agentv1.Skill
pub record ReportedSkill : Type 0 where
  pub type : Str
  pub payload_schema : Str

-- The skill that an InvalidArgument error names.
pub record InvalidSkill : Type 0 where
  pub type : Str
  pub error : SchemaError

abbrev pub skill_of : ReportedSkill → AgentSkill
skill_of sk = record { name = sk.type; payload = sk.payload_schema }

abbrev with_skill :
    ReportedSkill → Result InvalidSkill (List AgentSkill) → Result InvalidSkill (List AgentSkill)
with_skill sk (err e) = err e
with_skill sk (ok skills) = ok (skill_of sk ∷ skills)

module _ (decode : Str → Option Json) where
  abbrev checked_skill :
      ReportedSkill
      → Result InvalidSkill (List AgentSkill)
      → Result SchemaError (Unit {0})
      → Result InvalidSkill (List AgentSkill)
  checked_skill sk rest (err e) = err (record { type = sk.type; error = e })
  checked_skill sk rest (ok _) = with_skill sk rest

  -- The loop of `ReportSkills`.
  unfoldable pub skills_of : List ReportedSkill → Result InvalidSkill (List AgentSkill)
  unfolding validate_schema
  skills_of [] = ok []
  skills_of (sk ∷ sks) = checked_skill sk (skills_of sks) (validate_schema decode sk.payload_schema)

  abbrev store_skills :
      Str
      → AgentRegistry
      → Result InvalidSkill (List AgentSkill)
      → AgentRegistry × Result InvalidSkill (Unit {0})
  store_skills id r (err e) = (r, err e)
  store_skills id r (ok skills) = (set_skills id skills r, ok tt)

  unfoldable pub report_skills :
      Option Metadata
      → List ReportedSkill
      → AgentRegistry
      → AgentRegistry × Result InvalidSkill (Unit {0})
  report_skills ctx sks r = store_skills (agent_id_from_context ctx) r (skills_of sks)

-- What `Recv` returns: an event, the end of the stream, or an error.
pub data Received (Number : Type 0) : Type 0 where
  pose : PoseTelemetryEvent Number → Received Number
  eof : Received Number
  failure : Received Number

-- How a stream ends.
pub data Ended : Type 0 where
  closed failed : Ended

pub record TransformationMatrix (Number : Type 0) : Type 0 where
  pub layout_id : Str
  pub matrix : List Number
  pub north_offset : Number

module _ {Number : Type 0} where
  -- The loop over what the stream receives. Without an end it waits for more.
  unfoldable pub receive :
      Str → List (Received Number) → PoseListener Number → PoseListener Number × Option Ended
  receive id [] p = (p, none)
  receive id (pose e ∷ rest) p = receive id rest (on_pose_update id e p)
  receive id (eof ∷ _) p = (p, some closed)
  receive id (failure ∷ _) p = (p, some failed)

  unfoldable pub report_pose_telemetry :
      Option Metadata
      → List (Received Number)
      → PoseListener Number
      → PoseListener Number × Option Ended
  unfolding receive
  report_pose_telemetry ctx received p = receive (agent_id_from_context ctx) received p

  abbrev pub flat : List (List Number) → List Number
  flat [] = []
  flat (row ∷ rows) = row ++ flat rows

  abbrev pub matrix_of : AgentLayoutConfig Number → TransformationMatrix Number
  matrix_of l = record {
    layout_id = l.layout_id;
    matrix = flat l.transformation_matrix;
    north_offset = l.north_offset;
  }

  -- The loop of `GetTransformationMatrices`.
  unfoldable pub matrices_for :
      Str → List (AgentLayoutConfig Number) → List (TransformationMatrix Number)
  matrices_for id [] = []
  matrices_for id (l ∷ ls) =
      let rest = matrices_for id ls in if l.agent_id == id then matrix_of l ∷ rest else rest

  unfoldable pub get_transformation_matrices :
      Option Metadata → Str → List (AgentLayoutConfig Number) → List (TransformationMatrix Number)
  unfolding matrices_for
  get_transformation_matrices ctx agent_id layouts =
      matrices_for (if agent_id == [] then agent_id_from_context ctx else agent_id) layouts
