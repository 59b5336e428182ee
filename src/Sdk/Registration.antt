-- ===== src/Sdk/Registration.antt =====
-- pkg/agentsdk/registration.go and pkg/agentsdk/server/server.go: how an agent registers with core over
-- HTTP, and the credentials of its gRPC calls. `encode` and `decode` are the JSON texts, `post` is what the
-- HTTP client gives for a request, or `none` for its error, and `dial` tells whether `grpc.NewClient`
-- takes an address.
use vantage_core.Prelude.{
  ℕ, Bool, List, ◌++◌, Option, none, some, Str, lit, not, nat_eq, Result, ok, err, if◌then◌else◌,
}
use vantage_core.Core.Agents.{AgentSkill, CameraConfig}
use vantage_core.Core.Api.Agents.{RegisterResponse}

-- The header and the body of a `POST` to the path `/agents/register`.
pub record HttpRequest : Type 0 where
  pub authorization : Str
  pub body : Str

pub record HttpResponse : Type 0 where
  pub status_code : ℕ
  pub body : Str

pub data ConnectError : Type 0 where
  not_encoded no_answer not_decoded not_dialed : ConnectError
  rejected : ℕ → ConnectError

abbrev pub status_ok : ℕ
status_ok = 200

abbrev pub bearer_header : Str → Str
bearer_header key = lit "Bearer " ++ key

abbrev decoded : Option RegisterResponse → Result ConnectError RegisterResponse
decoded none = err not_decoded
decoded (some resp) = ok resp

-- What both clients make of the answer.
unfoldable pub read_answer :
    (Str → Option RegisterResponse) → Option HttpResponse → Result ConnectError RegisterResponse
read_answer decode none = err no_answer
read_answer decode (some resp) =
    if not (nat_eq resp.status_code status_ok)
    then err (rejected resp.status_code)
    else decoded (decode resp.body)

-- The request of `Register`
unfoldable pub device_request : Str → HttpRequest
device_request key = record { authorization = bearer_header key; body = lit "{}" }

-- `Register`
unfoldable pub register_device :
    (Str → Option RegisterResponse)
    → (HttpRequest → Option HttpResponse)
    → Str
    → Result ConnectError RegisterResponse
unfolding device_request read_answer
register_device decode post key = read_answer decode (post (device_request key))

-- `registerRequest` of the client, but for its event sources, which are none.
pub record ClientRequest : Type 0 where
  pub id : Str
  pub name : Str
  pub skills : List AgentSkill
  pub cameras : List CameraConfig

pub record ConnectConfig : Type 0 where
  pub agent_id : Str
  pub key : Str
  pub name : Str
  pub skills : List AgentSkill
  pub cameras : List CameraConfig

abbrev pub client_request : ConnectConfig → ClientRequest
client_request config = record {
  id = config.agent_id;
  name = config.name;
  skills = config.skills;
  cameras = config.cameras;
}

-- `grpc.ClientConn`: where it leads, and the token of its `tokenCreds`.
pub record ClientConn : Type 0 where
  pub addr : Str
  pub token : Str

-- `GetRequestMetadata` of the credentials: the value of `authorization`.
unfoldable pub get_request_metadata : ClientConn → Str
get_request_metadata conn = bearer_header conn.token

abbrev dialed : (Str → Bool) → Result ConnectError RegisterResponse → Result ConnectError ClientConn
dialed dial (err e) = err e
dialed dial (ok resp) =
    if dial resp.grpc_addr
    then ok (record { addr = resp.grpc_addr; token = resp.token })
    else err not_dialed

abbrev pub connect_request : Str → ConnectConfig → HttpRequest
connect_request body config = record { authorization = bearer_header config.key; body = body }

-- `Connect`
unfoldable pub connect :
    (ClientRequest → Option Str)
    → (Str → Option RegisterResponse)
    → (Str → Bool)
    → (HttpRequest → Option HttpResponse)
    → ConnectConfig
    → Result ConnectError ClientConn
unfolding read_answer
connect encode decode dial post config = elim (encode (client_request config)) [
  | none ↦ err not_encoded
  | some body ↦ dialed dial (read_answer decode (post (connect_request body config)))
]
