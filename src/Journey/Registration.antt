-- ===== src/Journey/Registration.antt =====
-- pkg/agentsdk/server/server.go with cmd/core/controller/agent_registry_http.go and
-- cmd/core/grpc/agent_grpc.go: an agent registers with core, and calls it.
use vantage_core.Prelude.{
  ℕ, ◌≡◌, ◌≢◌, refl, true, Bool, [], ◌∷◌, Option, some, Str, lit, ==_iff, arith, Result, ok, err,
  has_prefix_append, cut_prefix, ap, ◌∙◌,
}
use vantage_core.Prelude.Assoc
use vantage_core.Core.Agents.{AgentRegistry}
use vantage_core.Core.Api.Agents.{
  MqttConfig, RegisterRequest, RegisterResponse, Failure, unauthorized, bad_request,
  internal_server_error, handle_register, bearer,
}
use vantage_core.Core.Api.Agents.Registered.{handle_register-ok}
use vantage_core.Core.Api.AgentStream.{Metadata, Unauthenticated, authenticate_metadata}
use vantage_core.Sdk.Registration.{
  HttpRequest, HttpResponse, ConnectError, ClientRequest, ConnectConfig, ClientConn, connect,
  connect_request, get_request_metadata, read_answer, bearer_header, status_ok, device_request,
  register_device,
}
use vantage_core.Sdk.Topic.{Topic, new_topic}

-- The JSON texts that the two sides exchange.
pub record Texts : Type 0 where
  pub encode_request : ClientRequest → Option Str
  pub decode_request : Str → Option RegisterRequest
  pub encode_response : RegisterResponse → Str
  pub decode_response : Str → Option RegisterResponse

abbrev pub request_of : ClientRequest → RegisterRequest
request_of q = record { skills = q.skills; cameras = q.cameras }

-- Each side reads what the other wrote.
pub record Readable (c : Texts) : Type 0 where
  pub requests :
      (q : ClientRequest) (b : Str)
      → c.encode_request q ≡ some b
      → c.decode_request b ≡ some (request_of q)
  pub responses : (r : RegisterResponse) → c.decode_response (c.encode_response r) ≡ some r

-- The status that `http.Error` sends.
abbrev pub status_of_failure : Failure → ℕ
status_of_failure unauthorized = 401
status_of_failure bad_request = 400
status_of_failure internal_server_error = 500

-- The answer that core writes, but for the text of an error, which no client reads.
abbrev pub written : (RegisterResponse → Str) → Result Failure RegisterResponse → HttpResponse
written encode (err f) = record { status_code = status_of_failure f; body = [] }
written encode (ok resp) = record { status_code = status_ok; body = encode resp }

-- Core's registry and its answer, for the random bytes that it draws.
abbrev pub answer_register :
    Texts
    → MqttConfig
    → Option Str
    → Option Str
    → AgentRegistry
    → HttpRequest
    → AgentRegistry × HttpResponse
answer_register c mqtt drawn drawn_password r q =
    let (r', result) =
      handle_register mqtt drawn drawn_password q.authorization (c.decode_request q.body) r in
    (r', written c.encode_response result)

-- What core gets of a call over a connection that names an agent.
abbrev pub call : ClientConn → Str → Metadata
call conn id = record { authorization = get_request_metadata conn ∷ []; agent_id = id ∷ [] }

cut_bearer : (s : Str) → cut_prefix (bearer_header s) (lit "Bearer ") ≡ some s
unfolding cut_prefix
cut_bearer s = rw (cut_prefix, has_prefix_append (lit "Bearer ") s) refl

module _ (c : Texts) (readable : Readable c) (mqtt : MqttConfig) (token_bytes password_bytes : Str)
    (r : AgentRegistry) (dial : Str → Bool) (config : ConnectConfig) (id b : Str) where
  abbrev pub served : HttpRequest → AgentRegistry × HttpResponse
  served = answer_register c mqtt (some token_bytes) (some password_bytes) r

  abbrev pub after_connect : AgentRegistry
  after_connect = (served (connect_request b config)).0

  abbrev pub connected : Result ConnectError ClientConn
  connected = connect c.encode_request c.decode_response dial (λ q. some (served q).1) config

  abbrev pub authenticated : ClientConn → Result Unauthenticated (Unit {0})
  authenticated conn = authenticate_metadata after_connect.auth_service (some (call conn id))

module _ (c : Texts) (readable : Readable c) (mqtt : MqttConfig) (token_bytes password_bytes : Str)
    (r : AgentRegistry) (key id : Str) where
  -- A device that registers with nothing but a key that core knows, while core speaks MQTT, gets the id of
  -- the key, the broker user of that id and the password that core has stored for it. The skills and
  -- cameras that the id had are gone, since the body of the request is an empty object.
  register_device-ok :
      (t : Topic)
      → key ≢ []
      → Assoc.get r.auth_service.reg_tokens key ≡ some id
      → mqtt.enabled ≡ true
      → new_topic mqtt.topic_prefix id ≡ ok t
      → c.decode_request (lit "{}") ≡ some (record { skills = []; cameras = [] })
      → let served = answer_register c mqtt (some token_bytes) (some password_bytes) r in
        let after = (served (device_request key)).0 in
        (resp : RegisterResponse) × (register_device c.decode_response (λ q. some (served q).1) key
          ≡ ok resp)
        × (resp.agent_id ≡ id)
        × (resp.username ≡ id)
        × (Assoc.get after.auth_service.mqtt_passwords id ≡ some resp.password)
        × (Assoc.get after.skills id ≡ some [])
        × (Assoc.get after.cameras id ≡ some [])
  unfolding bearer register_device device_request read_answer
  register_device-ok t keyed known on legal empty =
      let f : Option RegisterRequest → AgentRegistry × Result Failure RegisterResponse = λ x.
        handle_register mqtt (some token_bytes) (some password_bytes) (bearer_header key) x r in
      let header : bearer (bearer_header key) ≡ some key =
        ground (arith, cut_bearer key, ==_iff key []) in
      let (resp, result, agent, _, user, stored, skills, cameras) =
        handle_register-ok mqtt token_bytes password_bytes (bearer_header key) key id r header known
          (record { skills = []; cameras = [] }) t on legal in
      (
        resp,
        ap (λ x. read_answer c.decode_response (some (written c.encode_response (f x).1))) empty
            ∙ ap (λ x. read_answer c.decode_response (some (written c.encode_response x))) result
            ∙ rw (readable.responses resp) refl,
        agent,
        user,
        ap (λ x. Assoc.get (f x).0.auth_service.mqtt_passwords id) empty ∙ stored,
        ap (λ x. Assoc.get (f x).0.skills id) empty ∙ skills,
        ap (λ x. Assoc.get (f x).0.cameras id) empty ∙ cameras,
      )
