-- ===== src/Core/Api/Agents/Registered.antt =====
-- What a registration over HTTP leaves behind.
use vantage_core.Prelude.{
  ◌≡◌, refl, true, none, some, Str, ◌==◌, ==_refl, arith, ok, err, false, ◌⊎◌, inl, inr, Bool-cases,
}
use vantage_core.Prelude.Assoc
use vantage_core.Core.Auth
use vantage_core.Core.Auth.Hex.{encode_to_string}
use vantage_core.Core.Agents.{AgentRegistry, exchange_reg_token, issue_mqtt_credentials, register}
use vantage_core.Core.Api.Agents.{
  MqttConfig, RegisterRequest, RegisterResponse, bad_request, bearer, with_credentials,
  plain_response, add_credentials, finish_register, handle_register,
}
use vantage_core.Sdk.Topic.{Topic, new_topic}

module _ (c : MqttConfig) (token_bytes password_bytes auth key id : Str) (r : AgentRegistry)
    (keyed : bearer auth ≡ some key)
    (known : Assoc.get r.auth_service.reg_tokens key ≡ some id) where
  abbrev new_token : Str
  new_token = encode_to_string token_bytes

  -- Where core speaks MQTT, a registration with a known key, a readable body and an id that is a legal
  -- topic level is answered with the id of the key, a token with which that id is let in afterwards,
  -- and a broker user that is the id with the password that is stored for it. The skills and cameras
  -- of the id are then those of the request.
  pub handle_register-ok :
      (body : RegisterRequest) (t : Topic)
      → c.enabled ≡ true
      → new_topic c.topic_prefix id ≡ ok t
      → let (r', result) =
          handle_register c (some token_bytes) (some password_bytes) auth (some body) r in
        (resp : RegisterResponse) × (result ≡ ok resp)
        × (resp.agent_id ≡ id)
        × (Auth.authenticate id resp.token r'.auth_service ≡ true)
        × (resp.username ≡ id)
        × (Assoc.get r'.auth_service.mqtt_passwords id ≡ some resp.password)
        × (Assoc.get r'.skills id ≡ some body.skills)
        × (Assoc.get r'.cameras id ≡ some body.cameras)
  unfolding handle_register exchange_reg_token finish_register add_credentials
      issue_mqtt_credentials register Auth.exchange_reg_token Auth.issue_mqtt_credentials
      Auth.generate_random_hex Auth.authenticate
  handle_register-ok body t on legal = (
    with_credentials c id (plain_response r id new_token) (encode_to_string password_bytes),
    ground arith,
    refl,
    ground (
      arith,
      Assoc.get-put r.auth_service.auth_tokens id id new_token,
      ==_refl id,
      ==_refl new_token,
    ),
    refl,
    ground (
      arith,
      Assoc.get-put r.auth_service.mqtt_passwords id id (encode_to_string password_bytes),
      ==_refl id,
    ),
    ground (arith, Assoc.get-put r.skills id id body.skills, ==_refl id),
    ground (arith, Assoc.get-put r.cameras id id body.cameras, ==_refl id),
  )

  -- The answer has a new token, which is then the auth token of the id.
  abbrev Grants : RegisterRequest → Type 0
  Grants body =
      let (r', result) =
        handle_register c (some token_bytes) (some password_bytes) auth (some body) r in
      (resp : RegisterResponse) × (result ≡ ok resp)
      × (resp.token ≡ encode_to_string token_bytes)
      × (resp.grpc_addr ≡ r.grpc_advertise_addr)
      × (Assoc.get r'.auth_service.auth_tokens id ≡ some (encode_to_string token_bytes))
      × (Assoc.get r'.skills id ≡ some body.skills)
      × (Assoc.get r'.cameras id ≡ some body.cameras)

  Grants-plain : (body : RegisterRequest) → c.enabled ≡ false → Grants body
  unfolding handle_register exchange_reg_token finish_register register Auth.exchange_reg_token
      Auth.generate_random_hex
  Grants-plain body off = (
    plain_response r id new_token,
    ground arith,
    refl,
    refl,
    ground (arith, Assoc.get-put r.auth_service.auth_tokens id id new_token, ==_refl id),
    ground (arith, Assoc.get-put r.skills id id body.skills, ==_refl id),
    ground (arith, Assoc.get-put r.cameras id id body.cameras, ==_refl id),
  )

  Grants-mqtt :
      (body : RegisterRequest) (t : Topic)
      → c.enabled ≡ true
      → new_topic c.topic_prefix id ≡ ok t
      → Grants body
  unfolding handle_register exchange_reg_token finish_register add_credentials
      issue_mqtt_credentials register Auth.exchange_reg_token Auth.issue_mqtt_credentials
      Auth.generate_random_hex
  Grants-mqtt body t on legal = (
    with_credentials c id (plain_response r id new_token) (encode_to_string password_bytes),
    ground arith,
    refl,
    refl,
    ground (arith, Assoc.get-put r.auth_service.auth_tokens id id new_token, ==_refl id),
    ground (arith, Assoc.get-put r.skills id id body.skills, ==_refl id),
    ground (arith, Assoc.get-put r.cameras id id body.cameras, ==_refl id),
  )

  -- With a known key and a readable body, where core speaks no MQTT or the id is a legal topic level, the
  -- registration grants a token.
  pub handle_register-Grants :
      (body : RegisterRequest)
      → (c.enabled ≡ false) ⊎ ((t : Topic) × (new_topic c.topic_prefix id ≡ ok t))
      → Grants body
  handle_register-Grants body (inl off) = Grants-plain body off
  handle_register-Grants body (inr (t, legal)) = elim (Bool-cases c.enabled) [
    | inl on ↦ Grants-mqtt body t on legal
    | inr off ↦ Grants-plain body off
  ]

  -- A registration whose body cannot be read is refused, and yet the id has a new token: one that it
  -- held before, if it differs, no longer lets it in.
  pub handle_register-bad_body :
      (token : Str)
      → ((handle_register c (some token_bytes) (some password_bytes) auth none r).1
          ≡ err bad_request)
        × (Auth.authenticate id token
              (handle_register c
                (some token_bytes)
                (some password_bytes)
                auth
                none
                r).0.auth_service
            ≡ (encode_to_string token_bytes == token))
  unfolding handle_register exchange_reg_token finish_register Auth.exchange_reg_token
      Auth.generate_random_hex Auth.authenticate
  handle_register-bad_body token = (
    ground arith,
    ground (
      arith,
      Assoc.get-put r.auth_service.auth_tokens id id (encode_to_string token_bytes),
      ==_refl id,
    ),
  )
