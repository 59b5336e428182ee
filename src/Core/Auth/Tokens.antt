-- ===== src/Core/Auth/Tokens.antt =====
-- Who is let in, after which calls.
use vantage_core.Prelude.{
  ◌≡◌, ◌⊎◌, refl, [], ◌∷◌, Option, none, some, Str, ◌==◌, ==_iff, ok, err, arith, if◌then◌else◌,
  is_some,
}
use vantage_core.Prelude.Assoc
use vantage_core.Prelude.Assoc.{Map}
use vantage_core.Core.Auth.Hex.{encode_to_string}
use vantage_core.Core.Auth.{
  AuthService, AuthError, invalid_registration_token, rand_failed, copy_tokens, reset_reg_tokens,
  generate_random_hex, exchange_reg_token, authenticate, issue_mqtt_credentials,
}

-- A registration token of the table is exchanged for its id and a token made of the drawn bytes.
-- From then on that id is let in with exactly this token: one issued before, if it differs, no
-- longer works. Every other id is let in as before.
pub authenticate-exchange_reg_token :
    (b reg_token id other token : Str) (a : AuthService)
    → Assoc.get a.reg_tokens reg_token ≡ some id
    → ((exchange_reg_token (some b) reg_token a).1 ≡ ok (id, encode_to_string b))
      × (authenticate other token (exchange_reg_token (some b) reg_token a).0
          ≡ (if id == other then encode_to_string b == token else authenticate other token a))
unfolding exchange_reg_token authenticate generate_random_hex
authenticate-exchange_reg_token b reg_token id other token a h =
    (ground arith, ground (arith, Assoc.get-put a.auth_tokens id other (encode_to_string b)))

-- An exchange fails exactly for a token that is not in the table, or when no bytes can be drawn, and
-- then changes nothing.
pub exchange_reg_token-fails :
    (drawn : Option Str) (reg_token : Str) (a : AuthService) (e : AuthError)
    → (exchange_reg_token drawn reg_token a).1 ≡ err e
    → ((Assoc.get a.reg_tokens reg_token ≡ none) × (e ≡ invalid_registration_token)
        ⊎ (drawn ≡ none) × (e ≡ rand_failed))
      × ((exchange_reg_token drawn reg_token a).0 ≡ a)
unfolding exchange_reg_token generate_random_hex
exchange_reg_token-fails drawn reg_token a e h = (ground arith, ground arith)

get-copy_tokens :
    (next m : Map Str) (k : Str)
    → Assoc.Distinct m
    → Assoc.get (copy_tokens next m) k
      ≡ (if is_some (Assoc.get m k) then Assoc.get m k else Assoc.get next k)
unfolding copy_tokens Assoc.get
get-copy_tokens next [] k h = refl
get-copy_tokens next ((j, id) ∷ m) k (h, hs) =
    ground
      (arith, get-copy_tokens (Assoc.put next j id) m k hs, Assoc.get-put next j k id, ==_iff j k)

-- After a reset with a table, whose keys are distinct, the registration tokens are those of the table
-- and no others, and the auth tokens that were issued before stay good.
pub reset_reg_tokens_lem :
    (m : Map Str) (a : AuthService)
    → Assoc.Distinct m
    → ((reg_token : Str)
        → Assoc.get (reset_reg_tokens m a).reg_tokens reg_token ≡ Assoc.get m reg_token)
      × ((id token : Str) → authenticate id token (reset_reg_tokens m a) ≡ authenticate id token a)
unfolding reset_reg_tokens authenticate
reset_reg_tokens_lem m a h =
    (λ k. ground (arith, get-copy_tokens [] m k h, empty k), λ id token. refl)
  where
    empty : (k : Str) → Assoc.get {V = Str} [] k ≡ none
    empty k = unfold Assoc.get in refl

-- Issuing broker credentials replaces the password of that id alone, and touches no token.
pub issue_mqtt_credentials_lem :
    (b id other : Str) (a : AuthService)
    → ((issue_mqtt_credentials (some b) id a).1 ≡ ok (encode_to_string b))
      × (Assoc.get (issue_mqtt_credentials (some b) id a).0.mqtt_passwords other
          ≡ (if id == other then some (encode_to_string b) else Assoc.get a.mqtt_passwords other))
      × ((token : Str)
          → authenticate other token (issue_mqtt_credentials (some b) id a).0
            ≡ authenticate other token a)
unfolding issue_mqtt_credentials generate_random_hex authenticate
issue_mqtt_credentials_lem b id other a =
    (refl, Assoc.get-put a.mqtt_passwords id other (encode_to_string b), λ token. refl)
