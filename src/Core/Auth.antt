-- ===== src/Core/Auth.antt =====
-- cmd/core/service/auth_service.go: registration tokens, auth tokens and broker passwords. The
-- bytes of `rand.Read` are an argument of each call that draws them; `none` is its error.
pub mod Hex
pub mod Tokens
use vantage_core.Prelude.{
  ℕ, Bool, true, false, List, [], ◌∷◌, Option, none, some, Str, ◌==◌, Result, ok, err,
}
use vantage_core.Prelude.Assoc
use vantage_core.Prelude.Assoc.{Map}
use vantage_core.Core.Auth.Hex.{encode_to_string}

pub record AuthService : Type 0 where
  pub reg_tokens : Map Str
  pub auth_tokens : Map Str
  pub mqtt_passwords : Map Str

abbrev pub new_auth_service : AuthService
new_auth_service = record { reg_tokens = []; auth_tokens = []; mqtt_passwords = [] }

unfoldable pub add_reg_token : Str → Str → AuthService → AuthService
add_reg_token id reg_token a = record a { reg_tokens = Assoc.put a.reg_tokens reg_token id }

-- The loop that copies the new table, over the entries in the order of `range`.
unfoldable pub copy_tokens : Map Str → Map Str → Map Str
copy_tokens next [] = next
copy_tokens next ((reg_token, id) ∷ rest) = copy_tokens (Assoc.put next reg_token id) rest

unfoldable pub reset_reg_tokens : Map Str → AuthService → AuthService
reset_reg_tokens reg_tokens a = record a { reg_tokens = copy_tokens [] reg_tokens }

pub data AuthError : Type 0 where
  invalid_registration_token rand_failed : AuthError

unfoldable pub generate_random_hex : Option Str → Result AuthError Str
generate_random_hex none = err rand_failed
generate_random_hex (some b) = ok (encode_to_string b)

abbrev granted :
    Str → AuthService → Result AuthError Str → AuthService × Result AuthError (Str × Str)
granted id a (err e) = (a, err e)
granted id a (ok token) =
    (record a { auth_tokens = Assoc.put a.auth_tokens id token }, ok (id, token))

unfoldable pub exchange_reg_token :
    Option Str → Str → AuthService → AuthService × Result AuthError (Str × Str)
exchange_reg_token drawn reg_token a = elim (Assoc.get a.reg_tokens reg_token) [
  | none ↦ (a, err invalid_registration_token)
  | some id ↦ granted id a (generate_random_hex drawn)
]

unfoldable pub authenticate : Str → Str → AuthService → Bool
authenticate id auth_token a = elim (Assoc.get a.auth_tokens id) [
  | none ↦ false
  | some token ↦ token == auth_token
]

abbrev issued : Str → AuthService → Result AuthError Str → AuthService × Result AuthError Str
issued id a (err e) = (a, err e)
issued id a (ok password) =
    (record a { mqtt_passwords = Assoc.put a.mqtt_passwords id password }, ok password)

unfoldable pub issue_mqtt_credentials :
    Option Str → Str → AuthService → AuthService × Result AuthError Str
issue_mqtt_credentials drawn id a = issued id a (generate_random_hex drawn)
