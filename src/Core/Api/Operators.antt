-- ===== src/Core/Api/Operators.antt =====
-- cmd/core/controller/pbauth.go: who may read telemetry. `find` is FindAuthRecordByToken.
use vantage_core.Prelude.{
  Bool, false, ◌||◌, [], Option, none, some, Str, lit, ◌==◌, cut_prefix, get_or, if◌then◌else◌,
}

pub record AuthRecord : Type 0 where
  pub collection : Str
  pub role : Str

-- A header without the prefix is taken whole.
unfoldable pub bearer_token : Str → Str
bearer_token header = get_or (cut_prefix header (lit "Bearer ")) header

unfoldable pub is_admin : AuthRecord → Bool
is_admin r = r.collection == lit "_superusers" || r.role == lit "admin"

unfoldable pub is_operator_or_above : AuthRecord → Bool
unfolding is_admin
is_operator_or_above r = is_admin r || r.role == lit "operator"

module _ (find : Str → Option AuthRecord) where
  unfoldable pub authenticate_pb : Str → Option AuthRecord
  unfolding bearer_token
  authenticate_pb header =
      let token = bearer_token header in if token == [] then none else find token

  abbrev allows : Option AuthRecord → Bool
  allows none = false
  allows (some r) = is_operator_or_above r

  -- Whether the interceptor lets a call through.
  unfoldable pub require_operator : Str → Bool
  unfolding authenticate_pb is_operator_or_above
  require_operator header = allows (authenticate_pb header)
