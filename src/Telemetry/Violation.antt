-- ===== src/Telemetry/Violation.antt =====
-- cmd/core/telemetry/validate/violation.go: violations, and the hash that groups the equal ones.
-- `sha256` is crypto/sha256. JSON values are their bytes.
use vantage_core.Core.Auth.Hex.{encode_to_string}
use vantage_core.Prelude.{
  Bool, true, false, List, [], ◌∷◌, ◌++◌, Str, lit, ltb, nat_eq, take, if◌then◌else◌, ◌&&◌, ◌||◌,
}

pub data Kind : Type 0 where
  missing_required type_mismatch constraint not_json no_contract schema_contract_mismatch
        bad_timestamp :
      Kind

pub record Violation : Type 0 where
  pub agent_id : Str
  pub group_id : Str
  pub schema_hash : Str
  pub kind : Kind
  pub paths : List Str
  pub detail : Str
  pub sample : Str

abbrev pub kind_string : Kind → Str
kind_string missing_required = lit "missing_required"
kind_string type_mismatch = lit "type_mismatch"
kind_string constraint = lit "constraint"
kind_string not_json = lit "not_json"
kind_string no_contract = lit "no_contract"
kind_string schema_contract_mismatch = lit "schema_contract_mismatch"
kind_string bad_timestamp = lit "bad_timestamp"

-- `a <= b` on strings
unfoldable pub str_le : Str → Str → Bool
str_le [] t = true
str_le (a ∷ s) [] = false
str_le (a ∷ s) (b ∷ t) = ltb a b || nat_eq a b && str_le s t

-- `sort.Strings`
unfoldable pub insert : Str → List Str → List Str
insert s [] = s ∷ []
insert s (t ∷ l) = if str_le s t then s ∷ t ∷ l else t ∷ insert s l

unfoldable pub sort_strings : List Str → List Str
sort_strings [] = []
sort_strings (s ∷ l) = insert s (sort_strings l)

-- The bytes that are hashed for the paths: each path behind a zero byte.
abbrev pub hashed : List Str → Str
hashed [] = []
hashed (p ∷ ps) = 0 ∷ p ++ hashed ps

unfoldable pub signature : (Str → Str) → Violation → Str
signature sha256 v =
    take 16 (encode_to_string (sha256 (kind_string v.kind ++ hashed (sort_strings v.paths))))
