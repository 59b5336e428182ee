-- ===== src/Telemetry/Mapping.antt =====
-- cmd/core/telemetry/mapping/mapping.go: what a group's mapping makes of a payload. Times are
-- nanoseconds since 1970. `parse_json` is encoding/json, `parse_rfc3339` is `time.Parse`, `to_int64` is
-- the conversion of a float64, and `describe` and `describe_window` print the details.
pub mod Int
pub mod Paths
pub mod Window
pub mod Apply
use vantage_core.Prelude.{
  ltb, ◌^◌, ℕ, suc, ◌-◌, Bool, true, false, List, [], ◌∷◌, ◌++◌, Option, none, some, Str, lit, ◌==◌,
  nat_eq, leb, length, trim_prefix, if◌then◌else◌, Result, ok, err, ◌||◌,
}
use vantage_core.Prelude.Assoc.{Map}
use vantage_core.Telemetry.Json.{Json, Fields, get_field, object, string, number}
use vantage_core.Telemetry.Mapping.Int.{ℤ, pos, negsuc, ◌-ℤ◌, ◌*ℤ◌}
use vantage_core.Telemetry.Violation.{Violation, bad_timestamp}

pub record Spec : Type 0 where
  pub agent_id : Str
  pub timestamp : Str
  pub timestamp_format : Str
  pub fields : Map Str

pub record Mapped : Type 0 where
  pub agent_id : Str
  pub time : ℤ
  pub received_at : ℤ
  pub fields : Option (Map Json)

-- `strings.Split` at a separator of one byte
abbrev prepend : ℕ → List Str → List Str
prepend a [] = (a ∷ []) ∷ []
prepend a (p ∷ ps) = (a ∷ p) ∷ ps

unfoldable pub split : ℕ → Str → List Str
split c [] = [] ∷ []
split c (a ∷ s) = let rest = split c s in if nat_eq a c then [] ∷ rest else prepend a rest

-- `strings.ReplaceAll` of a byte by a byte
unfoldable pub replace_all : ℕ → ℕ → Str → Str
replace_all c d [] = []
replace_all c d (a ∷ s) = (if nat_eq a c then d else a) ∷ replace_all c d s

abbrev pub dot : ℕ
dot = 46

abbrev pub slash : ℕ
slash = 47

abbrev pub stripped : Str → Str
stripped path = trim_prefix (trim_prefix path (lit "$.")) (lit "$")

unfoldable pub normalize_path : Str → Str
normalize_path path = slash ∷ replace_all dot slash (stripped path)

-- The loop of `extract`.
unfoldable pub walk : List Str → Json → Option Json
walk [] cur = some cur
walk (seg ∷ segs) cur = elim cur [
  | object fs ↦ elim (get_field fs seg) [ none ↦ none | some v ↦ walk segs v ]
  | _ ↦ none
]

unfoldable pub extract : Json → Str → Option Json
extract payload path =
    let p = stripped path in
    if nat_eq (length p) 0 then some payload else walk (split dot p) payload

-- Why a timestamp could not be parsed.
pub data TimeError : Type 0 where
  not_a_string : Json → TimeError
  not_rfc3339 : Str → TimeError
  not_a_number : Json → Str → TimeError
  unknown_format : Str → TimeError

-- 2 ^ 63 - 1 less the seconds from year 1 to 1970
abbrev last_unix_second : ℕ
last_unix_second = 9223371974719179007

module _ (parse_rfc3339 : Str → Option ℤ) (to_int64 : ℕ → ℤ) where
  abbrev parse_string : Json → Result TimeError ℤ
  parse_string (string s) = elim (parse_rfc3339 s) [ none ↦ err (not_rfc3339 s) | some t ↦ ok t ]
  parse_string v = err (not_a_string v)

  -- `time.Unix` counts the seconds from year 1 in an int64, which wraps.
  abbrev unix_seconds : ℤ → ℤ
  unix_seconds (pos n) = if ltb last_unix_second n then pos n -ℤ pos (2 ^ 64) else pos n
  unix_seconds (negsuc n) = negsuc n

  abbrev parse_seconds : Json → Result TimeError ℤ
  parse_seconds (number f) = ok (pos 1000000000 *ℤ unix_seconds (to_int64 f))
  parse_seconds v = err (not_a_number v (lit "unix_s"))

  abbrev parse_milliseconds : Json → Result TimeError ℤ
  parse_milliseconds (number f) = ok (pos 1000000 *ℤ to_int64 f)
  parse_milliseconds v = err (not_a_number v (lit "unix_ms"))

  unfoldable pub parse_timestamp : Json → Str → Result TimeError ℤ
  parse_timestamp v format =
      if nat_eq (length format) 0 || format == lit "rfc3339"
      then parse_string v
      else if format == lit "unix_ms"
      then parse_milliseconds v
      else if format == lit "unix_s"
      then parse_seconds v
      else err (unknown_format format)

-- 2 ^ 63
abbrev pub int64_bound : ℕ
int64_bound = 9223372036854775808

-- `t.Sub(u)`: the difference, or the nearest int64
unfoldable pub saturate : ℤ → ℤ
saturate (pos n) = if leb int64_bound n then pos (int64_bound - 1) else pos n
saturate (negsuc n) = if leb int64_bound n then negsuc (int64_bound - 1) else negsuc n

-- `if diff < 0 { diff = -diff }` on int64, where the least number is its own negative
unfoldable pub magnitude : ℤ → ℤ
magnitude (pos n) = pos n
magnitude (negsuc n) = if nat_eq n (int64_bound - 1) then negsuc n else pos (suc n)

-- 24 hours
abbrev pub sane_window : ℕ
sane_window = 86400000000000

abbrev pub at_most : ℤ → ℕ → Bool
at_most (pos n) m = leb n m
at_most (negsuc _) m = true

unfoldable pub within_sane_window : ℤ → ℤ → Bool
within_sane_window t received_at = at_most (magnitude (saturate (t -ℤ received_at))) sane_window
