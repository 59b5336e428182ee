-- ===== src/Telemetry/Query.antt =====
-- cmd/core/telemetry/query/query.go: reading the rows of an agent in pages. The rows are what the
-- database returns for the agent without a bound, in the order of the query (`ORDER BY time ASC`). The
-- zero time is 0. A bucket is the function of time that `time_bucket` is at one width. `encode` and
-- `decode` are base64 of the time in the format RFC3339Nano, at which `encodeToken` and `decodeToken`
-- are called.
pub mod Ascending
pub mod Buckets
pub mod Pages
use vantage_core.Prelude.{
  ℕ, suc, zero, ◌+◌, Bool, ◌&&◌, not, List, [], ◌∷◌, Option, none, some, Str, ltb, leb, nat_eq,
  take, length, filter, get_last?, Result, ok, err, if◌then◌else◌, lit,
}
use vantage_core.Telemetry.Store.{Values}

pub record Point : Type 0 where
  pub agent_id : Str
  pub time : ℕ
  pub received_at : ℕ
  pub group_id : Str
  pub schema_hash : Str
  pub valid : Option Bool
  pub fields : Option Str
  pub payload : Str

abbrev pub default_limit : ℕ
default_limit = 1000

abbrev pub max_limit : ℕ
max_limit = 5000

unfoldable pub clamp : ℕ → ℕ
clamp limit =
    let l = if leb limit 0 then default_limit else limit in if ltb max_limit l then max_limit else l

pub data QueryError : Type 0 where
  agent_id_required invalid_page_token : QueryError

abbrev pub Page : Type 0
Page = List Point × Str

abbrev pub between : ℕ → ℕ → List Point → List Point
between from to rows = filter (λ p. ltb from p.time && ltb p.time to) rows

-- `DISTINCT ON` the bucket of a time, over rows in the order of time, where the rows of a bucket stand
-- together: the last row of each bucket.
unfoldable pub last_per_bucket : (ℕ → ℕ) → List Point → List Point
last_per_bucket bucket [] = []
last_per_bucket bucket (p ∷ []) = p ∷ []
last_per_bucket bucket (p ∷ q ∷ ps) =
    let rest = last_per_bucket bucket (q ∷ ps) in
    if nat_eq (bucket p.time) (bucket q.time) then rest else p ∷ rest

-- The rows that `Query` reads, but for its limit; without a bucket each row is read.
abbrev pub selected : Option (ℕ → ℕ) → List Point → List Point
selected none ps = ps
selected (some bucket) ps = last_per_bucket bucket ps

module _ (encode : ℕ → Str) (decode : Str → Option ℕ) where
  unfoldable pub decode_token : Str → Option ℕ
  decode_token [] = some 0
  decode_token (b ∷ s) = decode (b ∷ s)

  -- What the rows that were read become: one more than `limit` was asked for.
  unfoldable pub page_of : ℕ → List Point → Page
  page_of limit points =
      if ltb limit (length points)
      then (
        take limit points,
        elim (get_last? (take limit points)) [ none ↦ [] | some p ↦ encode p.time ],
      )
      else (points, [])

  -- `from`, or the time of the token where it is later
  abbrev pub resume : ℕ → ℕ → ℕ
  resume from after = if not (nat_eq after 0) && ltb from after then after else from

  -- `Query`; `bucket` is the bucket of a time, or `none` without buckets.
  unfoldable pub query :
      Option (ℕ → ℕ) → List Point → Str → ℕ → ℕ → ℕ → Str → Result QueryError Page
  query bucket rows agent from to limit token =
      if nat_eq (length agent) 0 then err agent_id_required else elim (decode_token token) [
        | none ↦ err invalid_page_token
        | some after ↦ ok (
            page_of (clamp limit)
              (take (suc (clamp limit)) (selected bucket (between (resume from after) to rows))))
      ]
