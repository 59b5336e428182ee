-- ===== src/Core/Api/Live.antt =====
-- cmd/core/controller/telemetry_live.go: the telemetry of an agent as server-sent events. A run of the
-- loop is a list of what happens meanwhile, in order.
pub mod Newest
use vantage_core.Core.Api.Operators.{AuthRecord, require_operator}
use vantage_core.Prelude.{
  ℕ, Bool, true, false, List, [], ◌∷◌, ◌++◌, Option, none, some, Str, lit, ◌==◌, Result, ok, err,
  if◌then◌else◌,
}
use vantage_core.Prelude.Assoc
use vantage_core.Sdk.LinkedList
use vantage_core.Telemetry.Live.{Broadcaster, channels, subscribe, unsubscribe, publish}

-- A payload is published for an agent, the `select` takes a payload from the channel if it holds one,
-- or the `select` takes the end of the request.
pub data Happening : Type 0 where
  published : Str → Str → Happening
  takes : Happening
  ends : Happening

-- What the response gets for a payload.
abbrev pub frame : Str → Str
frame payload = lit "event: telemetry" ++ 10 ∷ (lit "data: " ++ (payload ++ 10 ∷ 10 ∷ []))

-- A channel without what it held.
unfoldable pub emptied : Str → ℕ → Broadcaster → Broadcaster
emptied agent c b = record b {
  subs = Assoc.put b.subs agent (LinkedList.assign c none (channels b agent));
}

-- What a receive takes from a channel, if it can take something.
abbrev pub taken : Option (Option Str) → Option Str
taken none = none
taken (some held) = held

-- The loop, up to the `unsubscribe` of the deferred call.
unfoldable pub serve : Str → ℕ → List Happening → Broadcaster → Broadcaster × List Str
unfolding emptied
serve agent c [] b = (b, [])
serve agent c (published id p ∷ hs) b = serve agent c hs (publish id p b)
serve agent c (takes ∷ hs) b = elim (taken (LinkedList.find (channels b agent) c)) [
  | none ↦ serve agent c hs b
  | some p ↦ let (end, frames) = serve agent c hs (emptied agent c b) in (end, frame p ∷ frames)
]
serve agent c (ends ∷ _) b = (unsubscribe agent c b, [])

pub data HttpError : Type 0 where
  unauthorized bad_request internal_server_error : HttpError

abbrev streamed : Str → List Happening → Broadcaster × ℕ → Broadcaster × Result HttpError (List Str)
streamed agent hs (b, c) = let (end, frames) = serve agent c hs b in (end, ok frames)

-- `flushes` says whether the response can be flushed.
unfoldable pub handle_live :
    (Str → Option AuthRecord)
    → Str
    → Str
    → Bool
    → List Happening
    → Broadcaster
    → Broadcaster × Result HttpError (List Str)
unfolding serve
handle_live find header agent flushes hs b =
    if require_operator find header
    then (if agent == []
        then (b, err bad_request)
        else if flushes
        then streamed agent hs (subscribe agent b)
        else (b, err internal_server_error))
    else (b, err unauthorized)
