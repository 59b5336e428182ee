-- ===== src/Telemetry/Live.antt =====
-- cmd/core/telemetry/live/live.go: the payloads of an agent go to its subscribers. A channel holds at
-- most one payload; its reader may take a payload at any time, also while `Publish` runs.
pub mod Latest
use vantage_core.Prelude.{
  ℕ, suc, Bool, true, false, List, [], ◌∷◌, Option, none, some, Str, nat_eq, if◌then◌else◌, get_or,
  length, map,
}
use vantage_core.Prelude.Assoc
use vantage_core.Prelude.Assoc.{Map}
use vantage_core.Sdk.LinkedList
use vantage_core.Sdk.LinkedList.{LinkedList}

-- `next` is the channel that is made next. A set of channels has each with what it holds.
pub record Broadcaster : Type 0 where
  pub next : ℕ
  pub subs : Map (List (ℕ × Option Str))

abbrev pub new_broadcaster : Broadcaster
new_broadcaster = record { next = 0; subs = [] }

abbrev pub channels : Broadcaster → Str → List (ℕ × Option Str)
channels b agent = get_or (Assoc.get b.subs agent) []

unfoldable pub subscribe : Str → Broadcaster → Broadcaster × ℕ
subscribe agent b = (
  record { next = suc b.next; subs = Assoc.put b.subs agent ((b.next, none) ∷ channels b agent) },
  b.next,
)

unfoldable pub unsubscribe : Str → ℕ → Broadcaster → Broadcaster
unsubscribe agent c b =
    let rest = LinkedList.without (channels b agent) c in
    record b {
      subs = if nat_eq (length rest) 0 then Assoc.del b.subs agent else Assoc.put b.subs agent rest;
    }

-- A send in `select` with a default: whether it was done, and what the channel holds then.
abbrev pub try_send : Str → Option Str → Bool × Option Str
try_send payload none = (true, some payload)
try_send payload (some old) = (false, some old)

abbrev resend : Str → Bool × Option Str → Option Str
resend payload (true, held) = held
resend payload (false, held) = (try_send payload none).1

-- One channel in `Publish`. Whether the stale payload is dropped or the reader has taken it, the
-- channel is empty before the second send.
unfoldable pub send_latest : Str → Option Str → Option Str
send_latest payload held = resend payload (try_send payload held)

abbrev pub send_all : Str → List (ℕ × Option Str) → List (ℕ × Option Str)
send_all payload [] = []
send_all payload ((c, held) ∷ cs) = (c, send_latest payload held) ∷ send_all payload cs

unfoldable pub publish : Str → Str → Broadcaster → Broadcaster
publish agent payload b = elim (Assoc.get b.subs agent) [
  | none ↦ b
  | some cs ↦ record b { subs = Assoc.put b.subs agent (send_all payload cs) }
]
