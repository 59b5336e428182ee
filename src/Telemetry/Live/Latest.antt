-- ===== src/Telemetry/Live/Latest.antt =====
-- What subscribers find in their channels.
use vantage_core.Prelude.{
  ℕ, ◌≡◌, refl, true, List, [], ◌∷◌, Option, none, some, is_some, Str, ◌==◌, ==_iff, ==_refl,
  nat_eq, if◌then◌else◌, length, arith, Option-cases, Bool-cases, inl, inr,
}
use vantage_core.Prelude.Assoc
use vantage_core.Sdk.LinkedList.{find, without}
use vantage_core.Sdk.LinkedList.Pointers.{find-without}
use vantage_core.Telemetry.Live.{
  Broadcaster, channels, subscribe, unsubscribe, send_latest, send_all, publish,
}

-- What a channel of an agent holds.
abbrev pub held : Broadcaster → Str → ℕ → Option (Option Str)
held b agent c = find (channels b agent) c

find-send_all :
    (payload : Str) (cs : List (ℕ × Option Str)) (c : ℕ)
    → find (send_all payload cs) c ≡ (if is_some (find cs c) then some (some payload) else none)
unfolding find send_latest
find-send_all payload [] c = ground arith
find-send_all payload ((d, none) ∷ cs) c = ground (arith, find-send_all payload cs c)
find-send_all payload ((d, some old) ∷ cs) c = ground (arith, find-send_all payload cs c)

-- After a payload is published for an agent, each channel of the agent holds this payload, whatever
-- it held before, and the channels of all other agents hold what they held.
pub held-publish :
    (b : Broadcaster) (agent other payload : Str) (c : ℕ)
    → held (publish agent payload b) other c ≡ (
        if agent == other
        then (if is_some (held b other c) then some (some payload) else none)
        else held b other c)
unfolding publish
held-publish b agent other payload c = elim (Option-cases (Assoc.get b.subs agent)) [
  | inl e ↦ unfold find in ground (arith, ==_iff agent other)
  | inr (cs, e) ↦
      unfold find in
      ground (
        arith,
        ==_iff agent other,
        Assoc.get-put b.subs agent other (send_all payload cs),
        find-send_all payload cs c,
      )
]

find_nothing : (cs : List (ℕ × Option Str)) (c : ℕ) → nat_eq (length cs) 0 ≡ true → find cs c ≡ none
unfolding find
find_nothing [] c h = refl
find_nothing (x ∷ cs) c h = absurd (ground arith)

-- A channel is closed to its agent once it is unsubscribed, and every other channel stays.
pub held-unsubscribe :
    (b : Broadcaster) (agent other : Str) (c d : ℕ)
    → held (unsubscribe agent c b) other d
      ≡ (if agent == other then (if nat_eq c d then none else held b other d) else held b other d)
unfolding unsubscribe
held-unsubscribe b agent other c d =
    let rest = without (channels b agent) c in
    let gone = find-without (channels b agent) c d in
    elim (Bool-cases (nat_eq (length rest) 0)) [
      | inl e ↦
          rw (e, unsubscribe)
            (unfold find in
              ground (
                arith,
                ==_iff agent other,
                Assoc.get-del b.subs agent other,
                find_nothing rest d,
                gone,
              ))
      | inr e ↦
          rw (e, unsubscribe)
            (unfold find in
              ground (arith, ==_iff agent other, Assoc.get-put b.subs agent other rest, gone))
    ]

-- A new subscriber finds nothing before a payload is published for its agent, and then the newest.
pub held-subscribe :
    (b : Broadcaster) (agent first newest : Str)
    → let (b', c) = subscribe agent b in
      (held b' agent c ≡ some none)
      × (held (publish agent newest (publish agent first b')) agent c ≡ some (some newest))
unfolding subscribe
held-subscribe b agent first newest =
    let (b', c) = subscribe agent b in
    let new : held b' agent c ≡ some none =
      unfold find in
      ground (
        arith,
        ==_refl agent,
        Assoc.get-put b.subs agent agent ((b.next, none) ∷ channels b agent),
      ) in
    (
      new,
      ground (
        arith,
        ==_refl agent,
        held-publish (publish agent first b') agent agent newest c,
        held-publish b' agent agent first c,
      ),
    )
