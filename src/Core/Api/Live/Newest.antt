-- ===== src/Core/Api/Live/Newest.antt =====
-- What the reader of a live stream gets.
use vantage_core.Prelude.{
  ℕ, ◌≡◌, refl, ap, Bool, true, false, List, [], ◌∷◌, ◌++◌, Option, none, some, Str, ◌==◌, ==_refl,
  arith, ◌⊎◌, ==_iff, if◌then◌else◌, map, ok, err, Option-cases, inl, inr,
}
use vantage_core.Prelude.Assoc
use vantage_core.Core.Api.Live.{
  Happening, published, takes, ends, frame, emptied, taken, serve, handle_live, unauthorized,
  bad_request,
}
use vantage_core.Core.Api.Operators.{AuthRecord, require_operator}
use vantage_core.Sdk.LinkedList
use vantage_core.Sdk.LinkedList.{find}
use vantage_core.Sdk.LinkedList.Pointers.{find-assign}
use vantage_core.Telemetry.Live.{Broadcaster, channels, subscribe, publish}
use vantage_core.Telemetry.Live.Latest.{held, held-publish, held-unsubscribe, held-subscribe}

-- The payloads that a reader gets who holds the newest unread payload of its agent, and takes it when it
-- looks.
abbrev pub newest : Str → List Happening → Option Str → List Str
newest agent [] unread = []
newest agent (published id p ∷ hs) unread = newest agent hs (if id == agent then some p else unread)
newest agent (takes ∷ hs) none = newest agent hs none
newest agent (takes ∷ hs) (some p) = p ∷ newest agent hs none
newest agent (ends ∷ _) unread = []

abbrev pub has_end : List Happening → Bool
has_end [] = false
has_end (published id p ∷ hs) = has_end hs
has_end (takes ∷ hs) = has_end hs
has_end (ends ∷ _) = true

module _ (agent : Str) (c : ℕ) where
  held-emptied :
      (b : Broadcaster) (x : Option Str)
      → held b agent c ≡ some x
      → held (emptied agent c b) agent c ≡ some none
  unfolding emptied
  held-emptied b x h =
      unfold find in
      ground (
        arith,
        Assoc.get-put b.subs agent agent (LinkedList.assign c none (channels b agent)),
        ==_refl agent,
        find-assign (channels b agent) c c none,
      )

  serve-newest :
      (hs : List Happening) (b : Broadcaster) (unread : Option Str)
      → held b agent c ≡ some unread
      → (serve agent c hs b).1 ≡ map frame (newest agent hs unread)
  unfolding serve
  serve-newest [] b unread h = refl
  serve-newest (published id p ∷ hs) b unread h =
      serve-newest hs (publish id p b) (if id == agent then some p else unread)
        (ground (arith, held-publish b id agent p c))
  serve-newest (takes ∷ hs) b none h = rw (h, serve) (serve-newest hs b none h)
  serve-newest (takes ∷ hs) b (some p) h =
      rw (h, serve)
        (ap (◌∷◌ (frame p)) (serve-newest hs (emptied agent c b) none (held-emptied b (some p) h)))
  serve-newest (ends ∷ hs) b unread h = refl

  serve-ends :
      (hs : List Happening) (b : Broadcaster)
      → has_end hs ≡ true
      → held (serve agent c hs b).0 agent c ≡ none
  unfolding serve
  serve-ends [] b e = cc
  serve-ends (published id p ∷ hs) b e = serve-ends hs (publish id p b) e
  serve-ends (takes ∷ hs) b e = elim (Option-cases (taken (held b agent c))) [
    | inl n ↦ rw (n, serve) (serve-ends hs b e)
    | inr (p, n) ↦ rw (n, serve) (serve-ends hs (emptied agent c b) e)
  ]
  serve-ends (ends ∷ hs) b e = ground (arith, held-unsubscribe b agent agent c c, ==_refl agent)

has_end_of : (hs : List Happening) → has_end (hs ++ ends ∷ []) ≡ true
has_end_of [] = refl
has_end_of (published id p ∷ hs) = has_end_of hs
has_end_of (takes ∷ hs) = has_end_of hs
has_end_of (ends ∷ hs) = refl

module _ (auth : Str → Option AuthRecord) (header agent : Str) (hs : List Happening)
    (b : Broadcaster) where
  -- The request of an operator for an agent gets exactly the payloads of this agent that are published
  -- after the subscription and are the newest at a time when the reader looks, each once, however the
  -- payloads of all agents come in between; when the request ends, its channel is closed. A request
  -- without an agent, or of anybody else, gets an error, and no channel of any agent changes.
  pub handle_live_lem :
      let run = hs ++ ends ∷ [] in
      let (after, answer) = handle_live auth header agent true run b in
      (answer ≡ (
        if require_operator auth header
        then (if agent == [] then err bad_request else ok (map frame (newest agent run none)))
        else err unauthorized))
      × (held after agent b.next ≡ (
          if require_operator auth header
          then (if agent == [] then held b agent b.next else none)
          else held b agent b.next))
      × ((require_operator auth header ≡ false) ⊎ (agent ≡ []) → after ≡ b)
  unfolding handle_live subscribe
  handle_live_lem =
      let run = hs ++ ends ∷ [] in
      let (b', c) = subscribe agent b in
      (
        ground (arith, serve-newest agent c run b' none (held-subscribe b agent [] []).0),
        ground (arith, serve-ends agent c run b' (has_end_of hs)),
        λ e. unchanged e,
      )
    where
      unchanged :
          (require_operator auth header ≡ false) ⊎ (agent ≡ [])
          → (handle_live auth header agent true (hs ++ ends ∷ []) b).0 ≡ b
      unchanged (inl e) = ground arith
      unchanged (inr e) = ground (arith, ==_iff agent [])
