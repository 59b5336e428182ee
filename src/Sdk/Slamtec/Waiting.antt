-- ===== src/Sdk/Slamtec/Waiting.antt =====
-- The ends of the waiting loops of slamtec_robot.go.
use vantage_core.Prelude.{
  ℕ, ◌≡◌, ◌↔◌, inl, inr, refl, ap, Bool, true, false, List, [], ◌∷◌, ◌++◌, Option, none, some, ok,
  arith, All, is_some, Option-cases,
}
use vantage_core.Sdk.Slamtec.{ActionInfo, ActionState, JackStatus, int_eq, is_negative}
use vantage_core.Sdk.Slamtec.Actions.{
  Tick, done, deadline, asked, verdict, wait_for_action, submit_action, poll_jack_status,
  action_status_done, action_result_success,
}

-- A tick that does not end the wait for an action: no answer, or one of an action that goes on.
abbrev pub GoesOn : Tick ActionInfo → Type 0
GoesOn done = ⊥
GoesOn deadline = ⊥
GoesOn (asked none) = Unit
GoesOn (asked (some info)) =
    (int_eq info.state.status action_status_done ≡ false) × (is_negative info.state.result ≡ false)

abbrev pub Succeeded : ActionInfo → Type 0
Succeeded i =
    (int_eq i.state.status action_status_done ≡ true)
    × (int_eq i.state.result action_result_success ≡ true)

verdict-ok_iff :
    (s : ActionState)
    → (verdict s ≡ some (ok tt)) ↔ (
        (int_eq s.status action_status_done ≡ true)
        × (int_eq s.result action_result_success ≡ true))
unfolding verdict
verdict-ok_iff s = (λ h. ground arith, λ h. ground arith)

verdict-none_iff :
    (s : ActionState)
    → (verdict s ≡ none)
      ↔ ((int_eq s.status action_status_done ≡ false) × (is_negative s.result ≡ false))
unfolding verdict
verdict-none_iff s = (λ h. (ground arith, ground arith), λ h. ground arith)

-- A wait that succeeds: until an answer that the action has succeeded, each tick lets it go on.
abbrev pub SucceedsAt : List (Tick ActionInfo) → Type 0
SucceedsAt ticks =
    (before : List (Tick ActionInfo)) × (info : ActionInfo) × (rest : List (Tick ActionInfo))
    × (ticks ≡ before ++ asked (some info) ∷ rest)
    × All GoesOn before
    × Succeeded info

later :
    (t : Tick ActionInfo) (ts : List (Tick ActionInfo))
    → GoesOn t
    → SucceedsAt ts
    → SucceedsAt (t ∷ ts)
later t ts g (before, info, rest, e, gs, s) = (t ∷ before, info, rest, ap (◌∷◌ t) e, (g, gs), s)

SucceedsAt-of_ok :
    (ticks : List (Tick ActionInfo)) → wait_for_action ticks ≡ some (ok tt) → SucceedsAt ticks
unfolding wait_for_action
SucceedsAt-of_ok [] h = cc
SucceedsAt-of_ok (done ∷ ts) h = cc
SucceedsAt-of_ok (deadline ∷ ts) h = cc
SucceedsAt-of_ok (asked none ∷ ts) h = later (asked none) ts tt (SucceedsAt-of_ok ts h)
SucceedsAt-of_ok (asked (some info) ∷ ts) h = elim (Option-cases (verdict info.state)) [
  | inl n ↦
      later (asked (some info)) ts ((verdict-none_iff info.state).0 n)
        (SucceedsAt-of_ok ts (ground arith))
  | inr (r, e) ↦ ([], info, ts, refl, tt, (verdict-ok_iff info.state).0 (ground arith))
]

ok_before :
    (before rest : List (Tick ActionInfo)) (info : ActionInfo)
    → All GoesOn before
    → Succeeded info
    → wait_for_action (before ++ asked (some info) ∷ rest) ≡ some (ok tt)
unfolding wait_for_action
ok_before [] rest info gs s = ground (arith, (verdict-ok_iff info.state).1 s)
ok_before (done ∷ ts) rest info (g, gs) s = absurd g
ok_before (deadline ∷ ts) rest info (g, gs) s = absurd g
ok_before (asked none ∷ ts) rest info (g, gs) s = ok_before ts rest info gs s
ok_before (asked (some i) ∷ ts) rest info (g, gs) s =
    rw ((verdict-none_iff i.state).1 g, wait_for_action) (ok_before ts rest info gs s)

-- The wait for an action succeeds exactly if the robot answers at some time that the action is done with
-- result 0, and until then neither the context ends nor the deadline passes nor an answer says that
-- the action is done with another result or has a negative one.
pub wait_for_action-ok_iff :
    (ticks : List (Tick ActionInfo)) → (wait_for_action ticks ≡ some (ok tt)) ↔ SucceedsAt ticks
wait_for_action-ok_iff ticks = (
  SucceedsAt-of_ok ticks,
  λ (before, info, rest, e, gs, s). rw e (ok_before before rest info gs s),
)

-- Whether the deadline passes, or the context ends, at some tick.
abbrev pub has_end : {A : Type 0} → List (Tick A) → Bool
has_end [] = false
has_end (done ∷ ts) = true
has_end (deadline ∷ ts) = true
has_end (asked _ ∷ ts) = has_end ts

wait_for_action_ends :
    (ticks : List (Tick ActionInfo)) → has_end ticks ≡ true → is_some (wait_for_action ticks) ≡ true
unfolding wait_for_action
wait_for_action_ends [] h = cc
wait_for_action_ends (done ∷ ts) h = refl
wait_for_action_ends (deadline ∷ ts) h = refl
wait_for_action_ends (asked none ∷ ts) h = wait_for_action_ends ts h
wait_for_action_ends (asked (some i) ∷ ts) h = ground (arith, wait_for_action_ends ts h)

poll_jack_status_ends :
    (target : ℕ) (ticks : List (Tick JackStatus))
    → has_end ticks ≡ true
    → is_some (poll_jack_status target ticks) ≡ true
unfolding poll_jack_status
poll_jack_status_ends target [] h = cc
poll_jack_status_ends target (done ∷ ts) h = refl
poll_jack_status_ends target (deadline ∷ ts) h = refl
poll_jack_status_ends target (asked none ∷ ts) h = poll_jack_status_ends target ts h
poll_jack_status_ends target (asked (some i) ∷ ts) h =
    ground (arith, poll_jack_status_ends target ts h)

-- Both loops end once the deadline has passed or the context has ended, whatever the robot answers or
-- fails to answer: an action that is submitted then has a result, and so has a poll of the jack.
pub loops_end :
    (created : Option ActionInfo) (ticks : List (Tick ActionInfo)) (target : ℕ)
    (jack : List (Tick JackStatus))
    → has_end ticks ≡ true
    → has_end jack ≡ true
    → (is_some (submit_action (record { created = created; ticks = ticks })) ≡ true)
      × (is_some (poll_jack_status target jack) ≡ true)
unfolding submit_action
loops_end none ticks target jack h k = (refl, poll_jack_status_ends target jack k)
loops_end (some i) ticks target jack h k =
    (ground (arith, wait_for_action_ends ticks h), poll_jack_status_ends target jack k)
