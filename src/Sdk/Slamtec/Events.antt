-- ===== src/Sdk/Slamtec/Events.antt =====
-- The diagnostics of slamtec_robot.go: which events are reported with a failure. The texts of the single
-- events, of the reason and of the dock are left out.
use vantage_core.Prelude.{
  ℕ, zero, suc, ◌+◌, ◌<◌, ◌⊎◌, ◌≡◌, refl, ap, Bool, ◌||◌, List, [], ◌∷◌, ◌++◌, Option, none, some,
  Str, lit, ◌==◌, filter, take, length, leb, nat_eq, if◌then◌else◌, arith, append_assoc, append-nil,
  length-append, length-take, sym, Bool-cases, inl, inr,
}
use vantage_core.Sdk.Slamtec.{RobotEvent}

abbrev pub max_relevant_events : ℕ
max_relevant_events = 5

unfoldable pub is_relevant_docking_event : Str → Bool
is_relevant_docking_event t =
    t == lit "MOVE_TO_LANDING_POINT_FAILED"
    || t == lit "SEARCH_DOCK_FAILED"
    || t == lit "CHARGING_BASE_FAILED"
    || t == lit "DOCK_ID_NOT_FOUND"
    || t == lit "PATH_OCCUPIED"
    || t == lit "ROBOT_BLOCKED"
    || t == lit "CURRENT_POSE_OCCUPIED"
    || t == lit "CLIFF_DETECTED"
    || t == lit "BUMPER_TRIGGERED"
    || t == lit "ON_DOCK"
    || t == lit "OFF_DOCK"

-- The first loop of `summarizeRecentEvents`, which breaks once there are enough.
unfoldable pub relevant_from : List RobotEvent → List RobotEvent → List RobotEvent
relevant_from [] relevant = relevant
relevant_from (e ∷ es) relevant =
    let more = relevant_from es (relevant ++ e ∷ []) in
    let rest = relevant_from es relevant in
    if is_relevant_docking_event e.type
    then (if leb max_relevant_events (length (relevant ++ e ∷ []))
        then relevant ++ e ∷ []
        else more)
    else rest

-- The second loop, from the index `i`.
unfoldable pub first_from : ℕ → List RobotEvent → List RobotEvent → List RobotEvent
first_from i [] relevant = relevant
first_from i (e ∷ es) relevant =
    let rest = first_from (i + 1) es (relevant ++ e ∷ []) in
    if leb max_relevant_events i then relevant else rest

unfoldable pub summarize_recent_events : Option (List RobotEvent) → Option (List RobotEvent)
summarize_recent_events none = none
summarize_recent_events (some es) =
    let relevant = relevant_from es [] in
    some (if nat_eq (length relevant) 0 then first_from 0 es relevant else relevant)

abbrev is_relevant : RobotEvent → Bool
is_relevant e = is_relevant_docking_event e.type

abbrev with_event : List RobotEvent → RobotEvent → List RobotEvent
with_event acc e = acc ++ e ∷ []

nat_cases : (n : ℕ) → (n ≡ 0) ⊎ (0 < n)
nat_cases zero = inl refl
nat_cases (suc n) = inr (omega arith)

nil_of_length : (xs : List RobotEvent) → length xs ≡ 0 → xs ≡ []
nil_of_length [] h = refl
nil_of_length (x ∷ xs) h = absurd (omega arith)

-- `k` more events are wanted after the next one.
relevant_from-eq :
    (es acc : List RobotEvent) (k : ℕ)
    → length acc + suc k ≡ 5
    → relevant_from es acc ≡ acc ++ take (suc k) (filter is_relevant es)
unfolding relevant_from
relevant_from-eq [] acc k h = sym (append-nil acc)
relevant_from-eq (e ∷ es) acc zero h = elim (Bool-cases (is_relevant e)) [
  | inr other ↦ ground (arith, relevant_from-eq es acc zero h)
  | inl is ↦ ground (arith, length-append acc (e ∷ []))
]
relevant_from-eq (e ∷ es) acc (suc k) h = elim (Bool-cases (is_relevant e)) [
  | inr other ↦ ground (arith, relevant_from-eq es acc (suc k) h)
  | inl is ↦
      let n = length-append acc (e ∷ []) in
      ground (
        arith,
        n,
        relevant_from-eq es (with_event acc e) k (omega (arith, n)),
        append_assoc acc (e ∷ []) (take (suc k) (filter is_relevant es)),
      )
]

first_from-eq :
    (i : ℕ) (es acc : List RobotEvent) (k : ℕ) → i + k ≡ 5 → first_from i es acc ≡ acc ++ take k es
unfolding first_from
first_from-eq i [] acc zero h = sym (append-nil acc)
first_from-eq i [] acc (suc k) h = sym (append-nil acc)
first_from-eq i (e ∷ es) acc zero h = ground (arith, append-nil acc)
first_from-eq i (e ∷ es) acc (suc k) h = ground (
  arith,
  first_from-eq (i + 1) es (with_event acc e) k (omega arith),
  append_assoc acc (e ∷ []) (take k es),
)

-- The events that are reported: the first five that are relevant, or the first five of all if none is.
pub summarize_recent_events_lem :
    (es : List RobotEvent)
    → summarize_recent_events (some es)
      ≡ some (
          if nat_eq (length (filter is_relevant es)) 0
          then take 5 es
          else take 5 (filter is_relevant es))
unfolding summarize_recent_events
summarize_recent_events_lem es =
    let r : relevant_from es [] ≡ take 5 (filter is_relevant es) =
      relevant_from-eq es [] 4 (omega arith) in
    rw r (elim (nat_cases (length (filter is_relevant es))) [
      | inl none_left ↦
          rw (nil_of_length (filter is_relevant es) none_left)
            (ap some (first_from-eq 0 es [] 5 (omega arith)))
      | inr left ↦ ground (arith, length-take 5 (filter is_relevant es))
    ])
