-- ===== src/Sdk/Slamtec/Lift.antt =====
-- What EnterLift of slamtec_robot.go does in which order.
use vantage_core.Prelude.{
  ◌≡◌, ◌↔◌, ◌≢◌, refl, List, [], ◌∷◌, ◌++◌, none, some, Str, lit, ok, err, arith,
}
use vantage_core.Sdk.Slamtec.{Elevator, RobotPose}
use vantage_core.Sdk.Slamtec.Actions.{
  Action, enter_elevator, rotate, move_to, Attempt, Outcome, submit_action,
  new_move_to_action_xy_yaw,
}
use vantage_core.Telemetry.Mapping.Int.{pos}
use vantage_core.Sdk.Slamtec.Skills.{
  success, Done, and_then, front_action, enter_elevator_at, enter_lift,
}

-- What was submitted is the beginning of a plan.
abbrev pub Begins : {A : Type 0} → List A → List A → Type 0
Begins {A} xs plan = (rest : List A) × (xs ++ rest ≡ plan)

module _ {Number : Type 0} where
  and_then-Begins :
      (a : Action Number) (o : Outcome) (rest : Done Number) (plan : List (Action Number))
      → Begins rest.0 plan
      → Begins (and_then a o rest).0 (a ∷ plan)
  and_then-Begins a none rest plan h = (plan, refl)
  and_then-Begins a (some (err e)) rest plan h = (plan, refl)
  and_then-Begins a (some (ok _)) (xs, r) plan (more, e) = (more, ground arith)

  and_then-success :
      (a : Action Number) (o : Outcome) (rest : Done Number)
      → ((and_then a o rest).1 ≡ some success) ↔ ((o ≡ some (ok tt)) × (rest.1 ≡ some success))
  and_then-success a none rest = (λ h. cc, λ h. cc)
  and_then-success a (some (err e)) rest = (λ h. ground arith, λ h. ground arith)
  and_then-success a (some (ok _)) (xs, r) = (λ h. (refl, h), λ h. h.1)

module _ {Number : Type 0} (zero_float pi : Number) where
  -- The robot is sent before the elevator, into it, and then turned round.
  abbrev pub plan_of : Str → RobotPose Number → List (Action Number)
  plan_of elevator front =
      move_to (record {
        target = record {
          building = [];
          floor = [];
          pose = record { x = front.x; y = front.y; yaw = zero_float };
        };
        move_options = record {
          mode = pos 2;
          yaw = front.yaw;
          flags = lit "with_yaw" ∷ [];
          acceptable_precision = pos 0;
          max_retry_count = pos 0;
        };
      })
      ∷ enter_elevator elevator
      ∷ rotate pi
      ∷ []

  abbrev pub plan_for : Str → List (RobotPose Number) → List (Action Number)
  plan_for elevator [] = []
  plan_for elevator (front ∷ _) = plan_of elevator front

  abbrev Succeeds : List (RobotPose Number) → Attempt → Attempt → Attempt → Type 0
  Succeeds poses t t' t'' =
      (poses ≢ [])
      × (submit_action t ≡ some (ok tt))
      × (submit_action t' ≡ some (ok tt))
      × (submit_action t'' ≡ some (ok tt))

  enter_elevator_at-plan :
      (elevator : Str) (poses : List (RobotPose Number)) (t t' t'' : Attempt)
      → let entered = enter_elevator_at zero_float pi t t' t'' elevator poses in
        Begins entered.0 (plan_for elevator poses)
        × ((entered.1 ≡ some success) ↔ Succeeds poses t t' t'')
  unfolding new_move_to_action_xy_yaw
  enter_elevator_at-plan elevator [] t t' t'' = (([], refl), (λ h. cc, λ h. absurd (h.0 refl)))
  enter_elevator_at-plan elevator (front ∷ others) t t' t'' =
      let move = front_action zero_float front in
      let enter = enter_elevator elevator in
      let last : Done Number = and_then (rotate pi) (submit_action t'') ([], some success) in
      let rest : Done Number = and_then enter (submit_action t') last in
      let moved = and_then-success move (submit_action t) rest in
      let entered = and_then-success enter (submit_action t') last in
      let turned = and_then-success (rotate pi) (submit_action t'') ([], some success) in
      (
        and_then-Begins move (submit_action t) rest (enter ∷ rotate pi ∷ []) (
            and_then-Begins enter (submit_action t') last (rotate pi ∷ [])
              (and_then-Begins (rotate pi) (submit_action t'') ([], some success) [] ([], refl))),
        (
          λ h.
              let p = moved.0 h in
              let q = entered.0 p.1 in (λ e. absurd (ground arith), p.0, q.0, (turned.0 q.1).0),
          λ (_, p, q, r). moved.1 (p, entered.1 (q, turned.1 (r, refl))),
        ),
      )

  -- What is submitted is always the beginning of the plan for the elevator's first pose in front of it:
  -- to go there and face as this pose does, to enter the elevator and to turn by the given angle; and it
  -- is nothing for an elevator that is not fetched or has no such pose. The skill succeeds exactly if the
  -- elevator is fetched, has such a pose, and all three actions succeed.
  pub enter_lift-plan :
      (e : Elevator Number) (t t' t'' : Attempt)
      → let entered = enter_lift zero_float pi (some e) t t' t'' in
        Begins entered.0 (plan_for e.id e.front_scheduling_poses)
        × ((entered.1 ≡ some success) ↔ Succeeds e.front_scheduling_poses t t' t'')
        × ((enter_lift zero_float pi none t t' t'').0 ≡ [])
        × ((enter_lift zero_float pi none t t' t'').1 ≢ some success)
  unfolding enter_lift
  enter_lift-plan e t t' t'' =
      let (begins, succeeds) = enter_elevator_at-plan e.id e.front_scheduling_poses t t' t'' in
      (begins, succeeds, refl, λ h. cc)
