-- ===== src/Sdk/Slamtec/Brake.antt =====
-- The emergency brake of slamtec_robot.go and its subscribers.
use vantage_core.Prelude.{
  ◌≡◌, refl, ap, Bool, List, [], ◌∷◌, ◌++◌, Option, none, some, arith, if◌then◌else◌, Bool-cases,
  inl, inr,
}
use vantage_core.Sdk.Slamtec.{
  SlamtecRobot, RobotHealth, Channel, offer, broadcast_brake, poll_health, brake_ch, same,
}

broadcast_brake-append :
    (b : Bool) (xs ys : List Channel)
    → broadcast_brake b (xs ++ ys) ≡ broadcast_brake b xs ++ broadcast_brake b ys
unfolding broadcast_brake
broadcast_brake-append b [] ys = refl
broadcast_brake-append b (x ∷ xs) ys = ap (◌∷◌ (offer b x)) (broadcast_brake-append b xs ys)

module _ {Number : Type 0} where
  -- The last subscriber, whose channel holds this.
  abbrev pub EndsWith : Channel → SlamtecRobot Number → Type 0
  EndsWith ch r = (others : List Channel) × (r.brake_subs ≡ others ++ ch ∷ [])

  poll_health-unread :
      (got : Option RobotHealth) (old : Bool) (r : SlamtecRobot Number)
      → EndsWith (some old) r
      → EndsWith (some old) (poll_health got r)
  unfolding poll_health broadcast_brake
  poll_health-unread none old r e = e
  poll_health-unread (some h) old r (others, e) =
      elim (Bool-cases (same r.brake_state h.has_system_emergency_stop)) [
        | inl s ↦ (others, ground arith)
        | inr s ↦ (
          broadcast_brake h.has_system_emergency_stop others,
          ground (arith, broadcast_brake-append h.has_system_emergency_stop others (some old ∷ [])),
        )
      ]

  -- The rounds of the health loop.
  pub poll_all : List (Option RobotHealth) → SlamtecRobot Number → SlamtecRobot Number
  poll_all [] r = r
  poll_all (got ∷ rest) r = poll_all rest (poll_health got r)

  poll_all-unread :
      (gots : List (Option RobotHealth)) (old : Bool) (r : SlamtecRobot Number)
      → EndsWith (some old) r
      → EndsWith (some old) (poll_all gots r)
  unfolding poll_all
  poll_all-unread [] old r e = e
  poll_all-unread (got ∷ rest) old r e =
      poll_all-unread rest old (poll_health got r) (poll_health-unread got old r e)

  poll_all-append :
      (xs : List (Option RobotHealth)) (h : RobotHealth) (r : SlamtecRobot Number)
      → (poll_all (xs ++ some h ∷ []) r).brake_state ≡ h.has_system_emergency_stop
  unfolding poll_all poll_health
  poll_all-append [] h r = refl
  poll_all-append (x ∷ xs) h r = poll_all-append xs h (poll_health x r)

  -- A subscriber that has not read yet finds in its channel the state of the brake at its subscription,
  -- however often the brake has changed since then: every change but the first value is dropped, also
  -- when the brake is on by now.
  pub brake_ch-stale :
      (gots : List (Option RobotHealth)) (h : RobotHealth) (r : SlamtecRobot Number)
      → EndsWith (some r.brake_state) (poll_all (gots ++ some h ∷ []) (brake_ch r))
        × ((poll_all (gots ++ some h ∷ []) (brake_ch r)).brake_state ≡ h.has_system_emergency_stop)
  unfolding brake_ch
  brake_ch-stale gots h r = (
    poll_all-unread (gots ++ some h ∷ []) r.brake_state (brake_ch r) (r.brake_subs, refl),
    poll_all-append gots h (brake_ch r),
  )

  -- A subscriber whose channel is empty at a poll gets the new state if the brake has changed, and
  -- nothing otherwise.
  pub poll_health-notifies :
      (h : RobotHealth) (others : List Channel) (r : SlamtecRobot Number)
      → r.brake_subs ≡ others ++ none ∷ []
      → EndsWith
          (if same r.brake_state h.has_system_emergency_stop
            then none
            else some h.has_system_emergency_stop)
          (poll_health (some h) r)
  unfolding poll_health broadcast_brake
  poll_health-notifies h others r e =
      elim (Bool-cases (same r.brake_state h.has_system_emergency_stop)) [
        | inl s ↦ (others, ground arith)
        | inr s ↦ (
          broadcast_brake h.has_system_emergency_stop others,
          ground (arith, broadcast_brake-append h.has_system_emergency_stop others (none ∷ [])),
        )
      ]
