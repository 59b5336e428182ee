-- ===== src/Core/Poses/History.antt =====
-- What cmd/core/service/pose_listener.go keeps of the poses that were reported.
use vantage_core.Prelude.{
  ℕ, ◌≡◌, refl, ap, sym, ◌∙◌, Bool, true, false, ◌&&◌, List, [], ◌∷◌, ◌++◌, Str, ◌==◌, ==_iff,
  filter, map, if◌then◌else◌, ltb, ◌+◌, append-nil, append_assoc, arith,
}
use vantage_core.Prelude.Assoc
use vantage_core.Prelude.Assoc.{Map}
use vantage_core.Core.Poses.{
  LayoutPose, PoseTelemetryEvent, PoseListener, pose_of, or_empty, get_history, on_pose_update,
  is_recent, clean_entry, clean_history,
}

module _ {A : Type 0} where
  filter-append : (f : A → Bool) (xs ys : List A) → filter f (xs ++ ys) ≡ filter f xs ++ filter f ys
  filter-append f [] ys = refl
  filter-append f (x ∷ xs) ys = ground (arith, filter-append f xs ys)

  filter-filter :
      (f g : A → Bool) (xs : List A) → filter g (filter f xs) ≡ filter (λ x. f x && g x) xs
  filter-filter f g [] = refl
  filter-filter f g (x ∷ xs) = ground (arith, filter-filter f g xs)

  filter-true : (xs : List A) → filter (λ x. true) xs ≡ xs
  filter-true [] = refl
  filter-true (x ∷ xs) = ground (arith, filter-true xs)

  filter_choice :
      (f : A → Bool) (b : Bool) (x : A)
      → filter f (if b then x ∷ [] else []) ≡ (if b then filter f (x ∷ []) else [])
  filter_choice f true x = refl
  filter_choice f false x = refl

-- A report of an agent, or a cleaning at a time.
pub data Happening (Number : Type 0) : Type 0 where
  reports : Str → PoseTelemetryEvent Number → Happening Number
  cleans : ℕ → Happening Number

module _ {Number : Type 0} where
  get-clean :
      (keep_for now : ℕ) (m : Map (List (LayoutPose Number))) (id : Str)
      → or_empty (Assoc.get (map (clean_entry keep_for now) m) id)
        ≡ filter (is_recent keep_for now) (or_empty (Assoc.get m id))
  unfolding Assoc.get
  get-clean keep_for now [] id = refl
  get-clean keep_for now ((j, poses) ∷ m) id = ground (arith, get-clean keep_for now m id)

  unfoldable pub after : Happening Number → PoseListener Number → PoseListener Number
  after (reports id e) p = on_pose_update id e p
  after (cleans now) p = clean_history now p

  unfoldable pub after_all : List (Happening Number) → PoseListener Number → PoseListener Number
  after_all [] p = p
  after_all (h ∷ hs) p = after_all hs (after h p)

  -- Whether a pose is younger than the listener keeps it at every cleaning.
  unfoldable pub lasts : ℕ → List (Happening Number) → LayoutPose Number → Bool
  lasts keep_for [] pose = true
  lasts keep_for (reports id e ∷ hs) pose = lasts keep_for hs pose
  lasts keep_for (cleans now ∷ hs) pose =
      ltb now (pose.timestamp + keep_for) && lasts keep_for hs pose

  -- The reports of an agent that are so at every later cleaning, as poses of this agent.
  unfoldable pub lasting : ℕ → Str → List (Happening Number) → List (LayoutPose Number)
  lasting keep_for id [] = []
  lasting keep_for id (reports i e ∷ hs) =
      (if i == id
        then filter (lasts keep_for hs) (
            record {
              agent_id = i;
              layout_id = e.layout_id;
              x = e.x;
              y = e.y;
              yaw = e.yaw;
              timestamp = e.timestamp;
            }
            ∷ [])
        else [])
      ++ lasting keep_for id hs
  lasting keep_for id (cleans now ∷ hs) = lasting keep_for id hs

  pub history-report :
      (id i : Str) (e : PoseTelemetryEvent Number) (p : PoseListener Number)
      → get_history id (on_pose_update i e p)
        ≡ get_history id p ++ (if i == id then pose_of i e ∷ [] else [])
  unfolding get_history on_pose_update
  history-report id i e p = ground (
    arith,
    Assoc.get-put p.history i id (or_empty (Assoc.get p.history i) ++ pose_of i e ∷ []),
    ==_iff i id,
    append-nil (or_empty (Assoc.get p.history id)),
  )

  history-clean :
      (id : Str) (now : ℕ) (p : PoseListener Number)
      → get_history id (clean_history now p) ≡ filter (is_recent p.keep_for now) (get_history id p)
  unfolding get_history clean_history
  history-clean id now p = get-clean p.keep_for now p.history id

  -- After any reports and cleanings, the history of an agent is what it was and what the agent reported
  -- since, in order and field by field, less the poses whose time, at some cleaning after they were
  -- reported, was as long ago as the listener keeps poses, or longer.
  pub get_history-after_all :
      (id : Str) (hs : List (Happening Number)) (p : PoseListener Number)
      → get_history id (after_all hs p)
        ≡ filter (lasts p.keep_for hs) (get_history id p) ++ lasting p.keep_for id hs
  unfolding after_all after lasts lasting on_pose_update clean_history
  get_history-after_all id [] p = sym (append-nil _ ∙ filter-true (get_history id p))
  get_history-after_all id (reports i e ∷ hs) p =
      let f = lasts p.keep_for hs in
      let own = if i == id then pose_of i e ∷ [] else [] in
      get_history-after_all id hs (on_pose_update i e p)
      ∙ ap (λ h. filter f h ++ lasting p.keep_for id hs) (history-report id i e p)
      ∙ ap (λ h. h ++ lasting p.keep_for id hs) (filter-append f (get_history id p) own)
      ∙ append_assoc (filter f (get_history id p)) (filter f own) (lasting p.keep_for id hs)
      ∙ ap (λ h. filter f (get_history id p) ++ (h ++ lasting p.keep_for id hs))
          (filter_choice f (i == id) (pose_of i e))
  get_history-after_all id (cleans now ∷ hs) p =
      get_history-after_all id hs (clean_history now p)
      ∙ ap (λ h. filter (lasts p.keep_for hs) h ++ lasting p.keep_for id hs)
          (history-clean id now p)
      ∙ ap (λ h. h ++ lasting p.keep_for id hs)
          (filter-filter (is_recent p.keep_for now) (lasts p.keep_for hs) (get_history id p))
