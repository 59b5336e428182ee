-- ===== src/Sdk/PoseStream/Recorded.antt =====
-- What core records of the poses that an agent streams.
use vantage_core.Prelude.{
  suc, zero, take, Bool, ℕ, ◌≡◌, refl, ap, ◌∙◌, true, false, ◌&&◌, List, [], ◌∷◌, ◌++◌, Option,
  none, some, Str, ◌==◌, nat_eq, length, map, arith, if◌then◌else◌,
}
use vantage_core.Core.Api.AgentStream.{
  Metadata, Received, pose, eof, failure, flat, matrices_for, get_transformation_matrices,
  report_pose_telemetry, agent_id_from_context,
}
use vantage_core.Core.Api.AgentStream.Access.{events_of, get_history-report_pose_telemetry}
use vantage_core.Core.Config.{AgentLayoutConfig}
use vantage_core.Core.Poses.{LayoutPose, PoseListener, PoseTelemetryEvent, get_history, pose_of}
use vantage_core.Sdk.PoseStream.{
  Arithmetic, StreamPose, Tick, done, sampled, load_matrix, fetch_matrix, apply_affine,
  get_layout_pose, event_of, run,
}
use vantage_core.Sdk.Slamtec.{RobotPose}

module _ {Number : Type 0} where
  -- The first layout of an agent with an id and nine entries.
  abbrev pub layout_for :
      Str → Str → List (AgentLayoutConfig Number) → Option (AgentLayoutConfig Number)
  layout_for id layout_id [] = none
  layout_for id layout_id (l ∷ ls) =
      let rest = layout_for id layout_id ls in
      if l.agent_id == id
        && (l.layout_id == layout_id && nat_eq (length (flat l.transformation_matrix)) 9)
      then some l
      else rest

  -- The samples that are sent.
  abbrev pub samples : List (Tick Number) → List (RobotPose Number × ℕ)
  samples [] = []
  samples (done ∷ _) = []
  samples (sampled rp now false ∷ _) = []
  samples (sampled rp now true ∷ ticks) = (rp, now) ∷ samples ticks

  abbrev with_layout : Option (AgentLayoutConfig Number) → StreamPose Number → StreamPose Number
  with_layout none p = p
  with_layout (some l) p = record p {
    matrix = some (flat l.transformation_matrix);
    north_offset = l.north_offset;
  }

  load_matrix-matrices_for :
      (id : Str) (ls : List (AgentLayoutConfig Number)) (p : StreamPose Number)
      → load_matrix (matrices_for id ls) p ≡ with_layout (layout_for id p.layout_id ls) p
  unfolding load_matrix matrices_for
  load_matrix-matrices_for id [] p = refl
  load_matrix-matrices_for id (l ∷ ls) p = ground (arith, load_matrix-matrices_for id ls p)

  length-layout_for :
      (id layout_id : Str) (ls : List (AgentLayoutConfig Number)) (l : AgentLayoutConfig Number)
      → layout_for id layout_id ls ≡ some l
      → length (flat l.transformation_matrix) ≡ 9
  length-layout_for id layout_id [] l e = cc
  length-layout_for id layout_id (k ∷ ks) l e = ground (arith, length-layout_for id layout_id ks l)

  -- The end of a stream as core sees it.
  abbrev pub ending : Bool → Received Number
  ending broken = if broken then failure else eof

  events_of_poses :
      (broken : Bool) (es : List (PoseTelemetryEvent Number))
      → events_of (map pose es ++ ending broken ∷ []) ≡ es
  events_of_poses true [] = refl
  events_of_poses false [] = refl
  events_of_poses broken (e ∷ es) = ap (◌∷◌ e) (events_of_poses broken es)

map-map :
    {A B C : Type 0} (f : B → C) (g : A → B) (xs : List A)
    → map f (map g xs) ≡ map (λ x. f (g x)) xs
map-map f g [] = refl
map-map f g (x ∷ xs) = ap (◌∷◌ (f (g x))) (map-map f g xs)

map-take : {A B : Type 0} (f : A → B) (n : ℕ) (xs : List A) → map f (take n xs) ≡ take n (map f xs)
map-take f zero xs = refl
map-take f (suc n) [] = refl
map-take f (suc n) (x ∷ xs) = ap (◌∷◌ (f x)) (map-take f n xs)

module _ {Number : Type 0} (a : Arithmetic Number) where
  -- A pose, moved by the two first rows of a matrix and turned by an offset.
  abbrev pub moved_by : Number → List Number → RobotPose Number → RobotPose Number
  moved_by north (m0 ∷ m1 ∷ m2 ∷ m3 ∷ m4 ∷ m5 ∷ _) rp = record {
    x = a.add (a.add (a.mul m0 rp.x) (a.mul m1 rp.y)) m2;
    y = a.add (a.add (a.mul m3 rp.x) (a.mul m4 rp.y)) m5;
    yaw = a.add rp.yaw north;
  }
  moved_by north _ rp = rp

  abbrev pub placed : Option (AgentLayoutConfig Number) → RobotPose Number → RobotPose Number
  placed none rp = rp
  placed (some l) rp = moved_by l.north_offset (flat l.transformation_matrix) rp

  get_layout_pose-some :
      (m : List Number) (north : Number) (p : StreamPose Number) (rp : RobotPose Number)
      → length m ≡ 9
      → get_layout_pose a (record p { matrix = some m; north_offset = north }) rp
        ≡ some (moved_by north m rp)
  unfolding get_layout_pose apply_affine
  get_layout_pose-some [] north p rp h = absurd (omega arith)
  get_layout_pose-some (_ ∷ []) north p rp h = absurd (omega arith)
  get_layout_pose-some (_ ∷ _ ∷ []) north p rp h = absurd (omega arith)
  get_layout_pose-some (_ ∷ _ ∷ _ ∷ []) north p rp h = absurd (omega arith)
  get_layout_pose-some (_ ∷ _ ∷ _ ∷ _ ∷ []) north p rp h = absurd (omega arith)
  get_layout_pose-some (_ ∷ _ ∷ _ ∷ _ ∷ _ ∷ []) north p rp h = absurd (omega arith)
  get_layout_pose-some (_ ∷ _ ∷ _ ∷ _ ∷ _ ∷ _ ∷ m) north p rp h = refl

  run-samples :
      (p : StreamPose Number) (f : RobotPose Number → RobotPose Number) (ticks : List (Tick Number))
      → ((rp : RobotPose Number) → get_layout_pose a p rp ≡ some (f rp))
      → run a p ticks ≡ map (λ s. event_of a p s.1 (f s.0)) (samples ticks)
  unfolding run
  run-samples p f [] h = refl
  run-samples p f (done ∷ ticks) h = refl
  run-samples p f (sampled rp now false ∷ ticks) h = refl
  run-samples p f (sampled rp now true ∷ ticks) h =
      rw (h rp, run) (ap (◌∷◌ (event_of a p now (f rp))) (run-samples p f ticks h))

  run-placed :
      (o : Option (AgentLayoutConfig Number)) (p : StreamPose Number) (ticks : List (Tick Number))
      → p.matrix ≡ none
      → ((l : AgentLayoutConfig Number) → o ≡ some l → length (flat l.transformation_matrix) ≡ 9)
      → run a (with_layout o p) ticks ≡ map (λ s. event_of a p s.1 (placed o s.0)) (samples ticks)
  unfolding get_layout_pose
  run-placed none p ticks e h = run-samples p (λ rp. rp) ticks (λ rp. rw (e, get_layout_pose) refl)
  run-placed (some l) p ticks e h =
      run-samples (with_layout (some l) p) (placed (some l)) ticks
        (λ rp. get_layout_pose-some (flat l.transformation_matrix) l.north_offset p rp (h l refl))

module _ {Number : Type 0} (a : Arithmetic Number) (p : StreamPose Number)
    (layouts : List (AgentLayoutConfig Number)) (auth : List Str) where
  -- The metadata of the agent's calls.
  abbrev pub context : Option Metadata
  context = some (record { authorization = auth; agent_id = p.agent_id ∷ [] })

  -- What core receives when the agent streams these ticks, with the matrices that core gives it: the first
  -- `n` of the events that the agent sends, if there are so many, and the end of the stream, or its break.
  abbrev pub arrives : ℕ → Bool → List (Tick Number) → List (Received Number)
  arrives n broken ticks =
      map pose (
        take n
          (run a (fetch_matrix (some (get_transformation_matrices context [] layouts)) p) ticks))
      ++ ending broken ∷ []

  abbrev chosen : Option (AgentLayoutConfig Number)
  chosen = layout_for p.agent_id p.layout_id layouts

  -- A sample as core records it.
  abbrev pub recorded : RobotPose Number × ℕ → LayoutPose Number
  recorded s =
      let q = placed a chosen s.0 in
      record {
        agent_id = p.agent_id;
        layout_id = p.layout_id;
        x = q.x;
        y = q.y;
        yaw = q.yaw;
        timestamp = s.1;
      }

  fetch_matrix-chosen :
      fetch_matrix (some (get_transformation_matrices context [] layouts)) p ≡ with_layout chosen p
  unfolding fetch_matrix get_transformation_matrices agent_id_from_context ◌==◌
  fetch_matrix-chosen = load_matrix-matrices_for p.agent_id layouts p

  events_of-arrives :
      (n : ℕ) (broken : Bool) (ticks : List (Tick Number))
      → p.matrix ≡ none
      → map (pose_of p.agent_id) (events_of (arrives n broken ticks))
        ≡ take n (map recorded (samples ticks))
  events_of-arrives n broken ticks e =
      let fetched = fetch_matrix (some (get_transformation_matrices context [] layouts)) p in
      let sent_events =
        ap (λ q. run a q ticks) fetch_matrix-chosen
        ∙ run-placed a chosen p ticks e (length-layout_for p.agent_id p.layout_id layouts) in
      ap (map (pose_of p.agent_id))
        (events_of_poses broken (take n (run a fetched ticks)) ∙ ap (take n) sent_events)
      ∙ map-take (pose_of p.agent_id) n
          (map (λ s. event_of a p s.1 (placed a chosen s.0)) (samples ticks))
      ∙ ap (take n) (
          map-map (pose_of p.agent_id) (λ s. event_of a p s.1 (placed a chosen s.0))
            (samples ticks))

  -- From the robot's pose to the history in core: for an agent that starts without a matrix and gets those of core, and whose
  -- stream brings core a beginning of what it sends, whole or not, before it ends or breaks. Core appends
  -- to the agent's history exactly that many of the poses that the agent sampled until its context ended
  -- or a send failed, in order, each with the time of its sample, moved by the first matrix with nine
  -- entries that the settings have for this agent and this layout and turned by its offset, or as the robot
  -- has it where there is no such matrix; and the history of each other agent stays.
  pub get_history-stream_pose :
      (n : ℕ) (broken : Bool) (ticks : List (Tick Number)) (listener : PoseListener Number)
      (other : Str)
      → p.matrix ≡ none
      → get_history other (report_pose_telemetry context (arrives n broken ticks) listener).0
        ≡ get_history other listener
          ++ (if p.agent_id == other then take n (map recorded (samples ticks)) else [])
  unfolding agent_id_from_context
  get_history-stream_pose n broken ticks listener other e =
      get_history-report_pose_telemetry context other (arrives n broken ticks) listener
      ∙ ap (λ l. get_history other listener ++ (if p.agent_id == other then l else []))
          (events_of-arrives n broken ticks e)
