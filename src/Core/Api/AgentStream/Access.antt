-- ===== src/Core/Api/AgentStream/Access.antt =====
-- Who may call the gRPC service, and what its streams and layouts give.
use vantage_core.Prelude.{
  ◌≡◌, ◌≢◌, ◌↔◌, refl, ap, ◌∙◌, Bool, true, false, List, [], ◌∷◌, ◌++◌, Option, some, Str, lit,
  ◌==◌, ==_iff, ok, arith, if◌then◌else◌, cut_prefix, Option-cases, inl, inr, map, append-nil,
  append_assoc,
}
use vantage_core.Prelude.Assoc
use vantage_core.Core.Auth.{AuthService, authenticate}
use vantage_core.Core.Api.AgentStream.{
  Metadata, authenticate_metadata, agent_id_from_context, Received, pose, eof, failure, receive,
  report_pose_telemetry,
}
use vantage_core.Core.Poses.{PoseListener, PoseTelemetryEvent, pose_of, on_pose_update, get_history}
use vantage_core.Core.Poses.History.{history-report}

-- What a call must carry: a bearer token that is not empty, an agent id, and the token that the agent of
-- the metadata got.
abbrev pub HasToken : AuthService → Metadata → Type 0
HasToken a md =
    (value : Str) × (values : List Str) × (token : Str) × (md.authorization ≡ value ∷ values)
    × (cut_prefix value (lit "Bearer ") ≡ some token)
    × (token ≢ [])
    × (md.agent_id ≢ [])
    × (Assoc.get a.auth_tokens (agent_id_from_context (some md)) ≡ some token)

module _ (a : AuthService) (md : Metadata) where
  HasToken-of_ok :
      (vs ids : List Str)
      → md.authorization ≡ vs
      → md.agent_id ≡ ids
      → authenticate_metadata a (some md) ≡ ok tt
      → HasToken a md
  unfolding authenticate_metadata authenticate agent_id_from_context
  HasToken-of_ok [] ids v i h = absurd (ground arith)
  HasToken-of_ok (value ∷ values) [] v i h =
      absurd (ground (arith, Option-cases (cut_prefix value (lit "Bearer "))))
  HasToken-of_ok (value ∷ values) (id ∷ rest) v i h =
      elim (Option-cases (cut_prefix value (lit "Bearer "))) [
        | inl n ↦ absurd (ground arith)
        | inr (token, n) ↦ elim (Option-cases (Assoc.get a.auth_tokens id)) [
          | inl g ↦ absurd (ground arith)
          | inr (t, g) ↦ (
            value,
            values,
            token,
            v,
            n,
            λ e. absurd (ground (arith, ==_iff token [])),
            λ e. absurd (ground arith),
            ground (arith, ==_iff t token),
          )
        ]
      ]

  ok-of_HasToken :
      (ids : List Str)
      → md.agent_id ≡ ids
      → HasToken a md
      → authenticate_metadata a (some md) ≡ ok tt
  unfolding authenticate_metadata authenticate agent_id_from_context
  ok-of_HasToken [] i (value, values, token, v, n, ne, some_id, g) = absurd (some_id i)
  ok-of_HasToken (id ∷ rest) i (value, values, token, v, n, ne, some_id, g) =
      ground (arith, ==_iff token [], ==_iff token token)

-- A call passes exactly if its metadata carry a bearer token that is not empty and is the auth token of
-- the first agent id that they name, which is the agent that the service then acts for.
pub authenticate_metadata-ok_iff :
    (a : AuthService) (md : Metadata) → (authenticate_metadata a (some md) ≡ ok tt) ↔ HasToken a md
authenticate_metadata-ok_iff a md = (
  HasToken-of_ok a md md.authorization md.agent_id refl refl,
  ok-of_HasToken a md md.agent_id refl,
)

both {ℓ} :
    {A : Type ℓ} (b : Bool) (x : A) (xs : List A)
    → (if b then x ∷ [] else []) ++ (if b then xs else []) ≡ (if b then x ∷ xs else [])
both true x xs = refl
both false x xs = refl

module _ {Number : Type 0} where
  -- The events that a stream brings before its end.
  abbrev pub events_of : List (Received Number) → List (PoseTelemetryEvent Number)
  events_of [] = []
  events_of (pose e ∷ rest) = e ∷ events_of rest
  events_of (eof ∷ _) = []
  events_of (failure ∷ _) = []

  get_history-receive :
      (id other : Str) (rs : List (Received Number)) (p : PoseListener Number)
      → get_history other (receive id rs p).0
        ≡ get_history other p ++ (if id == other then map (pose_of id) (events_of rs) else [])
  unfolding receive
  get_history-receive id other [] p = ground (arith, append-nil (get_history other p))
  get_history-receive id other (pose e ∷ rest) p =
      get_history-receive id other rest (on_pose_update id e p)
      ∙ ap (λ h. h ++ (if id == other then map (pose_of id) (events_of rest) else []))
          (history-report other id e p)
      ∙ append_assoc (get_history other p) (if id == other then pose_of id e ∷ [] else [])
          (if id == other then map (pose_of id) (events_of rest) else [])
      ∙ ap (λ h. get_history other p ++ h)
          (both (id == other) (pose_of id e) (map (pose_of id) (events_of rest)))
  get_history-receive id other (eof ∷ _) p = ground (arith, append-nil (get_history other p))
  get_history-receive id other (failure ∷ _) p = ground (arith, append-nil (get_history other p))

  -- A pose stream appends what it brings before its end, in order, to the history of the agent of its
  -- metadata, and leaves the other agents' histories alone.
  pub get_history-report_pose_telemetry :
      (ctx : Option Metadata) (other : Str) (rs : List (Received Number)) (p : PoseListener Number)
      → get_history other (report_pose_telemetry ctx rs p).0
        ≡ get_history other p
          ++ (if agent_id_from_context ctx == other
              then map (pose_of (agent_id_from_context ctx)) (events_of rs)
              else [])
  unfolding report_pose_telemetry
  get_history-report_pose_telemetry ctx other rs p =
      get_history-receive (agent_id_from_context ctx) other rs p
