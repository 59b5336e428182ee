-- ===== src/Core/Api/Missions/Streams.antt =====
-- Who may open the stream of a mission, and when a mission is online.
use vantage_core.Prelude.{
  ◌≡◌, ◌↔◌, ◌⊎◌, inl, inr, true, List, [], ◌∷◌, ◌++◌, Option, none, some, Str, ==_iff, ==_refl,
  arith, Option-cases, ok,
}
use vantage_core.Prelude.Assoc
use vantage_core.Core.Auth
use vantage_core.Core.Auth.Hex.{encode_to_string}
use vantage_core.Core.Dispatcher.{TaskDispatcher, WireTask}
use vantage_core.Core.Missions.{
  MissionRegistry, authenticate, attach_stream, detach_stream, get_stream, exchange_reg_token,
  register,
}
use vantage_core.Core.Missions.TaskManager.{CreateTask, on_create_task}
use vantage_core.Core.Api.Agents.{bearer}
use vantage_core.Core.Api.Missions.{
  Received, create_task, other, Moment, handle_register, authenticate_mission_metadata, receive,
}

-- A mission that registered with a known key and a readable body may open its stream with the token
-- that it was answered, named as the mission of the key, and with no other token.
pub authenticate-handle_register :
    {Stream : Type 0} (mr : MissionRegistry Stream) (addr b auth key id header token : Str)
    → bearer auth ≡ some key
    → Assoc.get mr.auth_service.reg_tokens key ≡ some id
    → bearer header ≡ some token
    → (authenticate_mission_metadata
          (handle_register addr (some b) auth true mr).0
          (some (record { authorization = header ∷ []; mission_id = id ∷ [] }))
        ≡ ok tt)
      ↔ (token ≡ encode_to_string b)
unfolding handle_register authenticate_mission_metadata exchange_reg_token authenticate register
    Auth.exchange_reg_token Auth.authenticate Auth.generate_random_hex
authenticate-handle_register mr addr b auth key id header token keyed known sent = (
  λ h. ground (
    arith,
    Assoc.get-put mr.auth_service.auth_tokens id id (encode_to_string b),
    ==_refl id,
    ==_iff (encode_to_string b) token,
  ),
  λ h. ground (
    arith,
    Assoc.get-put mr.auth_service.auth_tokens id id (encode_to_string b),
    ==_refl id,
    ==_iff (encode_to_string b) token,
  ),
)

-- A mission that opens a second stream before its first one ends is offline once the first one ends:
-- the end of a stream takes away whatever stream the mission holds.
pub get_stream-detach_older :
    {Stream : Type 0} (mr : MissionRegistry Stream) (id : Str) (older newer : Stream)
    → (get_stream (attach_stream id newer (attach_stream id older mr)) id ≡ some newer)
      × (get_stream (detach_stream id (attach_stream id newer (attach_stream id older mr))) id
          ≡ none)
unfolding get_stream detach_stream attach_stream
get_stream-detach_older mr id older newer =
    let streams = Assoc.put mr.streams id older in
    (
      ground (arith, Assoc.get-put streams id id newer, ==_refl id),
      ground (arith, Assoc.get-del (Assoc.put streams id newer) id id, ==_refl id),
    )

-- A request of a mission that names no agent, or has no mission context, is read through nil: the
-- stream panics, whatever was received before or comes after it.
pub receive-panics :
    (encode : WireTask → Option Str) (id : Str) (before : List (Moment × Received)) (m : Moment)
    (ct : CreateTask) (rest : List (Moment × Received)) (d : TaskDispatcher)
    → (ct.requirement ≡ none) ⊎ (ct.mission_context ≡ none)
    → receive encode id (before ++ (m, create_task ct) ∷ rest) d ≡ none
unfolding receive
receive-panics encode id [] m ct rest d h = unfold on_create_task in ground arith
receive-panics encode id ((n, other) ∷ before) m ct rest d h =
    receive-panics encode id before m ct rest d h
receive-panics encode id ((n, create_task x) ∷ before) m ct rest d h =
    elim (Option-cases (on_create_task encode n.now n.task_id id x d)) [
      | inl e ↦ ground arith
      | inr (s, e) ↦ ground (arith, receive-panics encode id before m ct rest s.dispatcher h)
    ]
