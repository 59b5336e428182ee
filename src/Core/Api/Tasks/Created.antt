-- ===== src/Core/Api/Tasks/Created.antt =====
-- What `CreateTask` answers, and what can be read afterwards.
use vantage_core.Prelude.{
  ℕ, ◌≤◌, ◌≡◌, ◌≢◌, ◌⊎◌, inl, inr, ap, [], Option, none, some, Str, ==_iff, arith, Option-cases, ok,
  err, length,
}
use vantage_core.Core.Task.Status.{draft}
use vantage_core.Core.Repo.{stamped}
use vantage_core.Core.Dispatcher.{TaskDispatcher, WireTask, find_task}
use vantage_core.Core.Dispatcher.OneActive.{active_count, send_task-busy_iff, stamped_fields}
use vantage_core.Core.Dispatcher.Delivery.{send_task-ok, wire-stamped}
use vantage_core.Core.Api.Tasks.{
  invalid_argument, failed_precondition, Codec, CreateTaskRequest, ApiTask, struct_to_bytes,
  requested_task, task_model_to_proto, create_task, find, code_of,
}

module _ {Struct : Type 0} (c : Codec Struct) (encode : WireTask → Option Str) (now : ℕ) (id : Str)
    (msg : CreateTaskRequest Struct) (d : TaskDispatcher) where
  -- A request with no agent or no type, or with a payload that cannot be encoded, is refused as
  -- invalid, with no task saved and nothing published.
  pub create_task-invalid :
      (msg.agent_id ≡ []) ⊎ (msg.type ≡ []) ⊎ (struct_to_bytes c msg.payload ≡ none)
      → create_task c encode now id msg d
        ≡ record { dispatcher = d; published = []; response = err invalid_argument }
  unfolding create_task
  create_task-invalid h = ground (arith, ==_iff msg.agent_id [], ==_iff msg.type [])

  -- A valid request for an agent with an active task fails its precondition, with no task saved and
  -- nothing published.
  pub create_task-busy :
      (payload : Str)
      → msg.agent_id ≢ []
      → msg.type ≢ []
      → struct_to_bytes c msg.payload ≡ some payload
      → 1 ≤ active_count d.task_repo msg.agent_id
      → create_task c encode now id msg d
        ≡ record { dispatcher = d; published = []; response = err failed_precondition }
  unfolding create_task code_of requested_task
  create_task-busy payload a t p busy = ground (
    arith,
    ==_iff msg.agent_id [],
    ==_iff msg.type [],
    send_task-busy_iff encode now d (requested_task c id msg payload),
  )

  -- A request that is answered with an id has published one message, and the task is found under
  -- that id: a draft for the agent and with the type of the request.
  pub find-create_task :
      (answer : Str)
      → (create_task c encode now id msg d).response ≡ ok answer
      → (answer ≡ id)
        × (length (create_task c encode now id msg d).published ≡ 1)
        × ((t : ApiTask Struct) × (find c (create_task c encode now id msg d).dispatcher answer
              ≡ ok t)
            × (t.id ≡ id)
            × (t.agent_id ≡ msg.agent_id)
            × (t.type ≡ msg.type)
            × (t.status ≡ draft))
  unfolding create_task find requested_task task_model_to_proto
  find-create_task answer h = elim (Option-cases (struct_to_bytes c msg.payload)) [
    | inl e ↦ absurd (ground arith)
    | inr (payload, e) ↦
        let t = requested_task c id msg payload in
        let kept = stamped now (find_task d id) t in
        let sent = send_task-ok encode now d t (ground arith) in
        let fields = stamped_fields now (find_task d id) t in
        (
          ground arith,
          ground (arith, sent),
          (
            task_model_to_proto c kept,
            ground (arith, sent),
            fields.0,
            fields.1,
            ap (λ (w : WireTask). w.type) (wire-stamped now (find_task d id) t),
            fields.2,
          ),
        )
  ]
