-- ===== src/Journey/Mission.antt =====
-- What a mission hears of a task that it asked for.
use vantage_core.Prelude.{
  ℕ, ◌≡◌, ◌≢◌, refl, false, ◌∙◌, ap, List, [], ◌∷◌, Option, some, none, Str, ok, sym, arith,
}
use vantage_core.Core.ControlPlane.{ack_of, task_status_handler}
use vantage_core.Core.ControlPlane.Messages.{task_status_handler-any_agent}
use vantage_core.Core.Dispatcher.{TaskDispatcher, send_task}
use vantage_core.Core.Dispatcher.Delivery.{Delivers}
use vantage_core.Core.Dispatcher.OneActive.{active_count, stamped_fields}
use vantage_core.Core.Missions.{MissionRegistry, get_stream}
use vantage_core.Core.Missions.TaskManager.{
  CreateTask, Notice, mission_task, on_create_task, acked, update_of,
}
use vantage_core.Core.Missions.Updates.{notices-on_task_updated, transient_iff, MeansFor-iff}
use vantage_core.Core.Repo.{stamped, get_task_by_id}
use vantage_core.Core.Task
use vantage_core.Core.Task.{
  copy_metadata, transient, final_status, mission_task_status, MissionTaskStatus,
  status_in_progress, status_completed, status_failed,
}
use vantage_core.Core.Task.Status
use vantage_core.Journey.{Codecs, Agree, read_status}
use vantage_core.Journey.Outcome.{
  received, told, told-Works, ended_as, proto_of_outcome, proto_of_started, started_is_open,
  status_of,
}
use vantage_core.Journey.Updates.{Works, send_task-Works}
use vantage_core.Sdk.TaskManager.{Handler, TaskStatusPayload, started, no_error}
use vantage_core.Sdk.Topic.{task_status}

-- The part of a task that a mission is told of.
stamped_mission :
    (now : ℕ) (found : Option Task.Task) (t : Task.Task)
    → ((stamped now found t).mission_id ≡ t.mission_id)
      × ((stamped now found t).mission_context ≡ t.mission_context)
unfolding stamped copy_metadata
stamped_mission now none t = (refl, refl)
stamped_mission now (some f) t = (refl, refl)

-- The status of a mission's task that a handler's result stands for.
abbrev pub told_as : Option Str → MissionTaskStatus
told_as none = status_completed
told_as (some _) = status_failed

-- A notice of a status of the task with this context.
abbrev pub notice : {Stream : Type 0} → Stream → Str → MissionTaskStatus → Notice Stream
notice s context status = record {
  stream = s;
  update = record { mission_context = context; status = status };
}

mission_of_status :
    (u : Task.Task) (r : Option Str)
    → u.status ≡ status_of r
    → (transient u ≡ false) × (mission_task_status u ≡ told_as r)
unfolding transient mission_task_status
mission_of_status u none e = (ground arith, ground arith)
mission_of_status u (some m) e = (ground arith, ground arith)

mission_of_started :
    (u : Task.Task)
    → u.status ≡ Status.started
    → (transient u ≡ false) × (mission_task_status u ≡ status_in_progress)
unfolding transient mission_task_status
mission_of_started u e = (ground arith, ground arith)

module _ {Stream : Type 0} (c : Codecs) (agree : Agree c) (mr : MissionRegistry Stream)
    (d : TaskDispatcher) (t : Task.Task) (x : Delivers c.encode_task d t) where
  -- What core sends to missions for a message that the agent publishes.
  abbrev pub heard : ℕ → Str → Str → TaskDispatcher → List (Notice Stream)
  heard now topic b d' =
      (task_status_handler d.mqtt_topic_prefix c.decode_status mr now (received topic b) d').1

  heard-notice :
      (now : ℕ) (topic b : Str) (p : TaskStatusPayload) (d' : TaskDispatcher) (u : Task.Task)
      (s : Stream)
      → Works d'.task_repo u
      → t.id ≡ u.id
      → task_status x.topic t.id ≡ ok topic
      → c.encode_status p ≡ some b
      → u.mission_id ≢ []
      → get_stream mr u.mission_id ≡ some s
      → transient (acked u (ack_of t.id (read_status p))) ≡ false
      → heard now topic b d'
        ≡ record { stream = s; update = update_of (acked u (ack_of t.id (read_status p))) } ∷ []
  heard-notice now topic b p d' u s w same named e asked stream confirmed =
      let a = ack_of t.id (read_status p) in
      let found : get_task_by_id d'.task_repo t.id ≡ some u =
        ap (get_task_by_id d'.task_repo) same ∙ w.found in
      let n : Notice Stream = record { stream = s; update = update_of (acked u a) } in
      ap (λ r. r.1)
        (task_status_handler-any_agent d.mqtt_topic_prefix t.agent_id t.id topic b x.topic
          (read_status p) c.decode_status mr now d' x.addressed named (agree.statuses p b e))
      ∙ (notices-on_task_updated mr now a d' u found (sym same) n).1 (
        asked,
        (transient_iff (acked u a)).0 confirmed,
        stream,
        refl,
        (MeansFor-iff (acked u a) (mission_task_status (acked u a))).0 refl,
      )

module _ {Stream : Type 0} (c : Codecs) (agree : Agree c) (mr : MissionRegistry Stream)
    (d : TaskDispatcher) (ct : CreateTask) (task_id mission_id agent_id context : Str) where
  -- The task that core makes of the request.
  abbrev pub requested : Task.Task
  requested = mission_task task_id mission_id ct agent_id context

  -- A mission with a stream asks for a task of an agent that has no active task; the task can be delivered,
  -- and the agent publishes that it has started and how it ended. Then core has sent the task for this
  -- request, and the mission hears of it twice: with its own context and the status in progress, and then
  -- completed, or failed if the agent's handler returned an error.
  pub on_create_task-heard :
      (h : Handler) (now started_at ended_at : ℕ) (topic b b' : Str) (s : Stream)
      (x : Delivers c.encode_task d requested)
      → ct.requirement ≡ some agent_id
      → ct.mission_context ≡ some context
      → mission_id ≢ []
      → get_stream mr mission_id ≡ some s
      → active_count d.task_repo agent_id ≡ 0
      → task_status x.topic task_id ≡ ok topic
      → c.encode_status (no_error task_id started) ≡ some b
      → c.encode_status (ended_as c agree mr d requested x h) ≡ some b'
      → let sent = send_task c.encode_task now d requested in
        let running = told c agree mr d requested x started_at topic b sent.dispatcher in
        (on_create_task c.encode_task now task_id mission_id ct d ≡ some sent)
        × (heard c agree mr d requested x started_at topic b sent.dispatcher
            ≡ notice s context status_in_progress ∷ [])
        × (heard c agree mr d requested x ended_at topic b' running
            ≡ notice s context (told_as (h x.body)) ∷ [])
  unfolding on_create_task mission_task final_status
  on_create_task-heard h now started_at ended_at topic b b' s x req ctx asked stream idle named e
        e' =
      let t = requested in
      let sent = (send_task c.encode_task now d t).dispatcher in
      let found = get_task_by_id d.task_repo task_id in
      let u = stamped now found t in
      let m = stamped_mission now found t in
      let same : task_id ≡ u.id = sym (stamped_fields now found t).0 in
      let w = send_task-Works c.encode_task now d t idle refl in
      let p = no_error task_id started in
      let u' = acked u (ack_of task_id (read_status p)) in
      let w' =
        told-Works c agree mr d t x started_at topic b p sent u w same named e started_is_open in
      let q = ended_as c agree mr d t x h in
      let asked' : u.mission_id ≢ [] = λ k. asked (sym m.0 ∙ k) in
      let stream' : get_stream mr u.mission_id ≡ some s = ap (get_stream mr) m.0 ∙ stream in
      let first = mission_of_started u' proto_of_started in
      let u'' = acked u' (ack_of task_id (read_status q)) in
      let last = mission_of_status u'' (h x.body) (proto_of_outcome c agree mr d t x h) in
      (
        rw (req, on_create_task, ctx) refl,
        heard-notice c agree mr d t x started_at topic b p sent u s w same named e asked' stream'
              first.0
            ∙ (ap (λ k. notice s k (mission_task_status u') ∷ []) m.1
                ∙ ap (λ k. notice s context k ∷ []) first.1),
        heard-notice c agree mr d t x ended_at topic b' q
              (told c agree mr d t x started_at topic b sent) u' s w' same named e' asked' stream'
              last.0
            ∙ (ap (λ k. notice s k (mission_task_status u'') ∷ []) m.1
                ∙ ap (λ k. notice s context k ∷ []) last.1),
      )
