-- ===== src/Journey/Outcome.antt =====
-- A task that core sends to an agent that can run it.
use vantage_core.Prelude.{
  ℕ, ◌≡◌, refl, true, false, ◌∙◌, ap, [], ◌∷◌, Option, some, none, Str, ok, lit, sym, subst, ◌==◌,
  Option-cases, inl, inr,
}
use vantage_core.Prelude.Assoc
use vantage_core.Core.ControlPlane
use vantage_core.Core.ControlPlane.{task_ack_status_to_proto, ack_of, task_status_handler}
use vantage_core.Core.ControlPlane.Messages.{task_status_handler-any_agent}
use vantage_core.Core.Task
use vantage_core.Core.Task.{final, final_status}
use vantage_core.Core.Task.Status
use vantage_core.Core.Task.Status.{TaskStatus}
use vantage_core.Core.Repo.{stamped, get_task_by_id}
use vantage_core.Core.Dispatcher.{TaskDispatcher, task_message, wire, send_task, find_task}
use vantage_core.Core.Dispatcher.Delivery.{Delivers, send_task-eq-ok}
use vantage_core.Core.Dispatcher.OneActive.{active_count, stamped_fields}
use vantage_core.Core.Missions.{MissionRegistry}
use vantage_core.Core.Missions.TaskManager.{acked, on_task_updated}
use vantage_core.Journey.{Codecs, Agree, task_of, read_status}
use vantage_core.Journey.Updates.{
  Works, send_task-Works, on_task_updated-Works, on_task_updated-ends,
}
use vantage_core.Sdk.Mqtt.{Client}
use vantage_core.Sdk.Topic.{Topic, new_task, task_status}
use vantage_core.Sdk.TaskManager.{
  TaskManager, Message, Handler, TaskStatusPayload, publish, ack, started, no_error,
  listen_new_task, outcome, finish,
}
use vantage_core.Sdk.TaskManager.Runs.{job_of, status_publish, listen_new_task-run}
use vantage_core.Sdk.TaskManager.Seen.{IsValid}

-- An agent that can run a task: it has its topic and a client, has not seen the task yet, and has a
-- handler for its type.
pub record Ready (m : TaskManager) (topic : Topic) (t : Task.Task) (h : Handler) : Type 0 where
  pub valid : IsValid m
  pub on_topic : m.topic ≡ topic
  pub client : Client
  pub connected : m.mqtt ≡ some client
  pub unseen : Assoc.get m.seen t.id ≡ none
  pub handled : Assoc.get m.handlers t.type ≡ some h

-- The status that a handler's result stands for.
abbrev pub status_of : Option Str → TaskStatus
status_of none = Status.finished
status_of (some _) = Status.failed

pub proto_of_started : task_ack_status_to_proto (lit "started") ≡ Status.started
unfolding task_ack_status_to_proto ◌==◌
proto_of_started = refl

proto_of_finished : task_ack_status_to_proto (lit "finished") ≡ Status.finished
unfolding task_ack_status_to_proto ◌==◌
proto_of_finished = refl

proto_of_failed : task_ack_status_to_proto (lit "failed") ≡ Status.failed
unfolding task_ack_status_to_proto ◌==◌
proto_of_failed = refl

pub started_is_open : final_status (task_ack_status_to_proto (lit "started")) ≡ false
unfolding task_ack_status_to_proto ◌==◌ final_status
started_is_open = refl

-- A message as core gets it.
abbrev pub received : Str → Str → ControlPlane.Message
received topic b = record { topic = topic; payload = b }

module _ {Stream : Type 0} (c : Codecs) (agree : Agree c) (mr : MissionRegistry Stream)
    (d : TaskDispatcher) (t : Task.Task) (x : Delivers c.encode_task d t) where
  abbrev pub new_task_message : Message
  new_task_message = record { topic = new_task x.topic; payload = x.body }

  abbrev pub ended_as : Handler → TaskStatusPayload
  ended_as h = outcome c.decode_task c.encode_status (job_of new_task_message (task_of (wire t)) h)

  pub proto_of_outcome :
      (h : Handler)
      → task_ack_status_to_proto (read_status (ended_as h)).status ≡ status_of (h x.body)
  proto_of_outcome h = elim (Option-cases (h x.body)) [
    | inl g ↦ rw (g, ended_as, outcome) proto_of_finished
    | inr (e, g) ↦ rw (g, ended_as, outcome) proto_of_failed
  ]

  -- The status updates of core, for the messages that the agent publishes.
  abbrev pub told : ℕ → Str → Str → TaskDispatcher → TaskDispatcher
  told now topic b d' =
      (task_status_handler d.mqtt_topic_prefix c.decode_status mr now (received topic b) d').0

  told-eq :
      (now : ℕ) (topic b : Str) (p : TaskStatusPayload) (d' : TaskDispatcher)
      → task_status x.topic t.id ≡ ok topic
      → c.encode_status p ≡ some b
      → told now topic b d' ≡ (on_task_updated mr now (ack_of t.id (read_status p)) d').0
  told-eq now topic b p d' named e =
      ap (λ r. r.0)
        (task_status_handler-any_agent d.mqtt_topic_prefix t.agent_id t.id topic b x.topic
          (read_status p) c.decode_status mr now d' x.addressed named (agree.statuses p b e))

  pub told-Works :
      (now : ℕ) (topic b : Str) (p : TaskStatusPayload) (d' : TaskDispatcher) (u : Task.Task)
      → Works d'.task_repo u
      → t.id ≡ u.id
      → task_status x.topic t.id ≡ ok topic
      → c.encode_status p ≡ some b
      → final_status (task_ack_status_to_proto (read_status p).status) ≡ false
      → Works (told now topic b d').task_repo (acked u (ack_of t.id (read_status p)))
  told-Works now topic b p d' u w same named e unfinished =
      let a = ack_of t.id (read_status p) in
      subst (λ r. Works r.task_repo (acked u a)) (sym (told-eq now topic b p d' named e))
        (on_task_updated-Works mr now a d' u w same unfinished)

  told-ends :
      (now : ℕ) (topic b : Str) (p : TaskStatusPayload) (d' : TaskDispatcher) (u : Task.Task)
      → Works d'.task_repo u
      → t.id ≡ u.id
      → task_status x.topic t.id ≡ ok topic
      → c.encode_status p ≡ some b
      → final_status (task_ack_status_to_proto (read_status p).status) ≡ true
      → let r = (told now topic b d').task_repo in
        (get_task_by_id r u.id ≡ some (acked u (ack_of t.id (read_status p))))
        × (active_count r u.agent_id ≡ 0)
  told-ends now topic b p d' u w same named e ended =
      let a = ack_of t.id (read_status p) in
      subst
        (λ r.
          (get_task_by_id r.task_repo u.id ≡ some (acked u a))
          × (active_count r.task_repo u.agent_id ≡ 0))
        (sym (told-eq now topic b p d' named e)) (on_task_updated-ends mr now a d' u w same ended)

  ended_is_final : (h : Handler) → final_status (status_of (h x.body)) ≡ true
  unfolding final_status
  ended_is_final h = elim (Option-cases (h x.body)) [
    | inl g ↦ rw (g, status_of) refl
    | inr (e, g) ↦ rw (g, status_of) refl
  ]

  -- Core sends a task that is not final to an agent that has no active task and can run this one, and
  -- every message is delivered. Then the agent publishes that the task has started, and starts the task's job once; core
  -- has the task as started. At the end of the job the agent publishes its outcome and acknowledges the
  -- task; core has the task as finished, or as failed if the handler returned an error, still as one of
  -- this agent, and the agent has no active task, so that it can be sent another.
  pub send_task-outcome :
      (m : TaskManager) (h : Handler) (now started_at ended_at : ℕ) (topic b b' : Str)
      → active_count d.task_repo t.agent_id ≡ 0
      → final t ≡ false
      → Ready m x.topic t h
      → task_status x.topic t.id ≡ ok topic
      → c.encode_status (no_error t.id started) ≡ some b
      → c.encode_status (ended_as h) ≡ some b'
      → let sent = send_task c.encode_task now d t in
        let first = listen_new_task c.decode_task c.encode_status new_task_message m in
        let job = job_of new_task_message (task_of (wire t)) h in
        let ended = finish c.decode_task c.encode_status job first.manager in
        let running = told started_at topic b sent.dispatcher in
        let over = told ended_at topic b' running in
        (sent.published ≡ task_message c.encode_task x.topic x.body ∷ [])
        × (first.effects ≡ publish (status_publish topic b) ∷ [])
        × (first.job ≡ some job)
        × ((u : Task.Task) × (find_task running t.id ≡ some u) × (u.status ≡ Status.started))
        × (ended.effects ≡ publish (status_publish topic b') ∷ ack ∷ [])
        × ((u : Task.Task) × (find_task over t.id ≡ some u)
            × (u.agent_id ≡ t.agent_id)
            × (u.status ≡ status_of (h x.body)))
        × (active_count over.task_repo t.agent_id ≡ 0)
  unfolding find_task
  send_task-outcome m h now started_at ended_at topic b b' idle unfinished ready named e e' =
      let f = stamped_fields now (get_task_by_id d.task_repo t.id) t in
      let u = stamped now (get_task_by_id d.task_repo t.id) t in
      let sent = (send_task c.encode_task now d t).dispatcher in
      let same : t.id ≡ u.id = sym f.0 in
      let p = no_error t.id started in
      let u' = acked u (ack_of t.id (read_status p)) in
      let w =
        told-Works started_at topic b p sent u
          (send_task-Works c.encode_task now d t idle unfinished) same named e started_is_open in
      let running = told started_at topic b sent in
      let (found, free) =
        told-ends ended_at topic b' (ended_as h) running u' w same named e'
          (ap final_status (proto_of_outcome h) ∙ ended_is_final h) in
      let (effects, job, rest) =
        listen_new_task-run c.decode_task c.encode_status new_task_message m (task_of (wire t)) h
          ready.client topic b b' ready.valid (agree.tasks (wire t) x.body x.encoded) ready.unseen
          ready.handled ready.connected (ap (λ y. task_status y t.id) ready.on_topic ∙ named) e
          e' in
      (
        (send_task-eq-ok c.encode_task now d t idle x).1,
        effects,
        job,
        (u', ap (get_task_by_id running.task_repo) same ∙ w.found, proto_of_started),
        rest,
        (
          acked u' (ack_of t.id (read_status (ended_as h))),
          ap (get_task_by_id (told ended_at topic b' running).task_repo) same ∙ found,
          f.1,
          proto_of_outcome h,
        ),
        ap (active_count (told ended_at topic b' running).task_repo) (sym f.1) ∙ free,
      )
