-- ===== src/Sdk/TaskManager/Runs.antt =====
-- What an agent does with a task from its first delivery to the end of its job.
use vantage_core.Prelude.{
  ◌≡◌, refl, ap, ◌∙◌, false, [], ◌∷◌, ◌++◌, Option, none, some, Str, ok, arith, subst, sym,
}
use vantage_core.Prelude.Assoc
use vantage_core.Sdk.Mqtt.{Publish, Client}
use vantage_core.Sdk.Topic.{task_status}
use vantage_core.Sdk.TaskManager.{
  TaskManager, TaskStatusPayload, Task, Job, Message, Handler, track, no_error, started,
  publish_status, publish, ack, listen_new_task, start, outcome, finish,
}
use vantage_core.Sdk.TaskManager.Deliveries.{
  Tracked, recall_new, fields-track, handlers-track, track-Tracked, remember-Tracked,
  outcome-task_id, noted,
}
use vantage_core.Sdk.TaskManager.Seen.{IsValid, first_seen}

-- A status message.
abbrev pub status_publish : Str → Str → Publish
status_publish topic b = record { topic = topic; qos = 1; retained = false; payload = b }

-- The job that a message with a task starts.
abbrev pub job_of : Message → Task → Handler → Job
job_of msg task h = record { task = task; handler = h; message = msg.payload }

module _ (decode : Str → Option Task) (encode : TaskStatusPayload → Option Str) where
  publish_status-some :
      (t : TaskManager) (p : TaskStatusPayload) (c : Client) (topic b : Str)
      → t.mqtt ≡ some c
      → task_status t.topic p.task_id ≡ ok topic
      → encode p ≡ some b
      → publish_status encode t p ≡ publish (status_publish topic b) ∷ []
  unfolding publish_status
  publish_status-some t p c topic b m k e = ground (arith, m, k, e)

  listen_new_task-first :
      (msg : Message) (t : TaskManager) (task : Task) (h : Handler)
      → decode msg.payload ≡ some task
      → Assoc.get t.seen task.id ≡ none
      → Assoc.get t.handlers task.type ≡ some h
      → listen_new_task decode encode msg t ≡ record {
        manager = track task.id t;
        effects = publish_status encode (track task.id t) (no_error task.id started);
        job = some (job_of msg task h);
      }
  unfolding listen_new_task start
  listen_new_task-first msg t task h d new k =
      rw (d, listen_new_task, recall_new task.id t new, handlers-track task.id t, k) refl

  -- An agent that is connected and has a handler for a task that it has not seen yet publishes at the
  -- first delivery that the task has started, and starts one job; at the end of the job it publishes the
  -- outcome of the handler and acknowledges the delivery. Both statuses go to the topic of the task.
  pub listen_new_task-run :
      (msg : Message) (t : TaskManager) (task : Task) (h : Handler) (c : Client) (topic b b' : Str)
      → IsValid t
      → decode msg.payload ≡ some task
      → Assoc.get t.seen task.id ≡ none
      → Assoc.get t.handlers task.type ≡ some h
      → t.mqtt ≡ some c
      → task_status t.topic task.id ≡ ok topic
      → encode (no_error task.id started) ≡ some b
      → encode (outcome decode encode (job_of msg task h)) ≡ some b'
      → let first = listen_new_task decode encode msg t in
        (first.effects ≡ publish (status_publish topic b) ∷ [])
        × (first.job ≡ some (job_of msg task h))
        × ((finish decode encode (job_of msg task h) first.manager).effects
            ≡ publish (status_publish topic b') ∷ ack ∷ [])
  unfolding finish
  listen_new_task-run msg t task h c topic b b' v d new k m ts e e' =
      let j = job_of msg task h in
      let t' = track task.id t in
      let s = first_seen task.id in
      let order = t.seen_order.next in
      let same = fields-track task.id t in
      let connected : t'.mqtt ≡ some c = ap (λ x. x.2) same ∙ m in
      let on_topic : t'.topic ≡ t.topic = ap (λ x. x.1) same in
      let p = outcome decode encode j in
      let i = outcome-task_id decode encode j in
      let w : Tracked t' p.task_id order s =
        subst (λ x. Tracked t' x order s) (sym i) (track-Tracked task.id t v new) in
      rw (listen_new_task-first msg t task h d new k) (
        publish_status-some t' (no_error task.id started) c topic b connected
            (ap (λ x. task_status x task.id) on_topic ∙ ts) e,
        refl,
        rw (remember-Tracked p t' order s w) (
            ap (λ x. x ++ ack ∷ [])
              (publish_status-some (noted p t' order s) p c topic b' connected
                (ap (λ x. task_status t'.topic x) i
                  ∙ (ap (λ x. task_status x task.id) on_topic ∙ ts))
                e')),
      )
