-- ===== src/Core/ControlPlane/Messages.antt =====
-- What the messages of agents do to the tasks and to the presence of agents.
use vantage_core.Prelude.{
  ℕ, ◌+◌, ◌<◌, ◌≡◌, ◌↔◌, ◌⊎◌, inl, inr, refl, false, ◌||◌, Option, none, some, Str, lit, ◌==◌,
  ==_iff, ==_refl, arith, if◌then◌else◌, ok,
}
use vantage_core.Prelude.Assoc
use vantage_core.Core.Task.Status.{cannot_start, started, aborted, failed, finished, unspecified}
use vantage_core.Core.Agents.{
  AgentRegistry, mark_mqtt_online, mark_mqtt_offline, mqtt_presence_stale_after,
}
use vantage_core.Core.Agents.Presence.{IsOnline, IsOnline-iff}
use vantage_core.Core.Dispatcher.{TaskDispatcher}
use vantage_core.Core.Missions.{MissionRegistry}
use vantage_core.Core.Missions.TaskManager.{on_task_updated}
use vantage_core.Core.ControlPlane.{
  TaskStatusPayload, task_ack_status_to_proto, ack_of, status_ack, task_status_handler, on_event,
  presence_handler,
}
use vantage_core.Sdk.Topic.{Topic, new_topic, task_status, agent_id_from_topic}
use vantage_core.Sdk.Topic.RoundTrip.{ids_from_status_topic}

-- A status message is applied to the task that its topic names, whichever agent published it: an
-- agent can so change the status of a task of another agent.
pub task_status_handler-any_agent :
    {Stream : Type 0} (prefix agent_id task_id topic payload : Str) (t : Topic)
    (p : TaskStatusPayload) (decode : Str → Option TaskStatusPayload) (mr : MissionRegistry Stream)
    (now : ℕ) (d : TaskDispatcher)
    → new_topic prefix agent_id ≡ ok t
    → task_status t task_id ≡ ok topic
    → decode payload ≡ some p
    → task_status_handler prefix decode mr now (record { topic = topic; payload = payload }) d
      ≡ on_task_updated mr now (ack_of task_id p) d
unfolding task_status_handler status_ack
task_status_handler-any_agent prefix agent_id task_id topic payload t p decode mr now d made named
      read =
    ground (arith, ids_from_status_topic prefix agent_id t made task_id topic named)

-- Only the five statuses that an agent may send are taken for themselves; any other text stands for
-- no status.
pub task_ack_status_to_proto-cases :
    (s : Str)
    → (task_ack_status_to_proto s ≡ unspecified)
      ⊎ ((s ≡ lit "cannot_start") × (task_ack_status_to_proto s ≡ cannot_start))
      ⊎ ((s ≡ lit "started") × (task_ack_status_to_proto s ≡ started))
      ⊎ ((s ≡ lit "aborted") × (task_ack_status_to_proto s ≡ aborted))
      ⊎ ((s ≡ lit "failed") × (task_ack_status_to_proto s ≡ failed))
      ⊎ ((s ≡ lit "finished") × (task_ack_status_to_proto s ≡ finished))
unfolding task_ack_status_to_proto
task_ack_status_to_proto-cases s = ground (
  arith,
  ==_iff s (lit "cannot_start"),
  ==_iff s (lit "started"),
  ==_iff s (lit "aborted"),
  ==_iff s (lit "failed"),
  ==_iff s (lit "finished"),
)

not_offline :
    ((lit "online" == lit "offline") ≡ false) × ((lit "registered" == lit "offline") ≡ false)
unfolding ◌==◌
not_offline = (refl, refl)

module _ (prefix agent_id payload type : Str) (topic : Str) (decode : Str → Option Str)
    (r : AgentRegistry) (addressed : agent_id_from_topic prefix topic ≡ some agent_id)
    (read : decode payload ≡ some type) (distinct : Assoc.Distinct r.mqtt_last_seen) (now : ℕ) where
  abbrev after : AgentRegistry
  after = presence_handler prefix decode now (record { topic = topic; payload = payload }) r

  last_seen_after :
      (id : Str)
      → Assoc.get after.mqtt_last_seen id ≡ (
          if agent_id == id
          then (if type == lit "offline"
              then none
              else if type == lit "online" || type == lit "registered"
              then some now
              else Assoc.get r.mqtt_last_seen id)
          else Assoc.get r.mqtt_last_seen id)
  unfolding presence_handler on_event mark_mqtt_online mark_mqtt_offline
  last_seen_after id = ground (
    arith,
    Assoc.get-put r.mqtt_last_seen agent_id id now,
    Assoc.get-del r.mqtt_last_seen agent_id id,
  )

  after-Distinct : Assoc.Distinct after.mqtt_last_seen
  unfolding presence_handler on_event mark_mqtt_online mark_mqtt_offline
  after-Distinct = ground (
    arith,
    Assoc.put-Distinct r.mqtt_last_seen agent_id now distinct,
    Assoc.del-Distinct r.mqtt_last_seen agent_id distinct,
  )

  seen_now :
      (type ≡ lit "online") ⊎ (type ≡ lit "registered")
      → Assoc.get after.mqtt_last_seen agent_id ≡ some now
  seen_now (inl e) = ground (
    arith,
    e,
    last_seen_after agent_id,
    ==_refl agent_id,
    not_offline,
    ==_iff type (lit "online"),
  )
  seen_now (inr e) = ground (
    arith,
    e,
    last_seen_after agent_id,
    ==_refl agent_id,
    not_offline,
    ==_iff type (lit "registered"),
  )

  -- An offline event takes its agent off the online agents at once, and for every later time.
  pub presence_handler-offline :
      (later : ℕ) → type ≡ lit "offline" → ¬ IsOnline later after agent_id
  presence_handler-offline later e p =
      let (t, seen, _) = (IsOnline-iff later after agent_id after-Distinct).0 p in
      absurd
        (ground (arith, last_seen_after agent_id, ==_iff type (lit "offline"), ==_refl agent_id))

  -- From an online or registered event on, its agent is online until the staleness bound has passed,
  -- and no longer.
  pub presence_handler-IsOnline :
      (later : ℕ)
      → (type ≡ lit "online") ⊎ (type ≡ lit "registered")
      → IsOnline later after agent_id ↔ (later < now + mqtt_presence_stale_after)
  presence_handler-IsOnline later e =
      let online = IsOnline-iff later after agent_id after-Distinct in
      (
        λ p. let (t, seen, lt) = online.0 p in ground (arith, seen_now e),
        λ lt. online.1 (now, seen_now e, lt),
      )
