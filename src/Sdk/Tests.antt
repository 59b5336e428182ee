-- ===== src/Sdk/Tests.antt =====
-- Topics, and an agent that gets tasks.
use vantage_core.Prelude.{
  ◌≡◌, refl, true, List, [], ◌∷◌, ◌++◌, Option, none, some, Str, lit, has_prefix, has_suffix,
  contains_byte, ◌==◌, ok, arith,
}
use vantage_core.Prelude.Assoc
use vantage_core.Sdk.LinkedList
use vantage_core.Sdk.LinkedList.{LinkedList}
use vantage_core.Sdk.Mqtt.{Client}
use vantage_core.Sdk.Topic.{
  Topic, new_topic, valid_topic_segment, task_status, base, agent_id_from_topic,
  task_id_from_status_topic,
}
use vantage_core.Sdk.Topic.RoundTrip.{ids_from_status_topic}
use vantage_core.Sdk.TaskManager.{
  TaskManager, Task, TaskStatusPayload, Handler, Job, Message, ack, started, no_error,
  publish_status, recall, track, evict_oldest, evict_from, start, remember, set_status,
  listen_new_task, finish,
}
use vantage_core.Sdk.TaskManager.Seen.{IsValid, first_seen}
use vantage_core.Sdk.TaskManager.Deliveries.{listen_new_task-finish, listen_new_task-unknown_type}
use vantage_core.Sdk.TaskManager.Once.{
  Event, deliver, complete, started_ids, AllDifferent, started_ids-AllDifferent,
}

abbrev topic : Topic
topic = record { prefix = lit "p"; agent_id = lit "a" }

made : new_topic (lit "p") (lit "a") ≡ ok topic
unfolding new_topic valid_topic_segment has_prefix has_suffix contains_byte ◌==◌
made = refl

abbrev status_of_1 : Str
status_of_1 = lit "p/agent/a/task/1/status"

named : task_status topic (lit "1") ≡ ok status_of_1
unfolding task_status base valid_topic_segment contains_byte ◌==◌
named = refl

ids_from_status_topic_example :
    (agent_id_from_topic (lit "p") status_of_1 ≡ some (lit "a"))
    × (task_id_from_status_topic (lit "p") status_of_1 ≡ some (lit "1"))
ids_from_status_topic_example =
    ids_from_status_topic (lit "p") (lit "a") topic made (lit "1") status_of_1 named

abbrev move : Task
move = record { id = lit "1"; type = lit "move"; payload = [] }

abbrev decode : Str → Option Task
decode s = some (record move { id = s })

abbrev encode : TaskStatusPayload → Option Str
encode p = some p.task_id

abbrev succeeds : Handler
succeeds s = none

abbrev sends : Client
sends p = true

abbrev fresh : TaskManager
fresh = record {
  handlers = (lit "move", succeeds) ∷ [];
  topic = topic;
  mqtt = some sends;
  seen = [];
  seen_order = LinkedList.empty;
}

new_IsValid : (hs : Assoc.Map Handler) → IsValid (record fresh { handlers = hs })
unfolding Assoc.get LinkedList.find
new_IsValid hs = record {
  agrees = record {
    distinct = tt;
    fresh = tt;
    pointed = λ k e h. absurd (ground arith);
    mapped = λ e s h. absurd (ground arith);
  };
  bounded = omega arith;
}

abbrev msg : Message
msg = record { topic = lit "p/agent/a/task/new"; payload = lit "1" }

abbrev job : Job
job = record { task = move; handler = succeeds; message = lit "1" }

abbrev events : List Event
events = deliver msg ∷ deliver msg ∷ complete job ∷ deliver msg ∷ []

-- One job is started, by the first delivery.
started_once : started_ids decode encode events fresh ≡ lit "1" ∷ []
unfolding started_ids listen_new_task recall track evict_oldest evict_from start finish remember
    set_status LinkedList.to_front LinkedList.find LinkedList.without LinkedList.assign Assoc.get
    Assoc.put ◌==◌
started_once = refl

started_ids-AllDifferent_example : AllDifferent (started_ids decode encode events fresh)
started_ids-AllDifferent_example =
    started_ids-AllDifferent decode encode events fresh (new_IsValid fresh.handlers) refl
      (omega arith)

abbrev busy : TaskManager
busy = record fresh {
  seen = (lit "1", 0) ∷ [];
  seen_order = record { next = 1; nodes = (0, first_seen (lit "1")) ∷ [] };
}

listen_new_task-finish_example :
    let h = finish decode encode job busy in
    let again = listen_new_task decode encode msg h.manager in
    (again.effects ≡ h.effects) × (again.job ≡ none)
unfolding Assoc.get LinkedList.find ◌==◌
listen_new_task-finish_example =
    listen_new_task-finish decode encode msg job busy 0 (first_seen (lit "1")) refl (refl, refl)

abbrev unskilled : TaskManager
unskilled = record fresh { handlers = [] }

listen_new_task-unknown_type_example :
    let h = listen_new_task decode encode msg unskilled in
    let again = listen_new_task decode encode msg h.manager in
    (h.effects ≡ ack ∷ [])
    × (h.job ≡ none)
    × (again.effects ≡ publish_status encode h.manager (no_error (lit "1") started) ++ ack ∷ [])
    × (again.job ≡ none)
unfolding Assoc.get
listen_new_task-unknown_type_example =
    listen_new_task-unknown_type decode encode msg unskilled move (new_IsValid []) refl refl refl
