-- ===== src/Journey/Tests.antt =====
-- A task that is sent to an idle agent, and run.
use vantage_core.Prelude.{
  ℕ, ◌≡◌, refl, true, false, List, [], ◌∷◌, Option, none, some, Str, lit, ◌==◌, arith, ok, subst,
  has_prefix, has_suffix, contains_byte,
}
use vantage_core.Prelude.Assoc
use vantage_core.Prelude.Joined.{join, split, split-join}
use vantage_core.Core.Auth
use vantage_core.Core.ControlPlane
use vantage_core.Core.Dispatcher.{
  TaskDispatcher, WireTask, Client, task_message, wire, send_task, find_task,
}
use vantage_core.Core.Dispatcher.Delivery.{Delivers}
use vantage_core.Core.Dispatcher.OneActive.{active_count}
use vantage_core.Core.Missions.{MissionRegistry, get_stream}
use vantage_core.Core.Missions.TaskManager.{CreateTask, mission_task, on_create_task}
use vantage_core.Core.Repo.{get_active_tasks_by_agent, select}
use vantage_core.Core.Task
use vantage_core.Core.Task.{final_status, status_in_progress, status_failed}
use vantage_core.Core.Task.Status
use vantage_core.Journey.{Codecs, Agree, task_of}
use vantage_core.Journey.Mission.{requested, heard, notice, on_create_task-heard}
use vantage_core.Journey.Outcome.{Ready, new_task_message, told, send_task-outcome}
use vantage_core.Sdk.LinkedList
use vantage_core.Sdk.Topic.{Topic, new_topic, task_status, valid_topic_segment, base}
use vantage_core.Sdk.TaskManager
use vantage_core.Sdk.TaskManager.{
  TaskStatusPayload, Handler, publish, ack, started, ack_status_text, listen_new_task, finish,
  no_error, outcome,
}
use vantage_core.Sdk.TaskManager.Runs.{job_of, status_publish}

abbrev task_of_parts : List Str → Option TaskManager.Task
task_of_parts (id ∷ type ∷ payload ∷ []) = some (record { id = id; type = type; payload = payload })
task_of_parts _ = none

abbrev status_of_parts : List Str → Option ControlPlane.TaskStatusPayload
status_of_parts (id ∷ status ∷ message ∷ []) =
    some (record { task_id = id; status = status; error_message = message })
status_of_parts _ = none

abbrev parts_of_task : WireTask → List Str
parts_of_task w = w.id ∷ w.type ∷ w.payload ∷ []

abbrev parts_of_status : TaskStatusPayload → List Str
parts_of_status p = p.task_id ∷ ack_status_text p.status ∷ p.error_message ∷ []

abbrev codecs : Codecs
codecs = record {
  encode_task = λ w. some (join (parts_of_task w));
  decode_task = λ b. task_of_parts (split b);
  encode_status = λ p. some (join (parts_of_status p));
  decode_status = λ b. status_of_parts (split b);
}

read_back :
    {A : Type 0} (read : List Str → Option A) (l : List Str) (b : Str) (a : A)
    → some (join l) ≡ some b
    → read l ≡ some a
    → read (split b) ≡ some a
read_back read l b a e r =
    let same : join l ≡ b = cc in subst (λ x. read (split x) ≡ some a) same (rw (split-join l) r)

codecs-Agree : Agree codecs
codecs-Agree = record {
  tasks = λ w b e. read_back task_of_parts (parts_of_task w) b _ e refl;
  statuses = λ p b e. read_back status_of_parts (parts_of_status p) b _ e refl;
}

abbrev sends : Client
sends p = true

abbrev dispatcher : TaskDispatcher
dispatcher = record {
  task_repo = record { ts = [] };
  mqtt_client = some sends;
  mqtt_topic_prefix = lit "p";
}

abbrev task : Task.Task
task = record {
  id = lit "1";
  agent_id = lit "a";
  type = lit "move";
  payload = lit "{}";
  status = Status.draft;
  result = [];
  mission_id = [];
  mission_context_id = [];
  mission_context = [];
  received_at = 0;
  start_at = 0;
  to_expire_at = 0;
}

abbrev topic : Topic
topic = record { prefix = lit "p"; agent_id = lit "a" }

topic_of_a : new_topic (lit "p") (lit "a") ≡ ok topic
unfolding new_topic valid_topic_segment has_prefix has_suffix contains_byte ◌==◌
topic_of_a = refl

abbrev delivers : Delivers codecs.encode_task dispatcher task
delivers = record {
  client = sends;
  topic = topic;
  body = join (parts_of_task (wire task));
  connected = refl;
  addressed = topic_of_a;
  encoded = refl;
  accepted = refl;
}

-- The handler fails.
abbrev fails : Handler
fails b = some (lit "blocked")

abbrev manager : TaskManager.TaskManager
manager = record {
  handlers = (lit "move", fails) ∷ [];
  topic = topic;
  mqtt = some sends;
  seen = [];
  seen_order = LinkedList.empty;
}

ready : Ready manager topic task fails
unfolding Assoc.get LinkedList.find ◌==◌
ready = record {
  valid = record {
    agrees = record {
      distinct = tt;
      fresh = tt;
      pointed = λ k e h. absurd (ground arith);
      mapped = λ e s h. absurd (ground arith);
    };
    bounded = omega arith;
  };
  on_topic = refl;
  client = sends;
  connected = refl;
  unseen = refl;
  handled = refl;
}

idle : active_count dispatcher.task_repo (lit "a") ≡ 0
unfolding get_active_tasks_by_agent select
idle = refl

abbrev status_topic : Str
status_topic = lit "p/agent/a/task/1/status"

status_topic_of_task : task_status topic (lit "1") ≡ ok status_topic
unfolding task_status valid_topic_segment has_prefix has_suffix contains_byte ◌==◌ base
status_topic_of_task = refl

unfinished : Task.final task ≡ false
unfolding final_status
unfinished = refl

abbrev missions : MissionRegistry ℕ
missions = record {
  missions = [];
  streams = [];
  alloweds = [];
  auth_service = Auth.new_auth_service;
}

abbrev starting_text : Str
starting_text = join (parts_of_status (no_error (lit "1") started))

abbrev ending_text : Str
ending_text = join (lit "1" ∷ lit "failed" ∷ lit "blocked" ∷ [])

send_task-outcome_example :
    let msg = new_task_message codecs codecs-Agree missions dispatcher task delivers in
    let sent = send_task codecs.encode_task 5 dispatcher task in
    let first = listen_new_task codecs.decode_task codecs.encode_status msg manager in
    let job = job_of msg (task_of (wire task)) fails in
    let ended = finish codecs.decode_task codecs.encode_status job first.manager in
    let tell = told codecs codecs-Agree missions dispatcher task delivers in
    let running = tell 6 status_topic starting_text sent.dispatcher in
    let over = tell 7 status_topic ending_text running in
    (sent.published ≡ task_message codecs.encode_task topic (join (parts_of_task (wire task))) ∷ [])
    × (first.effects ≡ publish (status_publish status_topic starting_text) ∷ [])
    × (first.job ≡ some job)
    × ((u : Task.Task) × (find_task running (lit "1") ≡ some u) × (u.status ≡ Status.started))
    × (ended.effects ≡ publish (status_publish status_topic ending_text) ∷ ack ∷ [])
    × ((u : Task.Task) × (find_task over (lit "1") ≡ some u)
        × (u.agent_id ≡ lit "a")
        × (u.status ≡ Status.failed))
    × (active_count over.task_repo (lit "a") ≡ 0)
send_task-outcome_example =
    send_task-outcome codecs codecs-Agree missions dispatcher task delivers manager fails 5 6 7
      status_topic starting_text ending_text idle unfinished ready status_topic_of_task refl refl

abbrev create : CreateTask
create = record {
  requirement = some (lit "a");
  type = lit "move";
  payload = lit "{}";
  mission_context = some (lit "step 1");
}

abbrev with_stream : MissionRegistry ℕ
with_stream = record missions { streams = (lit "m", 7) ∷ [] }

abbrev asked : Task.Task
asked =
    requested codecs codecs-Agree with_stream dispatcher create (lit "1") (lit "m") (lit "a")
      (lit "step 1")

abbrev asked_text : Str
asked_text = join (lit "1" ∷ lit "move" ∷ lit "{}" ∷ [])

asked_addressed : new_topic (lit "p") asked.agent_id ≡ ok topic
unfolding mission_task
asked_addressed = topic_of_a

asked_encoded : codecs.encode_task (wire asked) ≡ some asked_text
unfolding mission_task
asked_encoded = refl

abbrev asked_delivers : Delivers codecs.encode_task dispatcher asked
asked_delivers = record {
  client = sends;
  topic = topic;
  body = asked_text;
  connected = refl;
  addressed = asked_addressed;
  encoded = asked_encoded;
  accepted = refl;
}

stream_of_m : get_stream with_stream (lit "m") ≡ some 7
unfolding get_stream Assoc.get ◌==◌
stream_of_m = refl

on_create_task-heard_example :
    let sent = send_task codecs.encode_task 5 dispatcher asked in
    let running =
      told codecs codecs-Agree with_stream dispatcher asked asked_delivers 6 status_topic
        starting_text sent.dispatcher in
    let hear = heard codecs codecs-Agree with_stream dispatcher asked asked_delivers in
    (on_create_task codecs.encode_task 5 (lit "1") (lit "m") create dispatcher ≡ some sent)
    × (hear 6 status_topic starting_text sent.dispatcher
        ≡ notice 7 (lit "step 1") status_in_progress ∷ [])
    × (hear 7 status_topic ending_text running ≡ notice 7 (lit "step 1") status_failed ∷ [])
unfolding mission_task
on_create_task-heard_example =
    on_create_task-heard codecs codecs-Agree with_stream dispatcher create (lit "1") (lit "m")
      (lit "a") (lit "step 1") fails 5 6 7 status_topic starting_text ending_text 7 asked_delivers
      refl refl (λ e. cc) stream_of_m idle status_topic_of_task refl refl
