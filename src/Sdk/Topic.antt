-- ===== src/Sdk/Topic.antt =====
-- pkg/agentsdk/topic.go: the MQTT topics of an agent, <prefix>/agent/<id>/<topic>, and their parsers.
pub mod Segment
pub mod RoundTrip
pub mod Sound
use vantage_core.Prelude.{
  ℕ, suc, ◌+◌, Bool, true, false, ◌||◌, ◌&&◌, not, List, [], ◌∷◌, ◌++◌, Option, none, some, Str,
  lit, ◌==◌, has_prefix, has_suffix, trim_suffix, contains_byte, index_byte, take, drop, length,
  Result, ok, err, if◌then◌else◌, ◌>>=◌, ◌>>◌, leb,
}

pub data TopicError : Type 0 where
  slash : Str → TopicError
  empty : Str → TopicError
  wildcard : Str → Str → TopicError
  separator : Str → Str → TopicError

pub record Topic : Type 0 where
  pub prefix : Str
  pub agent_id : Str

-- An error names what was tested, and the value.
unfoldable pub valid_topic_segment : Str → Str → Result TopicError (Unit {0})
valid_topic_segment what v =
    if v == []
    then err (empty what)
    else if contains_byte v b'+' || contains_byte v b'#'
    then err (wildcard what v)
    else if contains_byte v b'/'
    then err (separator what v)
    else ok tt

unfoldable pub new_topic : Str → Str → Result TopicError Topic
new_topic prefix agent_id =
    if has_prefix prefix (lit "/") || has_suffix prefix (lit "/") then err (slash prefix) else do
      valid_topic_segment (lit "topic prefix") prefix
      valid_topic_segment (lit "agent id") agent_id
      ok (record { prefix = prefix; agent_id = agent_id })

-- What stands before the id of an agent in each of its topics.
abbrev pub head : Str → Str
head prefix = prefix ++ lit "/agent/"

unfoldable pub base : Topic → Str
base t = head t.prefix ++ t.agent_id

unfoldable pub telemetry : Topic → Str
telemetry t = base t ++ (lit "/" ++ lit "telemetry")

unfoldable pub telemetry_schema : Topic → Str
telemetry_schema t = base t ++ (lit "/" ++ lit "telemetry-schema")

unfoldable pub event : Topic → Str
event t = base t ++ (lit "/" ++ lit "event")

unfoldable pub new_task : Topic → Str
new_task t = base t ++ (lit "/" ++ lit "task/new")

unfoldable pub task_status : Topic → Str → Result TopicError Str
task_status t task_id = do
  valid_topic_segment (lit "task id") task_id
  ok ((base t ++ (lit "/" ++ (lit "task" ++ lit "/")) ++ task_id) ++ lit "/status")

-- `i <= 0` is a slash at the front, or none.
abbrev take_segment : Str → Option ℕ → Option Str
take_segment rest none = none
take_segment rest (some i) = if leb i 0 then none else some (take i rest)

unfoldable pub agent_id_from_topic : Str → Str → Option Str
agent_id_from_topic prefix topic =
    if not (has_prefix topic (head prefix))
    then none
    else (let rest = drop (length (head prefix)) topic in take_segment rest (index_byte rest b'/'))

abbrev task_id_behind : Str → Str → Option Str
task_id_behind trimmed want =
    if not (has_prefix trimmed want)
    then none
    else (let task_id = drop (length want) trimmed in
        if task_id == [] || contains_byte task_id b'/' then none else some task_id)

abbrev pub task_head : Str → Str → Str
task_head prefix agent_id = head prefix ++ agent_id ++ (lit "/" ++ (lit "task" ++ lit "/"))

unfoldable pub task_id_from_status_topic : Str → Str → Option Str
task_id_from_status_topic prefix topic =
    if not (has_suffix topic (lit "/status"))
    then none
    else (let trimmed = trim_suffix topic (lit "/status") in
        elim (agent_id_from_topic prefix trimmed) [
          | none ↦ none
          | some agent_id ↦ task_id_behind trimmed (task_head prefix agent_id)
        ])
