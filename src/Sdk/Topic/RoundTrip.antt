-- ===== src/Sdk/Topic/RoundTrip.antt =====
-- What the parsers of topic.go read back from the topics that its builders write.
use vantage_core.Prelude.{
  ◌≡◌, ◌≢◌, refl, ap, ◌∙◌, [], ◌∷◌, ◌++◌, some, Str, lit, ==_iff, has_prefix_append,
  has_suffix_append, trim_suffix_append, contains_byte-eq-false_iff, Lacks, index_byte-append,
  take_of_append, drop_of_append, append_assoc, append-nil, ok, arith,
}
use vantage_core.Sdk.Topic.{
  Topic, head, task_head, base, telemetry, telemetry_schema, event, new_task, task_status,
  new_topic, agent_id_from_topic, task_id_from_status_topic,
}
use vantage_core.Sdk.Topic.Segment.{IsSegment, new_topic-eq-ok_iff, valid_topic_segment-IsSegment}

-- An id without slashes behind the head is read back.
pub agent_id_behind_head :
    (prefix id rest : Str)
    → id ≢ []
    → Lacks b'/' id
    → agent_id_from_topic prefix (head prefix ++ (id ++ b'/' ∷ rest)) ≡ some id
unfolding agent_id_from_topic
agent_id_behind_head prefix [] rest h l = absurd (h refl)
agent_id_behind_head prefix (c ∷ id) rest h l = ground (
  arith,
  has_prefix_append (head prefix) ((c ∷ id) ++ b'/' ∷ rest),
  drop_of_append (head prefix) ((c ∷ id) ++ b'/' ∷ rest),
  index_byte-append (c ∷ id) rest b'/' l,
  take_of_append (c ∷ id) (b'/' ∷ rest),
)

-- Whatever stands behind the base of a topic and a slash.
pub agent_id_from_topic-base :
    (t : Topic) (rest : Str)
    → IsSegment t.agent_id
    → agent_id_from_topic t.prefix (base t ++ (lit "/" ++ rest)) ≡ some t.agent_id
unfolding base
agent_id_from_topic-base t rest s =
    ap (agent_id_from_topic t.prefix) (append_assoc (head t.prefix) t.agent_id (b'/' ∷ rest))
    ∙ agent_id_behind_head t.prefix t.agent_id rest s.nonempty s.no_slash

-- A status topic without its suffix: the base, `/task/` and the id.
abbrev trimmed : Topic → Str → Str
trimmed t id = (base t ++ (lit "/" ++ (lit "task" ++ lit "/"))) ++ id

agent_id_of_trimmed :
    (t : Topic) (id rest : Str)
    → IsSegment t.agent_id
    → agent_id_from_topic t.prefix (trimmed t id ++ rest) ≡ some t.agent_id
agent_id_of_trimmed t id rest s =
    ap (agent_id_from_topic t.prefix) (simp append_assoc)
    ∙ agent_id_from_topic-base t (lit "task/" ++ (id ++ rest)) s

task_id_behind_head :
    (t : Topic) (id : Str)
    → IsSegment t.agent_id
    → IsSegment id
    → task_id_from_status_topic t.prefix (trimmed t id ++ lit "/status") ≡ some id
unfolding task_id_from_status_topic base
task_id_behind_head t id s k = ground (
  arith,
  has_suffix_append (trimmed t id) (lit "/status"),
  trim_suffix_append (trimmed t id) (lit "/status"),
  rw append-nil at (agent_id_of_trimmed t id [] s),
  has_prefix_append (task_head t.prefix t.agent_id) id,
  drop_of_append (task_head t.prefix t.agent_id) id,
  (contains_byte-eq-false_iff id b'/').1 k.no_slash,
  ==_iff id [],
  k.nonempty,
)

module _ (prefix agent_id : Str) (t : Topic) (made : new_topic prefix agent_id ≡ ok t) where
  abbrev parts :
      (t ≡ record { prefix = prefix; agent_id = agent_id }) × IsSegment prefix × IsSegment agent_id
  parts = (new_topic-eq-ok_iff prefix agent_id t).0 made

  -- Every topic of an agent that `NewTopic` accepted names that agent: `AgentIDFromTopic` reads
  -- its id back from the telemetry, schema, event and new-task topics.
  pub agent_id_from_topic-topics :
      (agent_id_from_topic prefix (telemetry t) ≡ some agent_id)
      × (agent_id_from_topic prefix (telemetry_schema t) ≡ some agent_id)
      × (agent_id_from_topic prefix (event t) ≡ some agent_id)
      × (agent_id_from_topic prefix (new_task t) ≡ some agent_id)
  unfolding telemetry telemetry_schema event new_task
  agent_id_from_topic-topics =
      let s = parts.2 in
      rw parts.0 (
        agent_id_from_topic-base _ (lit "telemetry") s,
        agent_id_from_topic-base _ (lit "telemetry-schema") s,
        agent_id_from_topic-base _ (lit "event") s,
        agent_id_from_topic-base _ (lit "task/new") s,
      )

  -- A status topic that an agent builds for a task is read back by core as that agent and that
  -- task, whatever legal ids they have.
  pub ids_from_status_topic :
      (task_id topic : Str)
      → task_status t task_id ≡ ok topic
      → (agent_id_from_topic prefix topic ≡ some agent_id)
        × (task_id_from_status_topic prefix topic ≡ some task_id)
  unfolding task_status
  ids_from_status_topic task_id topic h =
      let k = valid_topic_segment-IsSegment (lit "task id") task_id (ground arith) in
      let e : topic ≡ trimmed t task_id ++ lit "/status" = ground arith in
      rw e (
        rw parts.0 (
          agent_id_of_trimmed _ task_id (lit "/status") parts.2,
          task_id_behind_head _ task_id parts.2 k,
        ))
