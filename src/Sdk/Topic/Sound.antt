-- ===== src/Sdk/Topic/Sound.antt =====
-- What a topic looks like that the parsers of topic.go accept.
use vantage_core.Prelude.{
  suc, ◌≡◌, ◌≢◌, ap, ◌∙◌, [], ◌∷◌, ◌++◌, some, Str, lit, ==_iff, has_prefix-split, has_suffix-split,
  trim_suffix, contains_byte-eq-false_iff, Lacks, length, drop, take, index_byte,
  index_byte-eq-some, append_assoc, Option-cases, arith, subst, inl, inr,
}
use vantage_core.Sdk.Topic.RoundTrip.{agent_id_behind_head}
use vantage_core.Sdk.Topic.{head, task_head, agent_id_from_topic, task_id_from_status_topic}

-- `AgentIDFromTopic` answers only for a topic `<prefix>/agent/<id>/...`, with an id that is not
-- empty and holds no slash.
pub agent_id_from_topic-shape :
    (prefix topic id : Str)
    → agent_id_from_topic prefix topic ≡ some id
    → (id ≢ []) × Lacks b'/' id × ((rest : Str) × (topic ≡ head prefix ++ (id ++ b'/' ∷ rest)))
unfolding agent_id_from_topic
agent_id_from_topic-shape prefix topic id h =
    let rest = drop (length (head prefix)) topic in
    elim (Option-cases (index_byte rest b'/')) [
      | inl e ↦ absurd (ground arith)
      | inr (i, e) ↦
          let (l, s, n) = index_byte-eq-some rest b'/' i e in
          let same : take i rest ≡ id = ground arith in
          let split : topic ≡ head prefix ++ rest =
            has_prefix-split topic (head prefix) (ground arith) in
          (
            λ z. ground (arith, ap length (same ∙ z)),
            subst (Lacks b'/') same l,
            (
              drop (suc i) rest,
              split ∙ ap (λ r. head prefix ++ r) (s ∙ ap (λ x. x ++ b'/' ∷ drop (suc i) rest) same),
            ),
          )
    ]

agent_id_of_whole :
    (prefix id task_id : Str)
    → id ≢ []
    → Lacks b'/' id
    → agent_id_from_topic prefix ((task_head prefix id ++ task_id) ++ lit "/status") ≡ some id
agent_id_of_whole prefix id task_id h l =
    ap (agent_id_from_topic prefix) (simp append_assoc)
    ∙ agent_id_behind_head prefix id (lit "task/" ++ (task_id ++ lit "/status")) h l

-- `TaskIDFromStatusTopic` answers only for a topic `<prefix>/agent/<id>/task/<task>/status`, with
-- ids that are not empty and hold no slash, and then `AgentIDFromTopic` reads the agent's id
-- from that topic.
pub task_id_from_status_topic-shape :
    (prefix topic task_id : Str)
    → task_id_from_status_topic prefix topic ≡ some task_id
    → (task_id ≢ [])
      × Lacks b'/' task_id
      × ((id : Str) × (id ≢ [])
          × Lacks b'/' id
          × (topic ≡ (task_head prefix id ++ task_id) ++ lit "/status")
          × (agent_id_from_topic prefix topic ≡ some id))
unfolding task_id_from_status_topic
task_id_from_status_topic-shape prefix topic task_id h =
    let trimmed = trim_suffix topic (lit "/status") in
    elim (Option-cases (agent_id_from_topic prefix trimmed)) [
      | inl e ↦ absurd (ground arith)
      | inr (id, e) ↦
          let (nonempty, l, _) = agent_id_from_topic-shape prefix trimmed id e in
          let want = task_head prefix id in
          let same : drop (length want) trimmed ≡ task_id = ground arith in
          let whole : topic ≡ (task_head prefix id ++ task_id) ++ lit "/status" =
            has_suffix-split topic (lit "/status") (ground arith)
            ∙ ap (λ x. x ++ lit "/status")
                (has_prefix-split trimmed want (ground arith) ∙ ap (λ x. want ++ x) same) in
          (
            λ z. ground (arith, ==_iff (drop (length want) trimmed) []),
            (contains_byte-eq-false_iff task_id b'/').0 (ground arith),
            (id, nonempty, l, whole, rw whole (agent_id_of_whole prefix id task_id nonempty l)),
          )
    ]
