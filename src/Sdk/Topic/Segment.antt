-- ===== src/Sdk/Topic/Segment.antt =====
-- Which values `validTopicSegment` and `NewTopic` accept.
use vantage_core.Prelude.{
  ◌≡◌, ◌≢◌, ◌↔◌, refl, false, [], ◌∷◌, ◌++◌, Str, lit, ==_iff, has_prefix, has_suffix,
  contains_byte-eq-false_iff, has_prefix-split, has_suffix-split, Lacks, ok, arith, Bool-cases,
  subst, inl, inr,
}
use vantage_core.Sdk.Topic.{Topic, valid_topic_segment, new_topic}

-- One level of an MQTT topic: not empty, and no wildcard or separator in it.
pub record IsSegment (v : Str) : Type 0 where
  pub nonempty : v ≢ []
  pub no_plus : Lacks b'+' v
  pub no_hash : Lacks b'#' v
  pub no_slash : Lacks b'/' v

pub valid_topic_segment-IsSegment :
    (what v : Str) → valid_topic_segment what v ≡ ok tt → IsSegment v
unfolding valid_topic_segment
valid_topic_segment-IsSegment what v h = record {
  nonempty = λ e. ground (arith, (==_iff v []).1 e);
  no_plus = (contains_byte-eq-false_iff v b'+').0 (ground arith);
  no_hash = (contains_byte-eq-false_iff v b'#').0 (ground arith);
  no_slash = (contains_byte-eq-false_iff v b'/').0 (ground arith);
}

pub valid_topic_segment_of_IsSegment :
    (what v : Str) → IsSegment v → valid_topic_segment what v ≡ ok tt
unfolding valid_topic_segment
valid_topic_segment_of_IsSegment what v s = ground (
  arith,
  ==_iff v [],
  (contains_byte-eq-false_iff v b'+').1 s.no_plus,
  (contains_byte-eq-false_iff v b'#').1 s.no_hash,
  (contains_byte-eq-false_iff v b'/').1 s.no_slash,
)

no_leading : (p : Str) → IsSegment p → has_prefix p (lit "/") ≡ false
no_leading p s = elim (Bool-cases (has_prefix p (lit "/"))) [
  | inl h ↦ absurd ((subst (Lacks b'/') (has_prefix-split p (lit "/") h) s.no_slash).0 refl)
  | inr h ↦ h
]

no_trailing : (p : Str) → IsSegment p → has_suffix p (lit "/") ≡ false
no_trailing p s = elim (Bool-cases (has_suffix p (lit "/"))) [
  | inl h ↦ absurd (last _ (subst (Lacks b'/') (has_suffix-split p (lit "/") h) s.no_slash))
  | inr h ↦ h
]
  where
    last : (q : Str) → Lacks b'/' (q ++ lit "/") → ⊥
    last [] h = h.0 refl
    last (c ∷ q) h = last q h.1

-- `NewTopic` accepts exactly a prefix and an agent id that are one topic level each, and keeps
-- both as they are.
pub new_topic-eq-ok_iff :
    (prefix agent_id : Str) (t : Topic)
    → (new_topic prefix agent_id ≡ ok t) ↔ (
        (t ≡ record { prefix = prefix; agent_id = agent_id })
        × IsSegment prefix
        × IsSegment agent_id)
unfolding new_topic
new_topic-eq-ok_iff prefix agent_id t = (
  λ h. (
    ground arith,
    valid_topic_segment-IsSegment (lit "topic prefix") prefix (ground arith),
    valid_topic_segment-IsSegment (lit "agent id") agent_id (ground arith),
  ),
  λ h. ground (
    arith,
    no_leading prefix h.1,
    no_trailing prefix h.1,
    valid_topic_segment_of_IsSegment (lit "topic prefix") prefix h.1,
    valid_topic_segment_of_IsSegment (lit "agent id") agent_id h.2,
  ),
)
