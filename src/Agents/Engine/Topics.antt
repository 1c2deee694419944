-- ===== src/Agents/Engine/Topics.antt =====
-- What a provider sees of the history after topic switches in src/agents/engine.rs.
use ada_claw.Prelude.{
  ◌≡◌, refl, ap, ◌∙◌, String, Bool, true, false, not, ◌&&◌, List, [], ◌∷◌, filter, map,
  if◌then◌else◌, str_eq, arith, eq_iff,
}
use ada_claw.Agents.Engine.{
  MessageEntry, to_chat_message, visible_messages, hide_if_other, prune_history_for_topic_switch,
}

-- An entry is seen after a switch to a topic if it is of that topic and was seen before.
abbrev pub seen_on : String → MessageEntry → Bool
seen_on topic m = not m.hidden && str_eq m.topic_id topic

filter-hide_if_other :
    (topic : String) (history : List MessageEntry)
    → map to_chat_message (filter (λ m. not m.hidden) (map (hide_if_other topic) history))
      ≡ map to_chat_message (filter (seen_on topic) history)
filter-hide_if_other topic [] = refl
filter-hide_if_other topic (m ∷ rest) = ground (arith, filter-hide_if_other topic rest)

-- After a switch to a topic the provider sees the entries of that topic that it saw before.
pub visible_messages-prune :
    (topic : String) (history : List MessageEntry)
    → visible_messages (prune_history_for_topic_switch topic history)
      ≡ map to_chat_message (filter (seen_on topic) history)
unfolding visible_messages prune_history_for_topic_switch
visible_messages-prune topic history = filter-hide_if_other topic history

hidden_twice :
    (topic other : String) (m : MessageEntry)
    → str_eq topic other ≡ false
    → (hide_if_other topic (hide_if_other other m)).hidden ≡ true
hidden_twice topic other m h =
    ground (arith, eq_iff m.topic_id other, eq_iff m.topic_id topic, eq_iff topic other)

filter_twice :
    (topic other : String) (history : List MessageEntry)
    → str_eq topic other ≡ false
    → map to_chat_message
        (filter (λ m. not m.hidden) (map (hide_if_other topic) (map (hide_if_other other) history)))
      ≡ []
filter_twice topic other [] h = refl
filter_twice topic other (m ∷ rest) h =
    ap
      (λ b. map to_chat_message (
        if not b
        then hide_if_other topic (hide_if_other other m)
          ∷ filter (λ x. not x.hidden) (map (hide_if_other topic) (map (hide_if_other other) rest))
        else filter (λ x. not x.hidden)
            (map (hide_if_other topic) (map (hide_if_other other) rest))))
      (hidden_twice topic other m h)
    ∙ filter_twice topic other rest h

-- After a switch to another topic and back nothing of the history is seen.
pub visible_messages_back :
    (topic other : String) (history : List MessageEntry)
    → str_eq topic other ≡ false
    → visible_messages
        (prune_history_for_topic_switch topic (prune_history_for_topic_switch other history))
      ≡ []
unfolding visible_messages prune_history_for_topic_switch
visible_messages_back topic other history h = filter_twice topic other history h
