-- ===== src/Bus/Router.antt =====
-- `AgentRouter` of src/bus/router.rs, `RoutingRule` of src/config/schema.rs, and the fields of
-- `InboundMessage` of crates/adaclaw-core/src/channel.rs that routing reads. Each `Regex` is built
-- where the source builds it; a pattern that the crate refuses does not match.
use ada_claw.Prelude.{
  ◌≡◌, refl, String, Bool, true, false, Option, none, some, inl, inr, List, [], ◌∷◌, ◌++◌, find,
  if◌then◌else◌, Codes, codes, is_some, arith, Bool-cases, Option-cases, str_eq,
}
use mathlib.Core.Option.{get_or}
use ada_claw.Bus.Glob.{Regex, glob_to_regex, anchored, glob_match, glob_to_regex_lem}

pub record RoutingRule : Type 0 where
  pub channel_pattern : Option String
  pub sender_id : Option String
  pub sender_name : Option String
  pub is_default : Bool
  pub agent : String

pub record InboundMessage : Type 0 where
  pub channel : String
  pub sender_id : String
  pub sender_name : String

pub record AgentRouter : Type 0 where
  pub rules : List RoutingRule

module _ (rx : Regex) where
  abbrev pub compiled_match : Option rx.Compiled → Codes → Bool
  compiled_match none t = false
  compiled_match (some re) t = rx.is_match re t

  unfoldable pub pattern_matches : String → String → Bool
  pattern_matches pattern text =
      compiled_match (rx.new (anchored (glob_to_regex (codes pattern)))) (codes text)

  -- What one turn of the loop returns; `none` goes on with the next rule. The fields are tested in
  -- their order, and the first that is there decides.
  unfoldable pub try_fields :
      InboundMessage
      → String
      → (channel_pattern sender_id sender_name : Option String) → Bool
      → Option String
  unfolding pattern_matches
  try_fields msg agent (some pattern) _ _ _ =
      if pattern_matches pattern msg.channel then some agent else none
  try_fields msg agent none (some sender) _ _ =
      if str_eq sender msg.sender_id then some agent else none
  try_fields msg agent none none (some name_pattern) _ =
      if pattern_matches name_pattern msg.sender_name then some agent else none
  try_fields msg agent none none none is_default = if is_default then some agent else none

  unfoldable pub try_rule : InboundMessage → RoutingRule → Option String
  unfolding try_fields
  try_rule msg rule =
      try_fields msg rule.agent rule.channel_pattern rule.sender_id rule.sender_name rule.is_default

  abbrev pub or_else : Option String → Option String → Option String
  or_else none later = later
  or_else (some agent) later = some agent

  unfoldable pub route_rules : InboundMessage → List RoutingRule → Option String
  unfolding try_rule
  route_rules msg [] = none
  route_rules msg (rule ∷ rest) = or_else (try_rule msg rule) (route_rules msg rest)

  unfoldable pub route : AgentRouter → InboundMessage → Option String
  unfolding route_rules
  route router msg = route_rules msg router.rules

  unfoldable pub route_or : AgentRouter → InboundMessage → String → String
  unfolding route
  route_or router msg fallback_agent = get_or (route router msg) fallback_agent

  -- The regular expression of a pattern is one that the crate builds.
  abbrev pub pattern_builds : Option String → Bool
  pattern_builds none = true
  pattern_builds (some pattern) = is_some (rx.new (anchored (glob_to_regex (codes pattern))))

  abbrev pub AllBuild : List RoutingRule → Type 0
  AllBuild [] = Unit
  AllBuild (rule ∷ rest) =
      (pattern_builds rule.channel_pattern ≡ true)
      × (pattern_builds rule.sender_name ≡ true)
      × AllBuild rest

-- Whether a rule is meant for a message.
unfoldable pub meant :
    InboundMessage → (channel_pattern sender_id sender_name : Option String) → Bool → Bool
meant msg (some pattern) _ _ _ = glob_match (codes pattern) (codes msg.channel)
meant msg none (some sender) _ _ = str_eq sender msg.sender_id
meant msg none none (some pattern) _ = glob_match (codes pattern) (codes msg.sender_name)
meant msg none none none is_default = is_default

abbrev pub applies : InboundMessage → RoutingRule → Bool
applies msg rule = meant msg rule.channel_pattern rule.sender_id rule.sender_name rule.is_default

abbrev pub bare_default : String → RoutingRule
bare_default agent = record {
  channel_pattern = none;
  sender_id = none;
  sender_name = none;
  is_default = true;
  agent = agent;
}

abbrev pub agent_of : Option RoutingRule → Option String
agent_of none = none
agent_of (some rule) = some rule.agent

module _ (rx : Regex) where
  pattern_matches_lem :
      (pattern text : String)
      → pattern_builds rx (some pattern) ≡ true
      → pattern_matches rx pattern text ≡ glob_match (codes pattern) (codes text)
  unfolding pattern_matches
  pattern_matches_lem pattern text builds =
      elim (Option-cases (rx.new (anchored (glob_to_regex (codes pattern))))) [
        | inl refused ↦ ground arith
        | inr (re, built) ↦ rw built (glob_to_regex_lem rx (codes pattern) (codes text) re built)
      ]

  try_fields_lem :
      (msg : InboundMessage) (agent : String) (channel sender name : Option String)
      (is_default : Bool)
      → pattern_builds rx channel ≡ true
      → pattern_builds rx name ≡ true
      → try_fields rx msg agent channel sender name is_default
        ≡ (if meant msg channel sender name is_default then some agent else none)
  unfolding try_fields meant
  try_fields_lem msg agent (some pattern) sender name d c n =
      rw (pattern_matches_lem pattern msg.channel c) refl
  try_fields_lem msg agent none (some sender) name d c n = refl
  try_fields_lem msg agent none none (some pattern) d c n =
      rw (pattern_matches_lem pattern msg.sender_name n) refl
  try_fields_lem msg agent none none none d c n = refl

  route_rules_lem :
      (msg : InboundMessage) (rules : List RoutingRule)
      → AllBuild rx rules
      → route_rules rx msg rules ≡ agent_of (find (applies msg) rules)
  unfolding route_rules try_rule
  route_rules_lem msg [] builds = refl
  route_rules_lem msg (rule ∷ rest) builds =
      rw
        (
          try_fields_lem msg rule.agent rule.channel_pattern rule.sender_id rule.sender_name
              rule.is_default builds.0 builds.1,
          route_rules_lem msg rest builds.2,
        )
        (elim (Bool-cases (applies msg rule)) [
          | inl fits ↦ rw fits refl
          | inr other ↦ rw other refl
        ])

  -- A message goes to the agent of the first rule, in the order of the configuration, that is meant
  -- for it, where the crate builds the regular expressions of the rules.
  pub route_first_rule :
      (router : AgentRouter) (msg : InboundMessage)
      → AllBuild rx router.rules
      → route rx router msg ≡ agent_of (find (applies msg) router.rules)
  unfolding route
  route_first_rule router msg builds = route_rules_lem msg router.rules builds

  -- The rules that follow a bare default rule are never used, whatever the message is.
  pub after_default :
      (before after : List RoutingRule) (msg : InboundMessage) (agent : String)
      → route rx (record { rules = before ++ (bare_default agent ∷ after) }) msg
        ≡ route rx (record { rules = before ++ (bare_default agent ∷ []) }) msg
  unfolding route route_rules try_rule try_fields
  after_default [] after msg agent = refl
  after_default (rule ∷ before) after msg agent = rw (after_default before after msg agent) refl
