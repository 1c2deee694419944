-- ===== src/Config/Rules.antt =====
-- The sections of src/config/validation.rs without errors, and the rules of src/bus/router.rs whose
-- agents are known or of which one catches every message.
use ada_claw.Prelude.{
  ℕ, ◌≡◌, refl, sym, ap, ◌∙◌, String, Bool, true, false, not, ◌&&◌, ◌||◌, Option, none, some,
  is_some, List, [], ◌∷◌, ◌++◌, if◌then◌else◌, any, StrMap, contains_key, str_eq, arith, Bool-cases,
  Option-cases, inl, inr,
}
use mathlib.Core.Option.{some-injective}
use ada_claw.Bus.Glob.{Regex}
use ada_claw.Bus.Router.{
  RoutingRule, InboundMessage, pattern_matches, try_fields, try_rule, or_else, route_rules,
}
use ada_claw.Config.Schema.{Floats, Config, AgentConfig}
use ada_claw.Config.Env.{Env}
use ada_claw.Config.Validation.{
  Field, Message, push_if, is_empty, blank, catches_all, validate_rule, validate_agents,
  validate_routing, validate_security,
}
use ada_claw.Config.Checks.{validate, validate_channels, validate_memory, validate_observability}

pub append_empty {ℓ} : {A : Type ℓ} (xs ys : List A) → xs ++ ys ≡ [] → (xs ≡ []) × (ys ≡ [])
append_empty [] ys h = (refl, h)
append_empty (x ∷ xs) ys h = cc

known {ℓ} :
    {A : Type ℓ} (unnamed none_known found : Bool) (x y : A)
    → none_known ≡ false
    → (if unnamed then x ∷ [] else (if not none_known && not found then y ∷ [] else [])) ≡ []
    → found ≡ true
known true none_known found x y h k = cc
known false true found x y h k = cc
known false false true x y h k = refl
known false false false x y h k = cc

own :
    (b : Bool) (agent given : String)
    → (if b then some agent else none) ≡ some given
    → agent ≡ given
own true agent given h = some-injective agent given h
own false agent given h = cc

inner {ℓ} :
    {A : Type ℓ} (a b c d e o : List A) → a ++ b ++ c ++ d ++ e ++ o ≡ [] → (b ≡ []) × (c ≡ [])
inner a b c d e o h =
    let (five, _) = append_empty (a ++ b ++ c ++ d ++ e) o h in
    let (four, _) = append_empty (a ++ b ++ c ++ d) e five in
    let (three, _) = append_empty (a ++ b ++ c) d four in
    let (two, third) = append_empty (a ++ b) c three in ((append_empty a b two).1, third)

-- The agents of the rules are known.
abbrev pub AllKnown {ℓ} : {V : Type ℓ} → StrMap V → List RoutingRule → Type 0
AllKnown agents [] = Unit
AllKnown agents (rule ∷ rest) = (contains_key rule.agent agents ≡ true) × AllKnown agents rest

module _ (f : Floats) where
  pub push_if_empty :
      (b : Bool) (field : Field) (message : Message f) → push_if f b field message ≡ [] → b ≡ false
  push_if_empty true field message h = cc
  push_if_empty false field message h = refl

  -- The sections are free of errors where the whole is.
  pub sections :
      (env : Env) (cfg : Config f)
      → validate f env cfg ≡ []
      → (validate_routing f cfg ≡ []) × (validate_security f cfg ≡ [])
  unfolding validate
  sections env cfg h =
      inner (validate_agents f cfg) (validate_routing f cfg) (validate_security f cfg)
        (validate_channels f env cfg.channels) (validate_memory f env cfg.memory)
        (validate_observability f cfg) h

  -- A rule without errors names a known agent.
  pub rule_known :
      (agents : StrMap (AgentConfig f.F64)) (i : ℕ) (rule : RoutingRule)
      → is_empty agents ≡ false
      → validate_rule f agents i rule ≡ []
      → contains_key rule.agent agents ≡ true
  unfolding validate_rule
  rule_known agents i rule h k =
      known (blank rule.agent) (is_empty agents) (contains_key rule.agent agents) _ _ h k

module _ (rx : Regex) where
  -- The agent that a rule gives is its own.
  try_fields_own :
      (msg : InboundMessage) (agent : String) (channel sender name : Option String) (d : Bool)
      (given : String)
      → try_fields rx msg agent channel sender name d ≡ some given
      → agent ≡ given
  unfolding try_fields
  try_fields_own msg agent (some pattern) sender name d given h =
      own (pattern_matches rx pattern msg.channel) agent given h
  try_fields_own msg agent none (some sender) name d given h =
      own (str_eq sender msg.sender_id) agent given h
  try_fields_own msg agent none none (some pattern) d given h =
      own (pattern_matches rx pattern msg.sender_name) agent given h
  try_fields_own msg agent none none none d given h = own d agent given h

  try_fields_all :
      (msg : InboundMessage) (agent : String) (channel sender name : Option String) (d : Bool)
      → (d && not (is_some channel) && not (is_some sender) && not (is_some name)) ≡ true
      → try_fields rx msg agent channel sender name d ≡ some agent
  unfolding try_fields
  try_fields_all msg agent (some pattern) sender name d h = ground arith
  try_fields_all msg agent none (some sender) name d h = ground arith
  try_fields_all msg agent none none (some pattern) d h = ground arith
  try_fields_all msg agent none none none d h = ground arith

  pub route_rules_known {ℓ} :
      {V : Type ℓ} (agents : StrMap V) (msg : InboundMessage) (rules : List RoutingRule)
      (given : String)
      → AllKnown agents rules
      → route_rules rx msg rules ≡ some given
      → contains_key given agents ≡ true
  unfolding route_rules try_rule
  route_rules_known agents msg [] given k h = cc
  route_rules_known agents msg (rule ∷ rest) given k h =
      elim (Option-cases (try_rule rx msg rule)) [
        | inl e ↦
            route_rules_known agents msg rest given k.1
              (sym (ap (λ o. or_else rx o (route_rules rx msg rest)) e) ∙ h)
        | inr (a, e) ↦
            ap (λ g. contains_key g agents)
              (sym (
                try_fields_own msg rule.agent rule.channel_pattern rule.sender_id rule.sender_name
                  rule.is_default a e
                ∙ some-injective a given
                    (sym (ap (λ o. or_else rx o (route_rules rx msg rest)) e) ∙ h)))
            ∙ k.0
      ]

  is_some-or_else :
      (o later : Option String) → is_some later ≡ true → is_some (or_else rx o later) ≡ true
  is_some-or_else none later h = h
  is_some-or_else (some a) later h = refl

  pub route_rules_total :
      (msg : InboundMessage) (rules : List RoutingRule)
      → any catches_all rules ≡ true
      → is_some (route_rules rx msg rules) ≡ true
  unfolding route_rules try_rule
  route_rules_total msg [] h = cc
  route_rules_total msg (rule ∷ rest) h = elim (Bool-cases (catches_all rule)) [
    | inl e ↦
        ap (λ o. is_some (or_else rx o (route_rules rx msg rest)))
          (try_fields_all msg rule.agent rule.channel_pattern rule.sender_id rule.sender_name
            rule.is_default e)
    | inr e ↦
        is_some-or_else (try_rule rx msg rule) (route_rules rx msg rest)
          (route_rules_total msg rest (sym (ap (λ b. b || any catches_all rest) e) ∙ h))
  ]
