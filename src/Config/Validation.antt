-- ===== src/Config/Validation.antt =====
-- The validation of src/config/validation.rs. A field path is the constructor of its form, with the
-- parts that are filled in, and a message is its constructor, with the values that it prints.
use ada_claw.Prelude.{
  ℕ, suc, String, Bool, true, false, not, ◌&&◌, ◌||◌, Option, none, some, is_some, List, [], ◌∷◌,
  ◌++◌, if◌then◌else◌, ◌==◌, ltb, length, any, codes, trim, StrMap, lookup, contains_key, contains,
}
use ada_claw.Bus.Router.{RoutingRule}
use ada_claw.Config.Schema.{Floats, Config, AgentConfig}

pub data Field : Type 0 where
  named : String → Field
  agent_field : String → String → Field
  rule_agent : ℕ → Field
  channel_field : String → String → Field

pub data Message (f : Floats) : Type 0 where
  no_agents no_default_rule rule_needs_agent no_iterations : Message f
  model_required : List String → Message f
  temperature_out_of_range : f.F64 → Message f
  unknown_agent : String → List String → Message f
  unknown_provider : String → List String → Message f
  not_one_of : List String → String → Message f
  kind_required : List String → Message f
  needs_token needs_extra : String → Message f
  needs_embed_key : Message f
  weight_out_of_range : f.F32 → Message f

pub record ValidationError (f : Floats) : Type 0 where
  pub field : Field
  pub message : Message f

abbrev pub keys {ℓ} : {V : Type ℓ} → StrMap V → List String
keys [] = []
keys ((k, v) ∷ rest) = k ∷ keys rest

abbrev pub is_empty {ℓ} : {A : Type ℓ} → List A → Bool
is_empty [] = true
is_empty (x ∷ xs) = false

-- `s.trim().is_empty()`.
abbrev pub blank : String → Bool
blank s = is_empty (trim (codes s))

-- `is_none_or(|s| s.trim().is_empty())`.
abbrev pub missing : Option String → Bool
missing none = true
missing (some s) = blank s

-- A rule that catches every message.
abbrev pub catches_all : RoutingRule → Bool
catches_all rule =
    rule.is_default
    && not (is_some rule.channel_pattern)
    && not (is_some rule.sender_id)
    && not (is_some rule.sender_name)

abbrev pub valid_levels : List String
valid_levels = "readonly" ∷ "supervised" ∷ "full" ∷ []

module _ (f : Floats) where
  abbrev pub Errors : Type 0
  Errors = List (ValidationError f)

  -- A test that pushes an error.
  abbrev pub push_if : Bool → Field → Message f → Errors
  push_if b field message = if b then record { field = field; message = message } ∷ [] else []

  unfoldable pub unknown_targets : StrMap (AgentConfig f.F64) → String → List String → Errors
  unfolding lookup
  unknown_targets agents id [] = []
  unknown_targets agents id (target ∷ rest) =
      push_if (not (contains_key target agents)) (agent_field id "subagents.allow")
        (unknown_agent target (keys agents))
      ++ unknown_targets agents id rest

  abbrev pub bad_temperature : f.F64 → Bool
  bad_temperature t = f.lt64 t f.zero64 || f.lt64 f.two64 t

  -- One turn of the loop over the agents.
  unfoldable pub validate_agent : Config f → String → AgentConfig f.F64 → Errors
  unfolding unknown_targets trim
  validate_agent cfg id agent =
      push_if (blank agent.model) (agent_field id "model") (model_required (keys cfg.providers))
      ++ push_if (bad_temperature agent.temperature) (agent_field id "temperature")
          (temperature_out_of_range agent.temperature)
      ++ push_if (agent.max_iterations == 0) (agent_field id "max_iterations") no_iterations
      ++ unknown_targets cfg.agents id agent.subagents.allow
      ++ push_if (not (is_empty cfg.providers) && not (contains_key agent.provider cfg.providers))
          (agent_field id "provider") (unknown_provider agent.provider (keys cfg.providers))

  unfoldable pub validate_each : Config f → StrMap (AgentConfig f.F64) → Errors
  unfolding validate_agent
  validate_each cfg [] = []
  validate_each cfg ((id, agent) ∷ rest) = validate_agent cfg id agent ++ validate_each cfg rest

  unfoldable pub validate_agents : Config f → Errors
  unfolding validate_each
  validate_agents cfg =
      if is_empty cfg.agents
      then push_if true (named "agents") no_agents
      else validate_each cfg cfg.agents

  unfoldable pub validate_rule : StrMap (AgentConfig f.F64) → ℕ → RoutingRule → Errors
  unfolding trim lookup
  validate_rule agents i rule =
      if blank rule.agent
      then push_if true (rule_agent i) rule_needs_agent
      else push_if (not (is_empty agents) && not (contains_key rule.agent agents)) (rule_agent i)
          (unknown_agent rule.agent (keys agents))

  unfoldable pub validate_rules : StrMap (AgentConfig f.F64) → ℕ → List RoutingRule → Errors
  unfolding validate_rule
  validate_rules agents i [] = []
  validate_rules agents i (rule ∷ rest) =
      validate_rule agents i rule ++ validate_rules agents (suc i) rest

  -- The loop over the rules, its flag, and the test after it.
  unfoldable pub validate_routing : Config f → Errors
  unfolding validate_rules
  validate_routing cfg =
      let has_default = any catches_all cfg.routing in
      validate_rules cfg.agents 0 cfg.routing
      ++ push_if (not has_default && not (is_empty cfg.routing) && ltb 1 (length cfg.agents))
          (named "routing") no_default_rule

  -- A field that must be one of a list of words.
  abbrev pub check_word : List String → Field → String → Errors
  check_word words field word = push_if (not (contains words word)) field (not_one_of words word)

  unfoldable pub validate_security : Config f → Errors
  unfolding contains
  validate_security cfg =
      check_word valid_levels (named "security.autonomy_level") cfg.security.autonomy_level
