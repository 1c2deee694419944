-- ===== src/Config/Routed.antt =====
-- What a configuration without errors of src/config/validation.rs promises to src/bus/router.rs and to
-- the approval manager.
use ada_claw.Prelude.{
  ℕ, suc, ◌≡◌, refl, sym, String, Bool, true, false, not, ◌&&◌, ◌||◌, Option, none, some, is_some,
  List, [], ◌∷◌, ltb, lt→ltb, ◌<◌, length, any, StrMap, contains_key, contains, str_eq, arith,
  eq_iff, Bool-cases, inl, inr,
}
use ada_claw.Bus.Glob.{Regex}
use ada_claw.Bus.Router.{RoutingRule, InboundMessage, route_rules, route}
use ada_claw.Approval.Types.{AutonomyLevel, read_only, supervised, full, from_str}
use ada_claw.Config.Schema.{Floats, Config, AgentConfig}
use ada_claw.Config.Env.{Env}
use ada_claw.Config.Validation.{
  is_empty, catches_all, validate_rule, validate_rules, validate_routing, validate_security,
  valid_levels,
}
use ada_claw.Config.Checks.{validate}
use ada_claw.Config.Rules.{
  append_empty, push_if_empty, sections, rule_known, AllKnown, route_rules_known, route_rules_total,
}

-- The word of a level.
abbrev pub level_word : AutonomyLevel → String
level_word read_only = "readonly"
level_word supervised = "supervised"
level_word full = "full"

word_read_only : level_word (from_str "readonly") ≡ "readonly"
unfolding from_str
word_read_only = refl

word_supervised : level_word (from_str "supervised") ≡ "supervised"
unfolding from_str
word_supervised = refl

word_full : level_word (from_str "full") ≡ "full"
unfolding from_str
word_full = refl

unnegated : (b : Bool) → not b ≡ false → b ≡ true
unnegated true h = refl
unnegated false h = cc

third : (a b c : Bool) → (a || (b || (c || false))) ≡ true → a ≡ false → b ≡ false → c ≡ true
third true b c h k l = cc
third false true c h k l = cc
third false false true h k l = refl
third false false false h k l = cc

level_word-from_str :
    (word : String) → contains valid_levels word ≡ true → level_word (from_str word) ≡ word
unfolding contains
level_word-from_str word h = elim (Bool-cases (str_eq "readonly" word)) [
  | inl e ↦ rw (sym ((eq_iff "readonly" word).0 e)) word_read_only
  | inr e ↦ elim (Bool-cases (str_eq "supervised" word)) [
    | inl e' ↦ rw (sym ((eq_iff "supervised" word).0 e')) word_supervised
    | inr e' ↦ rw (sym ((eq_iff "full" word).0 (third _ _ _ h e e'))) word_full
  ]
]

covered :
    (default none_left many : Bool)
    → none_left ≡ false
    → many ≡ true
    → (not default && not none_left && many) ≡ false
    → default ≡ true
covered true none_left many h k l = refl
covered false true many h k l = cc
covered false false true h k l = cc
covered false false false h k l = cc

found : (o : Option String) → is_some o ≡ true → (a : String) × (o ≡ some a)
found none h = cc
found (some a) h = (a, refl)

filled {ℓ} : {V : Type ℓ} (agents : StrMap V) → 1 < length agents → is_empty agents ≡ false
filled [] h = absurd (omega arith)
filled (entry ∷ rest) h = refl

module _ (f : Floats) where
  rules_known :
      (agents : StrMap (AgentConfig f.F64)) (i : ℕ) (rules : List RoutingRule)
      → is_empty agents ≡ false
      → validate_rules f agents i rules ≡ []
      → AllKnown agents rules
  unfolding validate_rules
  rules_known agents i [] h k = tt
  rules_known agents i (rule ∷ rest) h k =
      let (first, others) = append_empty (validate_rule f agents i rule) _ k in
      (rule_known f agents i rule h first, rules_known agents (suc i) rest h others)

  routing_parts :
      (cfg : Config f)
      → validate_routing f cfg ≡ []
      → (validate_rules f cfg.agents 0 cfg.routing ≡ [])
        × ((not (any catches_all cfg.routing)
              && not (is_empty cfg.routing)
              && ltb 1 (length cfg.agents))
            ≡ false)
  unfolding validate_routing
  routing_parts cfg h =
      let (rules, more) = append_empty (validate_rules f cfg.agents 0 cfg.routing) _ h in
      (rules, push_if_empty f _ _ _ more)

  -- A configuration without errors has a rule and more than one agent: every message gets an agent,
  -- and one that is configured.
  pub validate-route :
      (rx : Regex) (env : Env) (cfg : Config f) (msg : InboundMessage)
      → validate f env cfg ≡ []
      → is_empty cfg.routing ≡ false
      → 1 < length cfg.agents
      → (agent : String) × (route rx (record { rules = cfg.routing }) msg ≡ some agent)
        × (contains_key agent cfg.agents ≡ true)
  unfolding route
  validate-route rx env cfg msg h k l =
      let (rules, flag) = routing_parts cfg ((sections f env cfg h).0) in
      let default : any catches_all cfg.routing ≡ true =
        covered (any catches_all cfg.routing) (is_empty cfg.routing) (ltb 1 (length cfg.agents)) k
          (lt→ltb 1 (length cfg.agents) l) flag in
      let (agent, e) =
        found (route_rules rx msg cfg.routing) (route_rules_total rx msg cfg.routing default) in
      (
        agent,
        e,
        route_rules_known rx cfg.agents msg cfg.routing agent
            (rules_known cfg.agents 0 cfg.routing (filled cfg.agents l) rules) e,
      )

  level_checked :
      (cfg : Config f)
      → validate_security f cfg ≡ []
      → not (contains valid_levels cfg.security.autonomy_level) ≡ false
  unfolding validate_security
  level_checked cfg h = push_if_empty f _ _ _ h

  -- A configuration without errors has the autonomy level that it names: the reading of the level does
  -- not fall back.
  pub validate-from_str :
      (env : Env) (cfg : Config f)
      → validate f env cfg ≡ []
      → level_word (from_str cfg.security.autonomy_level) ≡ cfg.security.autonomy_level
  validate-from_str env cfg h =
      level_word-from_str cfg.security.autonomy_level
        (unnegated _ (level_checked cfg ((sections f env cfg h).1)))
