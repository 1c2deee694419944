-- ===== src/Config/Examples.antt =====
-- A configuration of two agents, and the theorems about it. Floating-point numbers stand for tenths.
use ada_claw.Prelude.{
  ℕ, ◌≡◌, refl, String, true, false, none, some, List, [], ◌∷◌, ltb, leb, ok, arith, contains_key,
}
use ada_claw.Bus.Router.{InboundMessage, bare_default, route}
use ada_claw.Bus.Examples.{regex}
use ada_claw.Approval.Types.{from_str}
use ada_claw.Config.Schema.{Floats, Config, AgentConfig, default_channel_config}
use ada_claw.Config.Env.{Env, apply_env_overrides}
use ada_claw.Config.Migration.{migrate, treated_as_version_0}
use ada_claw.Config.Checks.{validate}
use ada_claw.Config.Routed.{validate-route, level_word, validate-from_str}

abbrev tenths : Floats
tenths = record {
  F64 = ℕ;
  zero64 = 0;
  two64 = 20;
  lt64 = ltb;
  F32 = ℕ;
  zero32 = 0;
  one32 = 10;
  le32 = leb;
}

abbrev agent : List String → AgentConfig ℕ
agent targets = record {
  provider = "openai";
  model = "gpt-4o";
  temperature = 7;
  tools = [];
  system_extra = none;
  max_iterations = 10;
  workspace = none;
  subagents = record { allow = targets };
}

abbrev config : Config tenths
config = record {
  config_version = 0;
  providers = [];
  memory = record {
    backend = "sqlite";
    path = "memory.db";
    embedding_provider = "none";
    embed_api_key = none;
    embed_base_url = none;
    vector_weight = 5;
    keyword_weight = 5;
    ttl_days = [];
  };
  channels = ("telegram", default_channel_config "telegram") ∷ [];
  agents = ("assistant", agent ("coder" ∷ [])) ∷ ("coder", agent []) ∷ [];
  routing = bare_default "assistant" ∷ [];
  security = record {
    autonomy_level = "supervised";
    allowlist = [];
    allow_full_outside_container = false;
    workspace = none;
    audit_log = none;
    estop_state_path = none;
    require_otp_for_estop = false;
    auto_approve = [];
    always_ask = [];
    approval_timeout_minutes = 30;
  };
  gateway = record { bind = "127.0.0.1:8080"; bearer_token = none; cors_enabled = false };
  observability = record {
    backend = "noop";
    runtime_trace_path = none;
    runtime_trace_max_entries = 1000;
  };
}

abbrev env : Env
env name = some "secret"

-- The level of the environment is not one of the words.
overridden : (apply_env_overrides tenths env config).security.autonomy_level ≡ "secret"
unfolding apply_env_overrides
overridden = refl

stamped :
    migrate tenths config ≡ ok (record config { config_version = 1 }, treated_as_version_0 ∷ [])
unfolding migrate
stamped = refl

valid : validate tenths env config ≡ []
unfolding validate
valid = refl

abbrev hello : InboundMessage
hello = record { channel = "telegram"; sender_id = "1"; sender_name = "Ann" }

validate-route_example :
    (given : String) × (route regex (record { rules = config.routing }) hello ≡ some given)
    × (contains_key given config.agents ≡ true)
validate-route_example = validate-route tenths regex env config hello valid refl (omega arith)

validate-from_str_example :
    level_word (from_str config.security.autonomy_level) ≡ config.security.autonomy_level
validate-from_str_example = validate-from_str tenths env config valid
