-- ===== src/Config/Schema.antt =====
-- The structs of src/config/schema.rs that the validation, the overrides and the migration read or
-- write, with the defaults that they use. Floating-point numbers are an interface.
use ada_claw.Prelude.{ℕ, String, Bool, false, Option, none, List, [], StrMap}
use ada_claw.Bus.Router.{RoutingRule}

-- The numbers of type `f64` and `f32`, with the constants and the comparisons of the code.
pub record Floats : Type 1 where
  pub F64 : Type 0
  pub zero64 : F64
  pub two64 : F64
  pub lt64 : F64 → F64 → Bool
  pub F32 : Type 0
  pub zero32 : F32
  pub one32 : F32
  pub le32 : F32 → F32 → Bool

pub record ProviderConfig : Type 0 where
  pub api_key : Option String
  pub base_url : Option String
  pub default_model : Option String
  pub timeout_secs : ℕ
  pub max_tokens : Option ℕ

-- The derived `Default`.
abbrev pub default_provider_config : ProviderConfig
default_provider_config = record {
  api_key = none;
  base_url = none;
  default_model = none;
  timeout_secs = 0;
  max_tokens = none;
}

pub record MemoryConfig (F : Type 0) : Type 0 where
  pub backend : String
  pub path : String
  pub embedding_provider : String
  pub embed_api_key : Option String
  pub embed_base_url : Option String
  pub vector_weight : F
  pub keyword_weight : F
  pub ttl_days : StrMap ℕ

pub record ChannelConfig : Type 0 where
  pub kind : String
  pub token : Option String
  pub webhook_secret : Option String
  pub use_webhook : Bool
  pub webhook_url : Option String
  pub allow_from : List String
  pub allow_from_groups : List String
  pub require_mention : Bool
  pub send_progress : Bool
  pub extra : StrMap String

-- The derived `Default`, of the kind that is given.
abbrev pub default_channel_config : String → ChannelConfig
default_channel_config kind = record {
  kind = kind;
  token = none;
  webhook_secret = none;
  use_webhook = false;
  webhook_url = none;
  allow_from = [];
  allow_from_groups = [];
  require_mention = false;
  send_progress = false;
  extra = [];
}

pub record SubAgentsConfig : Type 0 where
  pub allow : List String

pub record AgentConfig (F : Type 0) : Type 0 where
  pub provider : String
  pub model : String
  pub temperature : F
  pub tools : List String
  pub system_extra : Option String
  pub max_iterations : ℕ
  pub workspace : Option String
  pub subagents : SubAgentsConfig

-- Without `rate_limit`, which goes to the rate limiter as it is.
pub record SecurityConfig : Type 0 where
  pub autonomy_level : String
  pub allowlist : List String
  pub allow_full_outside_container : Bool
  pub workspace : Option String
  pub audit_log : Option String
  pub estop_state_path : Option String
  pub require_otp_for_estop : Bool
  pub auto_approve : List String
  pub always_ask : List String
  pub approval_timeout_minutes : ℕ

pub record ObservabilityConfig : Type 0 where
  pub backend : String
  pub runtime_trace_path : Option String
  pub runtime_trace_max_entries : ℕ

pub record GatewayConfig : Type 0 where
  pub bind : String
  pub bearer_token : Option String
  pub cors_enabled : Bool

-- Without the fields `tunnel`, `tools` and `heartbeat`.
pub record Config (f : Floats) : Type 0 where
  pub config_version : ℕ
  pub providers : StrMap ProviderConfig
  pub memory : MemoryConfig f.F32
  pub channels : StrMap ChannelConfig
  pub agents : StrMap (AgentConfig f.F64)
  pub routing : List RoutingRule
  pub security : SecurityConfig
  pub gateway : GatewayConfig
  pub observability : ObservabilityConfig
