-- ===== src/Config/Env.antt =====
-- `apply_env_overrides` of src/config/schema.rs. The environment gives a text for a name, or nothing
-- where `std::env::var` fails.
use ada_claw.Prelude.{
  String, Option, none, some, List, [], ◌∷◌, if◌then◌else◌, StrMap, lookup, insert, str_eq,
}
use mathlib.Core.Option.{get_or}
use ada_claw.Config.Schema.{
  Floats, Config, ProviderConfig, ChannelConfig, default_provider_config, default_channel_config,
}

abbrev pub Env : Type 0
Env = String → Option String

-- A provider, the variable with the prefix, and the bare one.
abbrev pub provider_env_keys : List (String × String × String)
provider_env_keys =
    ("openai", "ADACLAW_OPENAI_API_KEY", "OPENAI_API_KEY")
    ∷ ("anthropic", "ADACLAW_ANTHROPIC_API_KEY", "ANTHROPIC_API_KEY")
    ∷ ("openrouter", "ADACLAW_OPENROUTER_API_KEY", "OPENROUTER_API_KEY")
    ∷ ("deepseek", "ADACLAW_DEEPSEEK_API_KEY", "DEEPSEEK_API_KEY")
    ∷ ("groq", "ADACLAW_GROQ_API_KEY", "GROQ_API_KEY")
    ∷ ("gemini", "ADACLAW_GEMINI_API_KEY", "GEMINI_API_KEY")
    ∷ ("mistral", "ADACLAW_MISTRAL_API_KEY", "MISTRAL_API_KEY")
    ∷ ("xai", "ADACLAW_XAI_API_KEY", "XAI_API_KEY")
    ∷ ("qwen", "ADACLAW_QWEN_API_KEY", "DASHSCOPE_API_KEY")
    ∷ ("glm", "ADACLAW_GLM_API_KEY", "ZAI_API_KEY")
    ∷ ("moonshot", "ADACLAW_MOONSHOT_API_KEY", "MOONSHOT_API_KEY")
    ∷ ("minimax", "ADACLAW_MINIMAX_API_KEY", "MINIMAX_API_KEY")
    ∷ []

abbrev pub or_var : Option String → Option String → Option String
or_var (some text) other = some text
or_var none other = other

-- `entry(name).or_default()`, and a new value of the field.
abbrev pub set_api_key : String → Option String → StrMap ProviderConfig → StrMap ProviderConfig
set_api_key name none providers = providers
set_api_key name (some key) providers =
    let old = get_or (lookup name providers) default_provider_config in
    if str_eq key "" then providers else insert name (record old { api_key = some key }) providers

unfoldable pub with_keys :
    Env → List (String × String × String) → StrMap ProviderConfig → StrMap ProviderConfig
unfolding insert lookup
with_keys env [] providers = providers
with_keys env ((name, namespaced, bare) ∷ rest) providers =
    with_keys env rest (set_api_key name (or_var (env namespaced) (env bare)) providers)

abbrev pub set_base_url : Option String → StrMap ProviderConfig → StrMap ProviderConfig
set_base_url none providers = providers
set_base_url (some url) providers =
    let old = get_or (lookup "ollama" providers) default_provider_config in
    insert "ollama" (record old { base_url = some url }) providers

abbrev pub set_token : Option String → StrMap ChannelConfig → StrMap ChannelConfig
set_token none channels = channels
set_token (some token) channels =
    let old = get_or (lookup "telegram" channels) (default_channel_config "telegram") in
    insert "telegram" (record old { token = some token }) channels

unfoldable pub apply_env_overrides : (f : Floats) → Env → Config f → Config f
unfolding with_keys
apply_env_overrides f env cfg = record cfg {
  providers =
      set_base_url (env "ADACLAW_OLLAMA_URL") (with_keys env provider_env_keys cfg.providers);
  channels = set_token (env "ADACLAW_TELEGRAM_TOKEN") cfg.channels;
  gateway = record cfg.gateway {
    bearer_token = or_var (env "ADACLAW_BEARER_TOKEN") cfg.gateway.bearer_token;
  };
  security = record cfg.security {
    workspace = or_var (env "ADACLAW_WORKSPACE") cfg.security.workspace;
    autonomy_level = get_or (env "ADACLAW_AUTONOMY_LEVEL") cfg.security.autonomy_level;
  };
}
