-- ===== src/Config/Checks.antt =====
-- The checks of channels, memory and observability in src/config/validation.rs, and `validate`.
use ada_claw.Prelude.{
  String, Bool, true, not, ◌&&◌, is_some, List, [], ◌∷◌, ◌++◌, if◌then◌else◌, StrMap, lookup,
  contains, concat, str_eq,
}
use ada_claw.Config.Schema.{Floats, Config, MemoryConfig, ChannelConfig}
use ada_claw.Config.Env.{Env}
use ada_claw.Config.Validation.{
  named, channel_field, Errors, kind_required, not_one_of, needs_token, needs_extra,
  needs_embed_key, weight_out_of_range, blank, missing, push_if, check_word, validate_agents,
  validate_routing, validate_security,
}

abbrev pub valid_kinds : List String
valid_kinds =
    "telegram" ∷ "cli" ∷ "discord" ∷ "slack" ∷ "dingtalk" ∷ "feishu" ∷ "wechat_work" ∷ "webhook"
    ∷ "whatsapp" ∷ "email" ∷ "matrix" ∷ []

module _ (f : Floats) where
  abbrev pub check_token : String → ChannelConfig → Errors f
  check_token name ch =
      push_if f (not (is_some ch.token)) (channel_field name "token") (needs_token ch.kind)

  unfoldable pub check_extra : String → String → ChannelConfig → Errors f
  unfolding lookup concat
  check_extra name key ch =
      push_if f (missing (lookup key ch.extra)) (channel_field name (concat ("extra." ∷ key ∷ [])))
        (needs_extra key)

  -- The fields that a kind requires. A Telegram token may be in the environment.
  unfoldable pub required_fields : Env → String → ChannelConfig → Errors f
  unfolding check_extra
  required_fields env name ch =
      let no_token = check_token name ch in
      if str_eq ch.kind "telegram"
      then if is_some (env "ADACLAW_TELEGRAM_TOKEN") then [] else no_token
      else if str_eq ch.kind "discord"
      then no_token
      else if str_eq ch.kind "slack"
      then no_token
      else if str_eq ch.kind "feishu"
      then check_extra name "app_id" ch ++ check_extra name "app_secret" ch
      else if str_eq ch.kind "wechat_work"
      then no_token ++ check_extra name "encoding_aes_key" ch
      else if str_eq ch.kind "whatsapp"
      then no_token
      else []

  -- One turn of the loop over the channels.
  unfoldable pub validate_channel : Env → String → ChannelConfig → Errors f
  unfolding required_fields contains
  validate_channel env name ch =
      if blank ch.kind
      then push_if f true (channel_field name "kind") (kind_required valid_kinds)
      else if not (contains valid_kinds ch.kind)
      then push_if f true (channel_field name "kind") (not_one_of valid_kinds ch.kind)
      else required_fields env name ch

  unfoldable pub validate_channels : Env → StrMap ChannelConfig → Errors f
  unfolding validate_channel
  validate_channels env [] = []
  validate_channels env ((name, ch) ∷ rest) =
      validate_channel env name ch ++ validate_channels env rest

  abbrev pub in_unit : f.F32 → Bool
  in_unit x = f.le32 f.zero32 x && f.le32 x f.one32

  unfoldable pub validate_memory : Env → MemoryConfig f.F32 → Errors f
  unfolding contains
  validate_memory env memory =
      check_word f ("sqlite" ∷ "markdown" ∷ "none" ∷ []) (named "memory.backend") memory.backend
      ++ check_word f ("none" ∷ "fastembed" ∷ "openai" ∷ []) (named "memory.embedding_provider")
          memory.embedding_provider
      ++ push_if f
          (str_eq memory.embedding_provider "openai"
            && not (is_some memory.embed_api_key)
            && not (is_some (env "OPENAI_API_KEY"))
            && not (is_some (env "ADACLAW_OPENAI_API_KEY")))
          (named "memory.embed_api_key") needs_embed_key
      ++ push_if f (not (in_unit memory.vector_weight)) (named "memory.vector_weight")
          (weight_out_of_range memory.vector_weight)
      ++ push_if f (not (in_unit memory.keyword_weight)) (named "memory.keyword_weight")
          (weight_out_of_range memory.keyword_weight)

  unfoldable pub validate_observability : Config f → Errors f
  unfolding contains
  validate_observability cfg =
      check_word f ("noop" ∷ "log" ∷ "prometheus" ∷ []) (named "observability.backend")
        cfg.observability.backend

  unfoldable pub validate : Env → Config f → Errors f
  unfolding validate_agents validate_routing validate_security validate_channels validate_memory
      validate_observability
  validate env cfg =
      validate_agents f cfg
      ++ validate_routing f cfg
      ++ validate_security f cfg
      ++ validate_channels env cfg.channels
      ++ validate_memory env cfg.memory
      ++ validate_observability cfg
