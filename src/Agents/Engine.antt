-- ===== src/Agents/Engine.antt =====
-- The history and the helpers of `AgentEngine`, from src/agents/engine.rs.
pub mod Topics
pub mod Compress
use ada_claw.Prelude.{
  ℕ, ◌+◌, ◌-◌, ◌/◌, String, Bool, true, false, not, ◌&&◌, ◌||◌, List, [], ◌∷◌, ◌++◌, leb, ◌==◌,
  if◌then◌else◌, length, take, drop, filter, any, map, codes, to_lower, contains_text, str_eq,
  Codes,
}
use ada_claw.Agents.Message.{ChatMessage, plain}

pub record MessageEntry : Type 0 where
  pub role : String
  pub content : String
  pub topic_id : String
  pub hidden : Bool

-- `MessageEntry::new`.
abbrev pub new_entry : String → String → String → MessageEntry
new_entry role content topic_id = record {
  role = role;
  content = content;
  topic_id = topic_id;
  hidden = false;
}

abbrev pub to_chat_message : MessageEntry → ChatMessage
to_chat_message m = plain m.role m.content

abbrev pub default_max_iterations : ℕ
default_max_iterations = 10

abbrev pub push_history : MessageEntry → List MessageEntry → List MessageEntry
push_history entry history = history ++ entry ∷ []

unfoldable pub visible_messages : List MessageEntry → List ChatMessage
visible_messages history = map to_chat_message (filter (λ m. not m.hidden) history)

abbrev pub hide_if_other : String → MessageEntry → MessageEntry
hide_if_other topic entry =
    if str_eq entry.topic_id topic then entry else record entry { hidden = true }

unfoldable pub prune_history_for_topic_switch : String → List MessageEntry → List MessageEntry
prune_history_for_topic_switch new_topic_id history = map (hide_if_other new_topic_id) history

-- `lower.contains(p)` for some pattern.
abbrev pub contains_any_of : List String → Codes → Bool
contains_any_of patterns text = any (λ p. contains_text (codes p) text) patterns

abbrev pub clean_patterns : List String
clean_patterns =
    "不要旧记忆" ∷ "不要之前的记忆" ∷ "忘掉之前" ∷ "忘记之前" ∷ "不要被之前" ∷ "不要用之前" ∷ "不用之前" ∷ "不要之前的上下文" ∷ "不要用旧"
    ∷ "清空背景" ∷ "全新思考" ∷ "不受之前影响" ∷ "当作第一次" ∷ "就当没聊过" ∷ "不用管之前" ∷ "不要历史记录" ∷ "清除上下文" ∷ "清空记忆"
    ∷ "forget previous" ∷ "ignore history" ∷ "ignore previous" ∷ "clean slate" ∷ "fresh start"
    ∷ "no memory" ∷ "without context" ∷ "without history" ∷ "without prior" ∷ "don't use previous"
    ∷ "don't use history" ∷ "don't use old" ∷ "as if we never" ∷ "as if it's the first" ∷ "/fresh"
    ∷ []

unfoldable pub detect_clean_intent : String → Bool
unfolding to_lower contains_text
detect_clean_intent message = contains_any_of clean_patterns (to_lower (codes message))

unfoldable pub detect_context_window_error : String → Bool
unfolding to_lower contains_text
detect_context_window_error err =
    let msg = to_lower (codes err) in
    contains_any_of
      ("context_length_exceeded" ∷ "context window" ∷ "maximum context" ∷ "request_too_large"
        ∷ "request too large" ∷ "input is too long" ∷ "prompt is too long" ∷ [])
      msg
    || (contains_text (codes "token") msg && contains_any_of ("exceed" ∷ "limit" ∷ []) msg)
    || (contains_text (codes "context") msg && contains_text (codes "length") msg)
    || contains_any_of
        ("invalidparameter" ∷ "context length" ∷ "exceeds the model's context length" ∷ []) msg

abbrev pub has_system : List ChatMessage → Bool
has_system [] = false
has_system (m ∷ rest) = str_eq m.role "system"

-- `drain(start..start + count)`.
abbrev pub drain : ℕ → ℕ → List ChatMessage → List ChatMessage
drain start count messages = take start messages ++ drop (start + count) messages

abbrev pub conv_start_of : List ChatMessage → ℕ
conv_start_of messages = if has_system messages then 1 else 0

unfoldable pub force_compress_messages : List ChatMessage → List ChatMessage
force_compress_messages messages =
    let conv_start = conv_start_of messages in
    let conv_len = length messages - (conv_start + 1) in
    let drop_count = conv_len / 2 in
    if leb (length messages) 4
    then messages
    else if conv_len == 0
    then messages
    else if drop_count == 0
    then messages
    else drain conv_start drop_count messages

abbrev pub failure_words : List String
failure_words = "error" ∷ "fail" ∷ "错误" ∷ "失败" ∷ "unable" ∷ "cannot" ∷ "无法" ∷ []

abbrev pub verification_keywords : List String
verification_keywords =
    "确认" ∷ "检查" ∷ "验证" ∷ "核实" ∷ "核查" ∷ "检验" ∷ "是否完成" ∷ "是否成功" ∷ "完成了吗" ∷ "有没有问题" ∷ "verify"
    ∷ "confirm" ∷ "make sure" ∷ "double check" ∷ "double-check" ∷ "check if" ∷ "check that"
    ∷ "ensure" ∷ "validate" ∷ "make certain" ∷ []

unfoldable pub needs_reflection_tier1 : String → String → Bool → ℕ → Bool
unfolding to_lower contains_text
needs_reflection_tier1 user_input response had_tool_error iterations_used =
    (had_tool_error && not (contains_any_of failure_words (to_lower (codes response))))
    || leb 2 iterations_used
    || contains_any_of verification_keywords (to_lower (codes user_input))
