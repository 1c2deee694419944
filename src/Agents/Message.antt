-- ===== src/Agents/Message.antt =====
-- The messages of a conversation: `ToolCall`, `ImageData` and `ChatMessage` of
-- crates/adaclaw-core/src/provider.rs. The arguments of a call are their JSON text.
use ada_claw.Prelude.{String, Option, none, some, List, []}

pub record ToolCall : Type 0 where
  pub id : String
  pub name : String
  pub arguments : String

pub record ImageData : Type 0 where
  pub media_type : String
  pub data_base64 : String

pub record ChatMessage : Type 0 where
  pub role : String
  pub content : String
  pub tool_calls : List ToolCall
  pub tool_call_id : Option String
  pub images : List ImageData

-- `ChatMessage::new`.
abbrev pub plain : String → String → ChatMessage
plain role content = record {
  role = role;
  content = content;
  tool_calls = [];
  tool_call_id = none;
  images = [];
}

abbrev pub user_with_images : String → List ImageData → ChatMessage
user_with_images content images = record (plain "user" content) { images = images }

abbrev pub assistant_tool_calls : String → List ToolCall → ChatMessage
assistant_tool_calls content calls = record (plain "assistant" content) { tool_calls = calls }

abbrev pub tool_result : String → String → ChatMessage
tool_result id content = record (plain "tool" content) { tool_call_id = some id }
