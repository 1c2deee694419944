-- ===== src/Agents/Parser.antt =====
-- src/agents/parser.rs, and `collect_text_tool_calls` of src/agents/engine.rs. A value of serde_json
-- is its compact text, which `to_string` gives.
pub mod Fences
pub mod Fuel
pub mod Unmarked
mod Examples
use ada_claw.Prelude.{
  ℕ, zero, suc, ◌+◌, String, Bool, true, false, not, ◌&&◌, ◌||◌, Option, none, some, List, [], ◌∷◌,
  ◌++◌, map, Codes, codes, codes_eq, trim, lines, strip_prefix, contains_text, byte_length, any,
  is_some, if◌then◌else◌, ltb, ◌==◌, length, str_eq,
}
use mathlib.Core.Option
use mathlib.Core.Option.{get_or}

-- serde_json: `from_str`, `get("name")` of an object where it is a string, `get("arguments")`, and
-- the object of a name and arguments.
pub record Json : Type 0 where
  pub from_str : Codes → Option String
  pub name_of : String → Option String
  pub arguments_of : String → Option String
  pub call_of : Codes → String → String

-- A native call, or one found in the text.
pub record PendingCall : Type 0 where
  pub id : Option String
  pub name : String
  pub args : String

-- `find` of a text, as the parts before and after its first place.
abbrev after_char : ℕ → Codes × Codes → Codes × Codes
after_char c (before, after) = (c ∷ before, after)

abbrev pub split_with : ℕ → Option Codes → Option (Codes × Codes) → Option (Codes × Codes)
split_with c (some after) later = some ([], after)
split_with c none later = Option.map (after_char c) later

unfoldable pub split_once : Codes → Codes → Option (Codes × Codes)
unfolding strip_prefix
split_once needle [] = Option.map (λ after. ([], after)) (strip_prefix needle [])
split_once needle (c ∷ s) =
    let later = split_once needle s in split_with c (strip_prefix needle (c ∷ s)) later

abbrev pub opens_fence : Codes → Bool
opens_fence trimmed =
    codes_eq trimmed (codes "```tool_call") || codes_eq trimmed (codes "```function_call")

abbrev pub xml_tag_names : List String
xml_tag_names = "tool_call" ∷ "function_call" ∷ "invoke" ∷ []

abbrev pub open_tag : String → Codes
open_tag tag = b'<' ∷ codes tag ++ b'>' ∷ []

abbrev pub close_tag : String → Codes
close_tag tag = b'<' ∷ b'/' ∷ codes tag ++ b'>' ∷ []

-- The names that a line `name>json` may have.
abbrev pub is_glm_name : Codes → Bool
is_glm_name name = not (
    length name == 0
    || ltb 64 (byte_length name)
    || any (λ c. any (λ x. c == x) (codes " <>{[\"'=/\\")) name)

module _ (json : Json) where
  abbrev pub is_valid_call : String → Bool
  is_valid_call val = is_some (json.name_of val)

  abbrev pub if_valid : Option String → List String
  if_valid none = []
  if_valid (some val) = if is_valid_call val then val ∷ [] else []

  abbrev pub call_in : Codes → List String
  call_in text = if_valid (json.from_str text)

  -- The lines after those read, and the buffer where a fence is open.
  unfoldable pub fence_loop : Option Codes → List Codes → List String
  unfolding trim
  fence_loop block [] = []
  fence_loop none (line ∷ rest) =
      let opened = fence_loop (some []) rest in
      let outside = fence_loop none rest in if opens_fence (trim line) then opened else outside
  fence_loop (some buf) (line ∷ rest) =
      let closed = fence_loop none rest in
      let inside = fence_loop (some (buf ++ line ++ 10 ∷ [])) rest in
      if codes_eq (trim line) (codes "```") then call_in (trim buf) ++ closed else inside

  unfoldable pub parse_markdown_fence : Codes → List String
  unfolding fence_loop lines
  parse_markdown_fence content = fence_loop none (lines content)

  abbrev pub after_open : String → Option (Codes × Codes) → Option (Codes × Codes)
  unfolding split_once
  after_open tag none = none
  after_open tag (some (_, after)) = split_once (close_tag tag) after

  -- What the body of the loop adds, before the loop goes on behind the end of the tag.
  unfoldable pub on_tag : (Codes → List String) → Option (Codes × Codes) → List String
  unfolding trim
  on_tag again none = []
  on_tag again (some (inner, rest)) = call_in (trim inner) ++ again rest

  -- The loop over one tag, on fuel.
  unfoldable pub tag_loop : ℕ → String → Codes → List String
  unfolding split_once on_tag
  tag_loop zero tag search = []
  tag_loop (suc fuel) tag search =
      on_tag (tag_loop fuel tag) (after_open tag (split_once (open_tag tag) search))

  unfoldable pub parse_tags : List String → Codes → List String
  unfolding tag_loop
  parse_tags [] content = []
  parse_tags (tag ∷ tags) content =
      tag_loop (suc (length content)) tag content ++ parse_tags tags content

  unfoldable pub parse_xml_tags : Codes → List String
  unfolding parse_tags
  parse_xml_tags content = parse_tags xml_tag_names content

  unfoldable pub glm_call : Option (Codes × Codes) → List String
  unfolding trim
  glm_call none = []
  glm_call (some (name, args)) = elim (json.from_str (trim args)) [
    | none ↦ []
    | some val ↦ if is_glm_name name then json.call_of name val ∷ [] else []
  ]

  unfoldable pub glm_loop : List Codes → List String
  unfolding glm_call split_once trim
  glm_loop [] = []
  glm_loop (line ∷ rest) = glm_call (split_once (b'>' ∷ []) (trim line)) ++ glm_loop rest

  unfoldable pub parse_glm_format : Codes → List String
  unfolding glm_loop lines
  parse_glm_format content = glm_loop (lines content)

  -- The first of two lists that is not empty.
  abbrev pub or_if_empty : List String → List String → List String
  or_if_empty [] later = later
  or_if_empty (call ∷ calls) later = call ∷ calls

  -- `ToolCallParser::parse`.
  unfoldable pub parse : Codes → List String
  unfolding parse_markdown_fence parse_xml_tags parse_glm_format
  parse content =
      or_if_empty (parse_markdown_fence content)
        (or_if_empty (parse_xml_tags content) (parse_glm_format content))

  abbrev pub pending_of : String → Option String → List PendingCall
  pending_of call none = []
  pending_of call (some name) =
      record { id = none; name = name; args = get_or (json.arguments_of call) "{}" } ∷ []

  -- The calls that were not seen before.
  unfoldable pub dedup : List String → List String → List PendingCall
  dedup seen [] = []
  dedup seen (call ∷ rest) =
      let skipped = dedup seen rest in
      let taken = dedup (call ∷ seen) rest in
      if any (str_eq call) seen then skipped else pending_of call (json.name_of call) ++ taken

  unfoldable pub collect_text_tool_calls : String → List PendingCall
  unfolding parse dedup
  collect_text_tool_calls content = dedup [] (parse (codes content))
