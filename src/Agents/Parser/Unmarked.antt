-- ===== src/Agents/Parser/Unmarked.antt =====
-- A text without markers has no tool calls for src/agents/parser.rs.
use ada_claw.Prelude.{
  ℕ, zero, suc, ◌≡◌, refl, ap, ◌∙◌, String, Bool, true, false, ◌||◌, none, List, [], ◌∷◌, Codes,
  codes, codes_eq, trim, lines, strip_prefix, any, any_line, any_line-lines, neither, any-trim,
  arith, ◌==◌, length,
}
use mathlib.Core.Option
use ada_claw.Agents.Parser.{
  Json, split_with, split_once, opens_fence, open_tag, after_open, on_tag, tag_loop, parse_tags,
  parse_xml_tags, fence_loop, parse_markdown_fence, glm_call, glm_loop, parse_glm_format, parse,
}

abbrev pub is_mark : ℕ → Bool
is_mark c = c == b'`' || c == b'>'

-- Neither a backquote nor a `>`.
abbrev pub has_mark : Codes → Bool
has_mark s = any is_mark s

strip_prefix_unmarked :
    (needle s : Codes) → has_mark needle ≡ true → has_mark s ≡ false → strip_prefix needle s ≡ none
unfolding strip_prefix
strip_prefix_unmarked [] s h k = cc
strip_prefix_unmarked (x ∷ needle) [] h k = refl
strip_prefix_unmarked (x ∷ needle) (c ∷ s) h k = ground (arith, strip_prefix_unmarked needle s)

split_once_unmarked :
    (needle s : Codes) → has_mark needle ≡ true → has_mark s ≡ false → split_once needle s ≡ none
unfolding split_once
split_once_unmarked [] s h k = cc
split_once_unmarked (x ∷ needle) [] h k =
    ap (Option.map (λ after. ([], after))) (strip_prefix_unmarked (x ∷ needle) [] h k)
split_once_unmarked (x ∷ needle) (c ∷ s) h k =
    ap (λ o. split_with c o (split_once (x ∷ needle) s))
      (strip_prefix_unmarked (x ∷ needle) (c ∷ s) h k)
    ∙ ap (Option.map _)
        (split_once_unmarked (x ∷ needle) s h ((neither (is_mark c) (has_mark s) k).1))

unmarked_text :
    (x : ℕ) (more t : Codes) → is_mark x ≡ true → has_mark t ≡ false → codes_eq t (x ∷ more) ≡ false
unmarked_text x more [] h k = refl
unmarked_text x more (c ∷ t) h k = ground arith

opens_fence_unmarked : (t : Codes) → has_mark t ≡ false → opens_fence t ≡ false
opens_fence_unmarked t h =
    rw
      (
        unmarked_text b'`' (codes "``tool_call") t refl h,
        unmarked_text b'`' (codes "``function_call") t refl h,
      )
      refl

module _ (json : Json) where
  fence_loop_unmarked :
      (ls : List Codes) → any_line is_mark ls ≡ false → fence_loop json none ls ≡ []
  unfolding fence_loop
  fence_loop_unmarked [] h = refl
  fence_loop_unmarked (line ∷ rest) h =
      let (first, later) = neither (has_mark line) (any_line is_mark rest) h in
      rw (opens_fence_unmarked (trim line) (any-trim is_mark line first))
        (fence_loop_unmarked rest later)

  tag_loop_unmarked :
      (fuel : ℕ) (tag : String) (s : Codes)
      → has_mark (open_tag tag) ≡ true
      → has_mark s ≡ false
      → tag_loop json fuel tag s ≡ []
  unfolding tag_loop on_tag
  tag_loop_unmarked zero tag s h k = refl
  tag_loop_unmarked (suc fuel) tag s h k =
      ap (λ o. on_tag json (tag_loop json fuel tag) (after_open json tag o))
        (split_once_unmarked (open_tag tag) s h k)

  parse_xml_tags_unmarked : (s : Codes) → has_mark s ≡ false → parse_xml_tags json s ≡ []
  unfolding parse_xml_tags parse_tags
  parse_xml_tags_unmarked s h =
      rw
        (
          tag_loop_unmarked (suc (length s)) "tool_call" s refl h,
          tag_loop_unmarked (suc (length s)) "function_call" s refl h,
          tag_loop_unmarked (suc (length s)) "invoke" s refl h,
        )
        refl

  glm_loop_unmarked : (ls : List Codes) → any_line is_mark ls ≡ false → glm_loop json ls ≡ []
  unfolding glm_loop glm_call
  glm_loop_unmarked [] h = refl
  glm_loop_unmarked (line ∷ rest) h =
      let (first, later) = neither (has_mark line) (any_line is_mark rest) h in
      rw (split_once_unmarked (b'>' ∷ []) (trim line) refl (any-trim is_mark line first))
        (glm_loop_unmarked rest later)

  -- A text with neither a backquote nor a `>` has no calls, whatever JSON it contains.
  pub parse_unmarked : (content : Codes) → has_mark content ≡ false → parse json content ≡ []
  unfolding parse parse_markdown_fence parse_glm_format
  parse_unmarked content h =
      let unmarked = any_line-lines is_mark content h in
      rw (fence_loop_unmarked (lines content) unmarked, parse_xml_tags_unmarked content h)
        (glm_loop_unmarked (lines content) unmarked)
