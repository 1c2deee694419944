-- ===== src/Agents/Parser/Fences.antt =====
-- Tool calls that are written in the fences of src/agents/parser.rs are read back.
use ada_claw.Prelude.{
  ◌≡◌, refl, ap, ◌∙◌, String, Bool, true, false, not, ◌&&◌, none, some, List, [], ◌∷◌, ◌++◌, map,
  Codes, codes, codes_eq, trim, lines, any, breaks_line, lines-append, trim_newline, &&_true,
}
use ada_claw.Agents.Parser.{
  Json, opens_fence, is_valid_call, call_in, fence_loop, parse_markdown_fence, or_if_empty, parse,
  parse_xml_tags, parse_glm_format,
}

-- A call in a fence, with the lines of text before it.
pub record Fence : Type 0 where
  pub prose : List Codes
  pub body : Codes
  pub call : String

abbrev write_lines : List Codes → Codes → Codes
write_lines [] rest = rest
write_lines (line ∷ more) rest = line ++ 10 ∷ write_lines more rest

unfoldable pub write_fences : List Fence → Codes
write_fences [] = []
write_fences (f ∷ rest) =
    write_lines f.prose
      (codes "```tool_call" ++ 10 ∷ (f.body ++ 10 ∷ (codes "```" ++ 10 ∷ write_fences rest)))

abbrev is_line : Codes → Bool
is_line line = not (any breaks_line line)

unfoldable pub is_prose : Codes → Bool
unfolding trim
is_prose line = is_line line && not (opens_fence (trim line))

abbrev pub all_prose : List Codes → Bool
all_prose [] = true
all_prose (line ∷ rest) = is_prose line && all_prose rest

unfoldable pub is_body : Codes → Bool
unfolding trim
is_body text = is_line text && not (codes_eq (trim text) (codes "```"))

two_refusals : (a b : Bool) → (not a && not b) ≡ true → (a ≡ false) × (b ≡ false)
two_refusals false false h = (refl, refl)
two_refusals false true h = cc
two_refusals true b h = cc

is_prose-parts :
    (line : Codes)
    → is_prose line ≡ true
    → (any breaks_line line ≡ false) × (opens_fence (trim line) ≡ false)
unfolding is_prose
is_prose-parts line h = two_refusals (any breaks_line line) (opens_fence (trim line)) h

is_body-parts :
    (text : Codes)
    → is_body text ≡ true
    → (any breaks_line text ≡ false) × (codes_eq (trim text) (codes "```") ≡ false)
unfolding is_body
is_body-parts text h = two_refusals (any breaks_line text) (codes_eq (trim text) (codes "```")) h

opening : opens_fence (trim (codes "```tool_call")) ≡ true
unfolding trim
opening = refl

closing : codes_eq (trim (codes "```")) (codes "```") ≡ true
unfolding trim
closing = refl

module _ (json : Json) where
  -- The fences are single lines of JSON, each with a call, after text that opens no fence.
  abbrev pub Readable : List Fence → Type 0
  Readable [] = Unit
  Readable (f ∷ rest) =
      (all_prose f.prose ≡ true)
      × (is_body f.body ≡ true)
      × (json.from_str (trim f.body) ≡ some f.call)
      × (is_valid_call json f.call ≡ true)
      × Readable rest

  fence_loop_outside :
      (line : Codes) (rest : List Codes)
      → opens_fence (trim line) ≡ false
      → fence_loop json none (line ∷ rest) ≡ fence_loop json none rest
  unfolding fence_loop
  fence_loop_outside line rest h = rw h refl

  fence_loop_opened :
      (line : Codes) (rest : List Codes)
      → opens_fence (trim line) ≡ true
      → fence_loop json none (line ∷ rest) ≡ fence_loop json (some []) rest
  unfolding fence_loop
  fence_loop_opened line rest h = rw h refl

  fence_loop_inside :
      (buf line : Codes) (rest : List Codes)
      → codes_eq (trim line) (codes "```") ≡ false
      → fence_loop json (some buf) (line ∷ rest)
        ≡ fence_loop json (some (buf ++ line ++ 10 ∷ [])) rest
  unfolding fence_loop
  fence_loop_inside buf line rest h = rw h refl

  fence_loop_closed :
      (buf line : Codes) (rest : List Codes)
      → codes_eq (trim line) (codes "```") ≡ true
      → fence_loop json (some buf) (line ∷ rest)
        ≡ call_in json (trim buf) ++ fence_loop json none rest
  unfolding fence_loop
  fence_loop_closed buf line rest h = rw h refl

  call_in_readable :
      (text : Codes) (call : String)
      → json.from_str text ≡ some call
      → is_valid_call json call ≡ true
      → call_in json text ≡ call ∷ []
  call_in_readable text call r v = rw r (rw v refl)

  fence_loop-prose :
      (prose : List Codes) (rest : Codes)
      → all_prose prose ≡ true
      → fence_loop json none (lines (write_lines prose rest)) ≡ fence_loop json none (lines rest)
  fence_loop-prose [] rest h = refl
  fence_loop-prose (line ∷ more) rest h =
      let (first, later) = &&_true (is_prose line) (all_prose more) h in
      let (whole, quiet) = is_prose-parts line first in
      ap (fence_loop json none) (lines-append line (write_lines more rest) whole)
      ∙ fence_loop_outside line _ quiet
      ∙ fence_loop-prose more rest later

  fence_loop-fence :
      (f : Fence) (rest : Codes)
      → is_body f.body ≡ true
      → json.from_str (trim f.body) ≡ some f.call
      → is_valid_call json f.call ≡ true
      → fence_loop json none
          (lines (codes "```tool_call" ++ 10 ∷ (f.body ++ 10 ∷ (codes "```" ++ 10 ∷ rest))))
        ≡ f.call ∷ fence_loop json none (lines rest)
  fence_loop-fence f rest b r v =
      let (whole, unclosed) = is_body-parts f.body b in
      let end : Codes = codes "```" ++ 10 ∷ rest in
      ap (fence_loop json none) (lines-append (codes "```tool_call") (f.body ++ 10 ∷ end) refl)
      ∙ fence_loop_opened (codes "```tool_call") (lines (f.body ++ 10 ∷ end)) opening
      ∙ ap (fence_loop json (some [])) (lines-append f.body end whole)
      ∙ fence_loop_inside [] f.body (lines end) unclosed
      ∙ ap (fence_loop json (some (f.body ++ 10 ∷ []))) (lines-append (codes "```") rest refl)
      ∙ fence_loop_closed (f.body ++ 10 ∷ []) (codes "```") (lines rest) closing
      ∙ ap (λ calls. calls ++ fence_loop json none (lines rest))
          (ap (call_in json) (trim_newline f.body) ∙ call_in_readable (trim f.body) f.call r v)

  none_left : fence_loop json none (lines []) ≡ []
  unfolding fence_loop lines
  none_left = refl

  fence_loop-write_fences :
      (fences : List Fence)
      → Readable fences
      → fence_loop json none (lines (write_fences fences)) ≡ map (λ f. f.call) fences
  unfolding write_fences
  fence_loop-write_fences [] h = none_left
  fence_loop-write_fences (f ∷ rest) (p, b, r, v, later) =
      fence_loop-prose f.prose _ p
      ∙ fence_loop-fence f (write_fences rest) b r v
      ∙ ap (λ calls. f.call ∷ calls) (fence_loop-write_fences rest later)

  -- Calls that are written in fences, between lines that open none, are what the parser finds, in
  -- their order; the text is not searched for calls of the other forms.
  pub parse-write_fences :
      (f : Fence) (rest : List Fence)
      → Readable (f ∷ rest)
      → parse json (write_fences (f ∷ rest)) ≡ map (λ x. x.call) (f ∷ rest)
  unfolding parse parse_markdown_fence
  parse-write_fences f rest h =
      ap
        (λ calls. or_if_empty json calls (
          or_if_empty json (parse_xml_tags json (write_fences (f ∷ rest)))
            (parse_glm_format json (write_fences (f ∷ rest)))))
        (fence_loop-write_fences (f ∷ rest) h)
