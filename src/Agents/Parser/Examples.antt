-- ===== src/Agents/Parser/Examples.antt =====
-- Runs of the parser of tool calls, and the theorems at concrete texts.
use ada_claw.Prelude.{
  ◌≡◌, refl, String, Option, none, some, [], ◌∷◌, Codes, codes, codes_eq, arith, map, if◌then◌else◌,
}
use ada_claw.Agents.Parser.{Json, parse, collect_text_tool_calls, tag_loop}
use ada_claw.Agents.Parser.Fences.{Fence, write_fences, is_prose, is_body, parse-write_fences}
use ada_claw.Agents.Parser.Unmarked.{parse_unmarked}
use ada_claw.Agents.Parser.Fuel.{tag_loop_enough}

-- A reader of two texts, with a value each.
abbrev read : Codes → Option String
read text =
    if codes_eq text (codes "{\"name\":\"ls\"}")
    then some "{\"name\":\"ls\"}"
    else if codes_eq text (codes "{\"path\":\"a\"}")
    then some "{\"path\":\"a\"}"
    else none

abbrev json : Json
json = record {
  from_str = read;
  name_of = λ val. some "ls";
  arguments_of = λ val. none;
  call_of = λ name args. args;
}

abbrev tagged : Codes
tagged = codes "Listing. <tool_call> {\"name\":\"ls\"} </tool_call> <tool_call>no"

runs :
    (parse json tagged ≡ "{\"name\":\"ls\"}" ∷ [])
    × (parse json (codes "ls>{\"path\":\"a\"}\nx y>{\"path\":\"a\"}") ≡ "{\"path\":\"a\"}" ∷ [])
    × (parse json (codes "[{\"name\":\"ls\"}]") ≡ [])
    × (collect_text_tool_calls json
          "<invoke>{\"name\":\"ls\"}</invoke><invoke>{\"name\":\"ls\"}</invoke>"
        ≡ record { id = none; name = "ls"; args = "{}" } ∷ [])
unfolding parse collect_text_tool_calls
runs = (refl, refl, refl, refl)

abbrev listing : Fence
listing = record {
  prose = codes "I list the files." ∷ codes "```json" ∷ [];
  body = codes "  {\"name\":\"ls\"}";
  call = "{\"name\":\"ls\"}";
}

parse-write_fences_example :
    parse json (write_fences (listing ∷ [])) ≡ map (λ x. x.call) (listing ∷ [])
unfolding is_prose is_body
parse-write_fences_example = parse-write_fences json listing [] (refl, refl, refl, refl, tt)

tag_loop_enough_example : tag_loop json 100 "tool_call" tagged ≡ tag_loop json 70 "tool_call" tagged
tag_loop_enough_example = tag_loop_enough json 100 70 "tool_call" tagged (omega arith) (omega arith)

parse_unmarked_example : parse json (codes "[{\"name\":\"ls\"}]") ≡ []
parse_unmarked_example = parse_unmarked json (codes "[{\"name\":\"ls\"}]") refl
