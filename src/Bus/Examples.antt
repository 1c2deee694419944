-- ===== src/Bus/Examples.antt =====
-- Runs of the router. The stand-in for the `regex` crate reads a pattern back into its pieces.
use ada_claw.Prelude.{
  ◌≡◌, refl, ap, sym, ◌∙◌, false, Option, none, some, List, [], ◌∷◌, ◌++◌, ◌==◌, if◌then◌else◌,
  Codes, codes, arith, find,
}
use mathlib.Core.Option.{some-injective}
use ada_claw.Bus.Glob.{
  Regex, Piece, any_run, any_one, literal, escaped, pattern_text, IsPattern, accepts, anchored,
  glob_to_regex, glob_match, glob_to_regex_lem, at_end, translate,
}
use ada_claw.Bus.Router.{
  RoutingRule, InboundMessage, AgentRouter, route, applies, agent_of, bare_default,
  route_first_rule,
}

abbrev pub add_piece : Piece → Option (List Piece) → Option (List Piece)
add_piece p none = none
add_piece p (some ps) = some (p ∷ ps)

-- `escaping` after a backslash, and `dotted` after a dot whose piece is not known from it alone.
pub data Mode : Type 0 where
  plain escaping dotted : Mode

unfoldable pub parse : Mode → Codes → Option (List Piece)
parse plain [] = none
parse plain (c ∷ rest) =
    let as_escape = parse escaping rest in
    let as_dot = parse dotted rest in
    let as_literal = parse plain rest in
    if c == b'$'
    then if at_end rest then some [] else none
    else if c == b'\\'
    then as_escape
    else if c == b'.'
    then as_dot
    else add_piece (literal c) as_literal
parse escaping [] = none
parse escaping (c ∷ rest) = add_piece (escaped c) (parse plain rest)
parse dotted [] = none
parse dotted (c ∷ rest) =
    let as_escape = parse escaping rest in
    let as_dot = parse dotted rest in
    let as_literal = parse plain rest in
    if c == b'*'
    then add_piece any_run as_literal
    else add_piece any_one (
        if c == b'$'
        then if at_end rest then some [] else none
        else if c == b'\\'
        then as_escape
        else if c == b'.'
        then as_dot
        else add_piece (literal c) as_literal)

dotted_is_any_one :
    (ps : List Piece)
    → IsPattern ps
    → parse dotted (pattern_text ps ++ (b'$' ∷ []))
      ≡ add_piece any_one (parse plain (pattern_text ps ++ (b'$' ∷ [])))
unfolding parse
dotted_is_any_one [] ok = refl
dotted_is_any_one (any_run ∷ ps) ok = refl
dotted_is_any_one (any_one ∷ ps) ok = refl
dotted_is_any_one (literal c ∷ ps) ok = ground arith
dotted_is_any_one (escaped c ∷ ps) ok = refl

parse-pattern_text :
    (ps : List Piece) → IsPattern ps → parse plain (pattern_text ps ++ (b'$' ∷ [])) ≡ some ps
unfolding parse
parse-pattern_text [] ok = refl
parse-pattern_text (any_run ∷ ps) ok = rw (parse-pattern_text ps ok) refl
parse-pattern_text (any_one ∷ ps) ok = rw (dotted_is_any_one ps ok, parse-pattern_text ps ok) refl
parse-pattern_text (literal c ∷ ps) ok = ground (arith, parse-pattern_text ps ok.1)
parse-pattern_text (escaped c ∷ ps) ok = rw (parse-pattern_text ps ok.1) refl

unfoldable pub new : Codes → Option (List Piece)
new [] = none
new (c ∷ rest) = if c == b'^' then parse plain rest else none

pub new_law :
    (ps re : List Piece) (t : Codes)
    → IsPattern ps
    → new (anchored (pattern_text ps)) ≡ some re
    → accepts re t ≡ accepts ps t
unfolding new
new_law ps re t ok built =
    ap (λ qs. accepts qs t) (some-injective re ps (sym built ∙ parse-pattern_text ps ok))

abbrev pub regex : Regex
regex = record { Compiled = List Piece; new = new; is_match = accepts; law = new_law }

abbrev rules : List RoutingRule
rules =
    record {
      channel_pattern = some "telegram:*";
      sender_id = none;
      sender_name = none;
      is_default = false;
      agent = "coder";
    }
    ∷ record {
      channel_pattern = none;
      sender_id = none;
      sender_name = some "admin_?";
      is_default = false;
      agent = "admin";
    }
    ∷ bare_default "assistant"
    ∷ []

abbrev router : AgentRouter
router = record { rules = rules }

abbrev from_admin : InboundMessage
from_admin = record { channel = "cli"; sender_id = "u1"; sender_name = "admin_x" }

routed : route regex router from_admin ≡ some "admin"
unfolding route parse new accepts glob_to_regex translate
routed = refl

glob_to_regex_lem_example :
    accepts (literal b'a' ∷ escaped b'.' ∷ any_run ∷ []) (codes "a.b")
    ≡ glob_match (codes "a.*") (codes "a.b")
unfolding new parse glob_to_regex translate
glob_to_regex_lem_example =
    glob_to_regex_lem regex (codes "a.*") (codes "a.b") (literal b'a' ∷ escaped b'.' ∷ any_run ∷ [])
      refl

route_first_rule_example :
    route regex router from_admin ≡ agent_of (find (applies from_admin) rules)
unfolding new parse glob_to_regex translate
route_first_rule_example =
    route_first_rule regex router from_admin (refl, refl, (refl, refl, (refl, refl, tt)))
