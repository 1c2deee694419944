-- ===== src/Bus/Glob.antt =====
-- `glob_to_regex` of src/bus/router.rs, and what the patterns it writes mean.
-- The `regex` crate is an interface. Its law is the crate's documentation of the syntax that
-- `glob_to_regex` uses: in `^…$`, a literal, an escaped special character, `.` for one character but a
-- line feed, and `.*` for any number of those. Texts are lists of code points.
use ada_claw.Prelude.{
  ℕ, ◌≡◌, refl, ap, ◌∙◌, Bool, true, false, not, ◌&&◌, ◌||◌, Option, some, inl, inr, List, [], ◌∷◌,
  ◌++◌, ◌==◌, if◌then◌else◌, Codes, arith, Bool-cases, codes, any,
}

abbrev pub is_meta : ℕ → Bool
is_meta c =
    c == b'.'
    || c == b'+'
    || c == b'^'
    || c == b'$'
    || c == b'{'
    || c == b'}'
    || c == b'['
    || c == b']'
    || c == b'('
    || c == b')'
    || c == b'|'
    || c == b'\\'

-- The text pushed for one character.
unfoldable pub translate : ℕ → Codes
translate ch =
    if ch == b'*'
    then codes ".*"
    else if ch == b'?'
    then codes "."
    else if is_meta ch
    then b'\\' ∷ ch ∷ []
    else ch ∷ []

unfoldable pub glob_to_regex : Codes → Codes
unfolding translate
glob_to_regex [] = []
glob_to_regex (ch ∷ rest) = translate ch ++ glob_to_regex rest

-- `format!("^{}$", …)`.
abbrev pub anchored : Codes → Codes
anchored pattern = b'^' ∷ (pattern ++ (b'$' ∷ []))

-- The pieces of a pattern in the syntax that the law speaks of.
pub data Piece : Type 0 where
  any_run any_one : Piece
  literal escaped : ℕ → Piece

abbrev pub piece_text : Piece → Codes
piece_text any_run = codes ".*"
piece_text any_one = codes "."
piece_text (literal c) = c ∷ []
piece_text (escaped c) = b'\\' ∷ c ∷ []

abbrev pub pattern_text : List Piece → Codes
pattern_text [] = []
pattern_text (p ∷ ps) = piece_text p ++ pattern_text ps

-- The characters that the crate documents as special outside of a character class.
abbrev pub is_special : ℕ → Bool
is_special c = any (λ m. c == m) (codes "\\.+*?()|[]{}^$")

-- A literal is not special, and only special characters are escaped.
abbrev pub IsPattern : List Piece → Type 0
IsPattern [] = Unit
IsPattern (any_run ∷ ps) = IsPattern ps
IsPattern (any_one ∷ ps) = IsPattern ps
IsPattern (literal c ∷ ps) = (is_special c ≡ false) × IsPattern ps
IsPattern (escaped c ∷ ps) = (is_special c ≡ true) × IsPattern ps

-- Some end of the text passes the test, with no line feed before it.
abbrev pub some_end : (Codes → Bool) → Codes → Bool
some_end accepts [] = accepts []
some_end accepts (c ∷ t) = accepts (c ∷ t) || not (c == 10) && some_end accepts t

-- The first character passes the first test, and the others the second one.
abbrev pub head_then : (ℕ → Bool) → (Codes → Bool) → Codes → Bool
head_then first accepts [] = false
head_then first accepts (c ∷ t) = first c && accepts t

abbrev pub at_end : Codes → Bool
at_end [] = true
at_end (_ ∷ _) = false

-- Which whole texts a pattern accepts.
unfoldable pub accepts : List Piece → Codes → Bool
accepts [] t = at_end t
accepts (any_run ∷ ps) t = some_end (accepts ps) t
accepts (any_one ∷ ps) t = head_then (λ c. not (c == 10)) (accepts ps) t
accepts (literal l ∷ ps) t = head_then (λ c. l == c) (accepts ps) t
accepts (escaped l ∷ ps) t = head_then (λ c. l == c) (accepts ps) t

pub record Regex : Type 1 where
  pub Compiled : Type 0
  pub new : Codes → Option Compiled
  pub is_match : Compiled → Codes → Bool
  pub law :
      (ps : List Piece) (re : Compiled) (t : Codes)
      → IsPattern ps
      → new (anchored (pattern_text ps)) ≡ some re
      → is_match re t ≡ accepts ps t

-- What a glob means, on its own text: `*` is any run of characters and `?` one character, line
-- feeds excluded.
unfoldable pub glob_match : Codes → Codes → Bool
glob_match [] t = at_end t
glob_match (g ∷ rest) t =
    if g == b'*'
    then some_end (glob_match rest) t
    else if g == b'?'
    then head_then (λ c. not (c == 10)) (glob_match rest) t
    else head_then (λ c. g == c) (glob_match rest) t

abbrev piece_of : ℕ → Piece
piece_of g =
    if g == b'*'
    then any_run
    else if g == b'?'
    then any_one
    else if is_meta g
    then escaped g
    else literal g

pieces : Codes → List Piece
pieces [] = []
pieces (g ∷ rest) = piece_of g ∷ pieces rest

piece_text-piece_of : (g : ℕ) → piece_text (piece_of g) ≡ translate g
unfolding translate
piece_text-piece_of g = ground arith

pattern_text-pieces : (glob : Codes) → pattern_text (pieces glob) ≡ glob_to_regex glob
unfolding pieces glob_to_regex
pattern_text-pieces [] = refl
pattern_text-pieces (g ∷ rest) =
    rw (pattern_text-pieces rest) (ap (λ text. text ++ glob_to_regex rest) (piece_text-piece_of g))

meta_is_special : (c : ℕ) → is_meta c ≡ true → is_special c ≡ true
meta_is_special c h = ground arith

plain_is_not_special :
    (c : ℕ) → (c == b'*') ≡ false → (c == b'?') ≡ false → is_meta c ≡ false → is_special c ≡ false
plain_is_not_special c star question h = ground arith

pieces-IsPattern : (glob : Codes) → IsPattern (pieces glob)
unfolding pieces
pieces-IsPattern [] = tt
pieces-IsPattern (g ∷ rest) = elim (Bool-cases (g == b'*')) [
  | inl star ↦ rw star (pieces-IsPattern rest)
  | inr no_star ↦ elim (Bool-cases (g == b'?')) [
    | inl question ↦ rw (no_star, question) (pieces-IsPattern rest)
    | inr no_question ↦ elim (Bool-cases (is_meta g)) [
      | inl meta ↦ rw (no_star, no_question, meta) (meta_is_special g meta, pieces-IsPattern rest)
      | inr plain ↦
          rw (no_star, no_question, plain)
            (plain_is_not_special g no_star no_question plain, pieces-IsPattern rest)
    ]
  ]
]

some_end_cong :
    (f g : Codes → Bool) → ((t : Codes) → f t ≡ g t) → (t : Codes) → some_end f t ≡ some_end g t
some_end_cong f g same [] = same []
some_end_cong f g same (c ∷ t) = rw (same (c ∷ t), some_end_cong f g same t) refl

head_then_cong :
    (first : ℕ → Bool) (f g : Codes → Bool)
    → ((t : Codes) → f t ≡ g t)
    → (t : Codes) → head_then first f t ≡ head_then first g t
head_then_cong first f g same [] = refl
head_then_cong first f g same (c ∷ t) = rw (same t) refl

accepts-pieces : (glob t : Codes) → accepts (pieces glob) t ≡ glob_match glob t
unfolding accepts pieces glob_match
accepts-pieces [] t = refl
accepts-pieces (g ∷ rest) t = elim (Bool-cases (g == b'*')) [
  | inl star ↦
      rw star (some_end_cong (accepts (pieces rest)) (glob_match rest) (accepts-pieces rest) t)
  | inr no_star ↦ elim (Bool-cases (g == b'?')) [
    | inl question ↦
        rw (no_star, question)
          (head_then_cong (λ c. not (c == 10)) (accepts (pieces rest)) (glob_match rest)
            (accepts-pieces rest) t)
    | inr no_question ↦ elim (Bool-cases (is_meta g)) [
      | inl meta ↦
          rw (no_star, no_question, meta)
            (head_then_cong (λ c. g == c) (accepts (pieces rest)) (glob_match rest)
              (accepts-pieces rest) t)
      | inr plain ↦
          rw (no_star, no_question, plain)
            (head_then_cong (λ c. g == c) (accepts (pieces rest)) (glob_match rest)
              (accepts-pieces rest) t)
    ]
  ]
]

-- The pattern written for a glob matches exactly the texts that the glob means, metacharacters
-- included; `*` and `?` stand for no line feed.
pub glob_to_regex_lem :
    (rx : Regex) (glob t : Codes) (re : rx.Compiled)
    → rx.new (anchored (glob_to_regex glob)) ≡ some re
    → rx.is_match re t ≡ glob_match glob t
glob_to_regex_lem rx glob t re compiled =
    rx.law (pieces glob) re t (pieces-IsPattern glob) (rw (pattern_text-pieces glob) compiled)
    ∙ accepts-pieces glob t
