-- ===== src/Agents/Parser/Fuel.antt =====
-- The loop over the tags of src/agents/parser.rs ends within its fuel.
use ada_claw.Prelude.{
  ℕ, zero, suc, ◌+◌, ◌≤◌, ◌<◌, ◌≡◌, refl, sym, ap, String, Option, none, some, List, [], ◌∷◌, ◌++◌,
  Codes, trim, strip_prefix, length, arith,
}
use mathlib.Core.Option
use ada_claw.Agents.Parser.{
  Json, split_with, split_once, open_tag, close_tag, after_open, call_in, on_tag, tag_loop,
}

strip_prefix-length : (p s r : Codes) → strip_prefix p s ≡ some r → length r + length p ≡ length s
unfolding strip_prefix
strip_prefix-length [] s r h = ground (arith, h)
strip_prefix-length (x ∷ p) [] r h = cc
strip_prefix-length (x ∷ p) (c ∷ s) r h = ground (arith, strip_prefix-length p s r)

-- A part after a needle that was found is shorter by the needle at least.
abbrev Shorter : Codes → Codes → Option (Codes × Codes) → Type 0
Shorter needle s none = Unit
Shorter needle s (some (before, after)) = length after + length needle ≤ length s

split_with-Shorter :
    (needle s : Codes) (c : ℕ) (stripped : Option Codes) (later : Option (Codes × Codes))
    → strip_prefix needle (c ∷ s) ≡ stripped
    → Shorter needle s later
    → Shorter needle (c ∷ s) (split_with c stripped later)
split_with-Shorter needle s c none none e h = tt
split_with-Shorter needle s c none (some (before, after)) e h = omega (arith, h)
split_with-Shorter needle s c (some after) later e h =
    omega (arith, strip_prefix-length needle (c ∷ s) after e)

split_at_end :
    (needle : Codes) (stripped : Option Codes)
    → strip_prefix needle [] ≡ stripped
    → Shorter needle [] (Option.map (λ after. ([], after)) stripped)
split_at_end needle none e = tt
split_at_end needle (some after) e = omega (arith, strip_prefix-length needle [] after e)

split_once-Shorter : (needle s : Codes) → Shorter needle s (split_once needle s)
unfolding split_once
split_once-Shorter needle [] = split_at_end needle (strip_prefix needle []) refl
split_once-Shorter needle (c ∷ s) =
    split_with-Shorter needle s c (strip_prefix needle (c ∷ s)) _ refl (split_once-Shorter needle s)

after_found :
    (needle s inner rest : Codes) (found : Option (Codes × Codes))
    → Shorter needle s found
    → found ≡ some (inner, rest)
    → length rest + length needle ≤ length s
after_found needle s inner rest none h e = cc
after_found needle s inner rest (some (before, after)) h e =
    let same : after ≡ rest = cc in rw (sym same) h

module _ (json : Json) where
  -- What is left after a tag and its end is shorter than the text.
  after_open-length :
      (tag : String) (search inner rest : Codes) (found : Option (Codes × Codes))
      → Shorter (open_tag tag) search found
      → after_open json tag found ≡ some (inner, rest)
      → length rest < length search
  unfolding after_open
  after_open-length tag search inner rest none h e = cc
  after_open-length tag search inner rest (some (before, after)) h e = omega (
    arith,
    h,
    after_found (close_tag tag) after inner rest _ (split_once-Shorter (close_tag tag) after) e,
  )

  on_tag_same :
      (again other : Codes → List String) (bound : ℕ) (found : Option (Codes × Codes))
      → ((inner rest : Codes) → found ≡ some (inner, rest) → length rest < bound)
      → ((rest : Codes) → length rest < bound → again rest ≡ other rest)
      → on_tag json again found ≡ on_tag json other found
  unfolding on_tag
  on_tag_same again other bound none less same = refl
  on_tag_same again other bound (some (inner, rest)) less same =
      ap (λ calls. call_in json (trim inner) ++ calls) (same rest (less inner rest refl))

  -- Fuel beyond the length of the text changes nothing, so the loop over a tag, whose fuel is one
  -- more than that length, finds what it would find without a bound.
  pub tag_loop_enough :
      (n m : ℕ) (tag : String) (text : Codes)
      → length text < n
      → length text < m
      → tag_loop json n tag text ≡ tag_loop json m tag text
  unfolding tag_loop
  tag_loop_enough zero m tag text h k = absurd (omega arith)
  tag_loop_enough (suc n) zero tag text h k = absurd (omega arith)
  tag_loop_enough (suc n) (suc m) tag text h k =
      on_tag_same (tag_loop json n tag) (tag_loop json m tag) (length text) _
        (λ inner rest e.
          after_open-length tag text inner rest _ (split_once-Shorter (open_tag tag) text) e)
        (λ rest less. tag_loop_enough n m tag rest (omega arith) (omega arith))
