-- ===== src/Prelude/Lines.antt =====
-- Texts that are written line by line, and read by `lines`.
use Prim.Native.Nat.{ℕ}
use mathlib.Core.Path.{◌≡◌, refl, ap, sym, ◌∙◌}
use mathlib.Core.Bool.{Bool, true, false, not, ◌&&◌, ◌||◌}
use mathlib.Core.List.{List, [], ◌∷◌, ◌++◌, reverse, reverse-append}
use mathlib.Core.Logic.{inl, inr}
use native.Mathlib.Omega.{arith}
use ada_claw.Prelude.Trim.{any-reverse}
use ada_claw.Prelude.Tests.{◌==◌, Bool-cases, if◌then◌else◌}
use ada_claw.Prelude.Lists.{any}
use ada_claw.Prelude.Text.{add_to_first, starts_with, Codes, lines, is_whitespace, trim, trim_start}

abbrev pub breaks_line : ℕ → Bool
breaks_line c = c == 10 || c == 13

pub &&_true : (a b : Bool) → (a && b) ≡ true → (a ≡ true) × (b ≡ true)
&&_true true true h = (refl, refl)
&&_true true false h = cc
&&_true false b h = cc

pub lines-append :
    (text rest : Codes)
    → any breaks_line text ≡ false
    → lines (text ++ 10 ∷ rest) ≡ text ∷ lines rest
unfolding lines
lines-append [] rest h = refl
lines-append (c ∷ text) rest h = ground (arith, lines-append text rest)

abbrev has_dark : Codes → Bool
has_dark s = any (λ c. not (is_whitespace c)) s

later_dark : (white rest : Bool) → white ≡ true → (not white || rest) ≡ true → rest ≡ true
later_dark true rest w h = h
later_dark false rest w h = cc

trim_start_newline :
    (s : Codes) → has_dark s ≡ true → trim_start (s ++ 10 ∷ []) ≡ trim_start s ++ 10 ∷ []
unfolding trim_start
trim_start_newline [] h = cc
trim_start_newline (c ∷ s) h = elim (Bool-cases (is_whitespace c)) [
  | inl white ↦ rw white (trim_start_newline s (later_dark (is_whitespace c) (has_dark s) white h))
  | inr dark ↦ rw dark refl
]

trim_start_blank : (s : Codes) → has_dark s ≡ false → trim_start s ≡ []
unfolding trim_start
trim_start_blank [] h = refl
trim_start_blank (c ∷ s) h = ground (arith, trim_start_blank s)

trim_start_blank_newline : (s : Codes) → has_dark s ≡ false → trim_start (s ++ 10 ∷ []) ≡ []
unfolding trim_start
trim_start_blank_newline [] h = refl
trim_start_blank_newline (c ∷ s) h = ground (arith, trim_start_blank_newline s)

-- A line feed at the end is white space.
pub trim_newline : (s : Codes) → trim (s ++ 10 ∷ []) ≡ trim s
unfolding trim trim_start
trim_newline s = elim (Bool-cases (has_dark s)) [
  | inl dark ↦
      ap (λ t. reverse (trim_start (reverse t))) (trim_start_newline s dark)
      ∙ ap (λ t. reverse (trim_start t)) (reverse-append (trim_start s) (10 ∷ []))
  | inr blank ↦
      ap (λ t. reverse (trim_start (reverse t)))
        (trim_start_blank_newline s blank ∙ sym (trim_start_blank s blank))
]

-- What no character of a text satisfies, none of its lines does.
abbrev pub any_line : (ℕ → Bool) → List Codes → Bool
any_line p ls = any (λ line. any p line) ls

any_line-add_to_first :
    (p : ℕ → Bool) (c : ℕ) (ls : List Codes)
    → p c ≡ false
    → any_line p ls ≡ false
    → any_line p (add_to_first c ls) ≡ false
any_line-add_to_first p c [] h k = rw h refl
any_line-add_to_first p c (line ∷ rest) h k = rw h k

chosen :
    (a b : Bool) (P : List Codes → Bool) (x y z : List Codes)
    → P x ≡ false
    → P y ≡ false
    → P z ≡ false
    → P (if a then x else if b then y else z) ≡ false
chosen true b P x y z h k l = h
chosen false true P x y z h k l = k
chosen false false P x y z h k l = l

pub neither : (a b : Bool) → (a || b) ≡ false → (a ≡ false) × (b ≡ false)
neither false false h = (refl, refl)
neither true b h = cc
neither false true h = cc

pub any_line-lines : (p : ℕ → Bool) (s : Codes) → any p s ≡ false → any_line p (lines s) ≡ false
unfolding lines
any_line-lines p [] h = refl
any_line-lines p (c ∷ s) h =
    let (first, later) = neither (p c) (any p s) h in
    let rest = any_line-lines p s later in
    chosen (c == 10) (c == 13 && starts_with (10 ∷ []) s) (any_line p) ([] ∷ lines s) (lines s)
      (add_to_first c (lines s)) rest rest (any_line-add_to_first p c (lines s) first rest)

any-trim_start : (p : ℕ → Bool) (s : Codes) → any p s ≡ false → any p (trim_start s) ≡ false
unfolding trim_start
any-trim_start p [] h = refl
any-trim_start p (c ∷ s) h = elim (Bool-cases (is_whitespace c)) [
  | inl white ↦ rw white (any-trim_start p s ((neither (p c) (any p s) h).1))
  | inr dark ↦ rw dark h
]

pub any-trim : (p : ℕ → Bool) (s : Codes) → any p s ≡ false → any p (trim s) ≡ false
unfolding trim
any-trim p s h = any-reverse p _ (any-trim_start p _ (any-reverse p _ (any-trim_start p s h)))
