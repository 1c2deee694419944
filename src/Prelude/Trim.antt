-- ===== src/Prelude/Trim.antt =====
-- Texts on which `trim` changes nothing.
use mathlib.Core.Path.{◌≡◌, refl, ap, ◌∙◌}
use mathlib.Core.Bool.{Bool, false, ◌||◌}
use mathlib.Core.List.{List, [], ◌∷◌, ◌++◌, reverse, reverse-append, reverse-reverse}
use native.Mathlib.Omega.{arith}
use ada_claw.Prelude.Lists.{any}
use ada_claw.Prelude.Text.{Codes, is_whitespace, trim_start, trim}

pub any-append {ℓ} :
    {A : Type ℓ} (p : A → Bool) (xs ys : List A) → any p (xs ++ ys) ≡ (any p xs || any p ys)
any-append p [] ys = refl
any-append p (x ∷ xs) ys = ground (arith, any-append p xs ys)

pub any-reverse {ℓ} :
    {A : Type ℓ} (p : A → Bool) (xs : List A) → any p xs ≡ false → any p (reverse xs) ≡ false
any-reverse p [] h = refl
any-reverse p (x ∷ xs) h =
    ap (any p) (reverse-append (x ∷ []) xs)
    ∙ any-append p (reverse xs) (x ∷ [])
    ∙ ground (arith, any-reverse p xs)

trim_start-unspaced : (s : Codes) → any is_whitespace s ≡ false → trim_start s ≡ s
unfolding trim_start
trim_start-unspaced [] h = refl
trim_start-unspaced (c ∷ s) h = ground arith

pub trim-unspaced : (s : Codes) → any is_whitespace s ≡ false → trim s ≡ s
unfolding trim
trim-unspaced s h =
    rw (trim_start-unspaced s h, trim_start-unspaced (reverse s) (any-reverse is_whitespace s h))
      (reverse-reverse s)
