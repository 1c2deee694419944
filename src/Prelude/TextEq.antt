-- ===== src/Prelude/TextEq.antt =====
-- The comparison of texts as lists of code points.
use mathlib.Core.Path.{◌≡◌, refl}
use mathlib.Core.Bool.{true}
use mathlib.Core.List.{[], ◌∷◌}
use native.Mathlib.Omega.{arith}
use ada_claw.Prelude.Text.{Codes, codes_eq}

pub codes_eq_sound : (s t : Codes) → codes_eq s t ≡ true → s ≡ t
codes_eq_sound [] [] h = refl
codes_eq_sound [] (b ∷ t) h = cc
codes_eq_sound (a ∷ s) [] h = cc
codes_eq_sound (a ∷ s) (b ∷ t) h = ground (arith, codes_eq_sound s t)
