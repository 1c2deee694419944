-- ===== src/Prelude/Tables.antt =====
-- Tests of every number below a bound, by evaluation.
use Prim.Native.Nat.{ℕ, zero, suc, ◌<◌}
use mathlib.Core.Path.{◌≡◌}
use mathlib.Core.Bool.{Bool, true, false, not}
use native.Mathlib.Omega.{arith}
use ada_claw.Prelude.Tests.{if◌then◌else◌}

unfoldable pub below_passes : (ℕ → Bool) → ℕ → Bool
below_passes p zero = true
below_passes p (suc n) = if p n then below_passes p n else false

pub below_passes_lem : (p : ℕ → Bool) (n x : ℕ) → below_passes p n ≡ true → x < n → p x ≡ true
unfolding below_passes
below_passes_lem p zero x h lt = absurd (omega arith)
below_passes_lem p (suc n) x h lt = ground (arith, below_passes_lem p n x)

abbrev pub bool_eq : Bool → Bool → Bool
bool_eq true b = b
bool_eq false b = not b
