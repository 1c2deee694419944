-- ===== src/Prelude/Decimal.antt =====
-- Decimal texts of `u32`: what `format!` writes and what `parse` reads.
use Prim.Native.Nat.{ℕ, zero, suc, ◌+◌, ◌-◌, ◌*◌, ◌/◌, ◌%◌, ◌^◌}
use mathlib.Core.Bool.{Bool, ◌&&◌}
use mathlib.Core.List.{[], ◌∷◌}
use mathlib.Core.Option.{Option, none, some}
use ada_claw.Prelude.Tests.{leb, ltb, ◌==◌, if◌then◌else◌}
use ada_claw.Prelude.Lists.{length}
use ada_claw.Prelude.Text.{Codes}

abbrev pub is_digit : ℕ → Bool
is_digit c = leb b'0' c && leb c b'9'

-- The digits before a text. The fuel is the number of digits that may be needed.
unfoldable pub decimal_before : ℕ → ℕ → Codes → Codes
decimal_before zero n text = text
decimal_before (suc fuel) n text =
    let more = decimal_before fuel (n / 10) ((b'0' + n % 10) ∷ text) in
    if ltb n 10 then (b'0' + n) ∷ text else more

-- A `u32` has at most ten digits.
unfoldable pub decimal : ℕ → Codes
unfolding decimal_before
decimal n = decimal_before 10 n []

abbrev pub zeros_before : ℕ → Codes → Codes
zeros_before zero text = text
zeros_before (suc n) text = b'0' ∷ zeros_before n text

-- `{:0>width$}`.
unfoldable pub pad_zeros : ℕ → Codes → Codes
pad_zeros width text = zeros_before (width - length text) text

-- The digits of a `u32`, with its checks of overflow.
unfoldable pub parse_digits : ℕ → Codes → Option ℕ
parse_digits value [] = some value
parse_digits value (c ∷ rest) =
    let value' = value * 10 + (c - b'0') in
    let more = parse_digits value' rest in if is_digit c && ltb value' (2 ^ 32) then more else none

abbrev unless_alone : Codes → Option ℕ → Option ℕ
unless_alone [] value = none
unless_alone (c ∷ rest) value = value

-- `parse::<u32>`: a plus sign may come first.
unfoldable pub parse_u32 : Codes → Option ℕ
unfolding parse_digits
parse_u32 [] = none
parse_u32 (c ∷ rest) =
    if c == b'+' then unless_alone rest (parse_digits 0 rest) else parse_digits 0 (c ∷ rest)
