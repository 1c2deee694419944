-- ===== src/Prelude/Digits.antt =====
-- The decimal texts of `u32` read back, and what they look like.
use Prim.Native.Nat.{ℕ, zero, suc, ◌+◌, ◌-◌, ◌/◌, ◌%◌, ◌^◌, ◌<◌, ◌≤◌}
use mathlib.Core.Path.{◌≡◌, refl, ap, ◌∙◌}
use mathlib.Core.Logic.{◌≢◌}
use mathlib.Core.Bool.{Bool, true, false, not, ◌&&◌}
use mathlib.Core.List.{[], ◌∷◌}
use mathlib.Core.Option.{some}
use native.Mathlib.Omega.{arith}
use ada_claw.Prelude.Lists.{length, any}
use ada_claw.Prelude.Text.{Codes, is_whitespace, trim, byte_length}
use ada_claw.Prelude.Tables.{below_passes, below_passes_lem}
use ada_claw.Prelude.Trim.{trim-unspaced}
use ada_claw.Prelude.Decimal.{
  is_digit, decimal_before, decimal, zeros_before, pad_zeros, parse_digits, parse_u32,
}

abbrev pub all_digits : Codes → Bool
all_digits [] = true
all_digits (c ∷ s) = is_digit c && all_digits s

decimal_before-digits :
    (fuel n : ℕ) (text : Codes)
    → all_digits text ≡ true
    → all_digits (decimal_before fuel n text) ≡ true
unfolding decimal_before
decimal_before-digits zero n text h = h
decimal_before-digits (suc fuel) n text h =
    ground (arith, decimal_before-digits fuel (n / 10) ((b'0' + n % 10) ∷ text))

length-decimal_before :
    (fuel n k : ℕ) (text : Codes)
    → n < 10 ^ suc k
    → length (decimal_before fuel n text) ≤ suc k + length text
unfolding decimal_before
length-decimal_before zero n k text h = omega arith
length-decimal_before (suc fuel) n zero text h = ground arith
length-decimal_before (suc fuel) n (suc k) text h =
    ground (arith, length-decimal_before fuel (n / 10) k ((b'0' + n % 10) ∷ text))

parse_digits-decimal_before :
    (fuel n : ℕ) (text : Codes)
    → n < 10 ^ fuel
    → n < 2 ^ 32
    → parse_digits 0 (decimal_before fuel n text) ≡ parse_digits n text
unfolding decimal_before parse_digits
parse_digits-decimal_before zero n text h k =
    let none_left : 0 ≡ n = omega arith in ap (λ m. parse_digits m text) none_left
parse_digits-decimal_before (suc fuel) n text h k =
    ground (arith, parse_digits-decimal_before fuel (n / 10) ((b'0' + n % 10) ∷ text))

zeros_before-digits :
    (n : ℕ) (text : Codes) → all_digits text ≡ true → all_digits (zeros_before n text) ≡ true
zeros_before-digits zero text h = h
zeros_before-digits (suc n) text h = zeros_before-digits n text h

length-zeros_before : (n : ℕ) (text : Codes) → length (zeros_before n text) ≡ n + length text
length-zeros_before zero text = omega arith
length-zeros_before (suc n) text = omega (arith, length-zeros_before n text)

parse_digits-zeros_before :
    (n : ℕ) (text : Codes) → parse_digits 0 (zeros_before n text) ≡ parse_digits 0 text
unfolding parse_digits
parse_digits-zeros_before zero text = refl
parse_digits-zeros_before (suc n) text = parse_digits-zeros_before n text

byte_length-digits : (s : Codes) → all_digits s ≡ true → byte_length s ≡ length s
byte_length-digits [] h = refl
byte_length-digits (c ∷ s) h = ground (arith, byte_length-digits s)

-- White space is no digit.
digit_dark : ℕ → Bool
digit_dark c = not (is_digit c && is_whitespace c)

digits_dark : below_passes digit_dark 58 ≡ true
unfolding below_passes digit_dark is_whitespace
digits_dark = refl

digit_unspaced : (c : ℕ) → is_digit c ≡ true → is_whitespace c ≡ false
unfolding digit_dark
digit_unspaced c h = ground (arith, below_passes_lem digit_dark 58 c digits_dark)

digits_unspaced : (s : Codes) → all_digits s ≡ true → any is_whitespace s ≡ false
digits_unspaced [] h = refl
digits_unspaced (c ∷ s) h = ground (arith, digit_unspaced c, digits_unspaced s)

parse_u32-digits : (s : Codes) → all_digits s ≡ true → length s ≢ 0 → parse_u32 s ≡ parse_digits 0 s
unfolding parse_u32
parse_u32-digits [] h k = absurd (k refl)
parse_u32-digits (c ∷ s) h k = ground arith

module _ (width n : ℕ) (fits : n < 10 ^ suc width) where
  pad_zeros-digits : all_digits (pad_zeros (suc width) (decimal n)) ≡ true
  unfolding pad_zeros decimal
  pad_zeros-digits =
      zeros_before-digits (suc width - length (decimal n)) (decimal n)
        (decimal_before-digits 10 n [] refl)

  pub length-pad_zeros : byte_length (pad_zeros (suc width) (decimal n)) ≡ suc width
  unfolding pad_zeros decimal
  length-pad_zeros =
      byte_length-digits _ pad_zeros-digits
      ∙ length-zeros_before (suc width - length (decimal n)) (decimal n)
      ∙ omega (arith, length-decimal_before 10 n width [] fits)

  pub trim-pad_zeros : trim (pad_zeros (suc width) (decimal n)) ≡ pad_zeros (suc width) (decimal n)
  trim-pad_zeros = trim-unspaced _ (digits_unspaced _ pad_zeros-digits)

  pad_zeros-filled : length (pad_zeros (suc width) (decimal n)) ≢ 0
  pad_zeros-filled e = absurd (
      omega (
        arith,
        e,
        length-pad_zeros,
        byte_length-digits (pad_zeros (suc width) (decimal n)) pad_zeros-digits,
      ))

  parse_digits-pad_zeros :
      n < 10 ^ 10 → n < 2 ^ 32 → parse_digits 0 (pad_zeros (suc width) (decimal n)) ≡ some n
  unfolding pad_zeros decimal parse_digits
  parse_digits-pad_zeros h k =
      parse_digits-zeros_before (suc width - length (decimal n)) (decimal n)
      ∙ parse_digits-decimal_before 10 n [] h k

  pub parse_u32-pad_zeros :
      n < 10 ^ 10 → n < 2 ^ 32 → parse_u32 (pad_zeros (suc width) (decimal n)) ≡ some n
  parse_u32-pad_zeros h k =
      parse_u32-digits _ pad_zeros-digits pad_zeros-filled ∙ parse_digits-pad_zeros h k
