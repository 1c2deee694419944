-- ===== src/Otp/Decode.antt =====
-- The decoder of crates/adaclaw-security/src/otp.rs reads back what the encoder writes.
use ada_claw.Prelude.{
  ℕ, ◌+◌, ◌-◌, ◌/◌, ◌%◌, ◌^◌, ◌<◌, ◌≡◌, refl, ap, ◌∙◌, Bool, true, false, not, ◌&&◌, Option, none,
  some, List, [], ◌∷◌, leb, ◌==◌, if◌then◌else◌, Codes, get_elem_or, arith, below_passes,
  below_passes_lem,
}
use mathlib.Core.Option
use ada_claw.Otp.Base32.{
  symbol, shift_in, position_from, base32_alphabet, to_ascii_uppercase, push_value, decode_char,
  after_turn, decode_loop,
}

abbrev pub AreBytes : List ℕ → Type 0
AreBytes [] = Unit
AreBytes (b ∷ rest) = (b < 256) × AreBytes rest

-- A symbol of the alphabet reads as its value.
abbrev reads_as : Option ℕ → ℕ → Bool
reads_as none value = false
reads_as (some found) value = found == value

abbrev symbol_reads : ℕ → Bool
symbol_reads value =
    let upper = to_ascii_uppercase (symbol value) in
    not (upper == b'=') && reads_as (position_from 0 (upper % 256) base32_alphabet) value

symbols_read : below_passes symbol_reads 32 ≡ true
unfolding below_passes
symbols_read = refl

reads_as_sound : (o : Option ℕ) (value : ℕ) → reads_as o value ≡ true → o ≡ some value
reads_as_sound none value h = cc
reads_as_sound (some found) value h = ground arith

found_value {ℓ} :
    {B : Type ℓ} (pad : Bool) (found : Option ℕ) (value : ℕ) (skip : Option B) (f : ℕ → B)
    → (not pad && reads_as found value) ≡ true
    → (if pad then skip else Option.map f found) ≡ some (f value)
found_value true found value skip f h = cc
found_value false found value skip f h = ap (Option.map f) (reads_as_sound found value h)

char_value :
    (buffer bits value : ℕ)
    → symbol_reads value ≡ true
    → decode_char buffer bits (symbol value) ≡ some (push_value buffer bits value)
unfolding decode_char
char_value buffer bits value h =
    let upper = to_ascii_uppercase (symbol value) in
    found_value (upper == b'=') (position_from 0 (upper % 256) base32_alphabet) value
      (some (none, buffer, bits)) (push_value buffer bits) h

decode_loop-symbol :
    (value : ℕ) (rest : Codes) (buffer bits : ℕ)
    → decode_loop (symbol value ∷ rest) buffer bits
      ≡ after_turn (some (push_value buffer bits (value % 32))) (decode_loop rest)
unfolding decode_loop
decode_loop-symbol value rest buffer bits =
    let reduced : value % 32 ≡ value % 32 % 32 = omega arith in
    ap (λ turn. after_turn turn (decode_loop rest))
      (ap (λ w. decode_char buffer bits (get_elem_or 0 w base32_alphabet)) reduced
        ∙ char_value buffer bits (value % 32)
            (below_passes_lem symbol_reads 32 (value % 32) symbols_read (omega arith)))

pub decode_loop-nil : (buffer bits : ℕ) → decode_loop [] buffer bits ≡ some []
unfolding decode_loop
decode_loop-nil buffer bits = refl

-- A symbol that completes a byte, and one that does not.
pub decode_loop-byte :
    (value : ℕ) (rest : Codes) (buffer bits byte : ℕ) (bytes : List ℕ)
    → leb 8 (bits + 5) ≡ true
    → shift_in 5 buffer (value % 32) / 2 ^ (bits + 5 - 8) % 256 ≡ byte
    → decode_loop rest (shift_in 5 buffer (value % 32)) (bits + 5 - 8) ≡ some bytes
    → decode_loop (symbol value ∷ rest) buffer bits ≡ some (byte ∷ bytes)
decode_loop-byte value rest buffer bits byte bytes full h k =
    decode_loop-symbol value rest buffer bits
    ∙ ap
        (λ b.
          after_turn
            (some (
              if b
              then (
                some (shift_in 5 buffer (value % 32) / 2 ^ (bits + 5 - 8) % 256),
                shift_in 5 buffer (value % 32),
                bits + 5 - 8,
              )
              else (none, shift_in 5 buffer (value % 32), bits + 5)))
            (decode_loop rest))
        full
    ∙ rw (h, k) refl

pub decode_loop-no_byte :
    (value : ℕ) (rest : Codes) (buffer bits : ℕ) (bytes : List ℕ)
    → leb 8 (bits + 5) ≡ false
    → decode_loop rest (shift_in 5 buffer (value % 32)) (bits + 5) ≡ some bytes
    → decode_loop (symbol value ∷ rest) buffer bits ≡ some bytes
decode_loop-no_byte value rest buffer bits bytes more k =
    decode_loop-symbol value rest buffer bits
    ∙ ap
        (λ b.
          after_turn
            (some (
              if b
              then (
                some (shift_in 5 buffer (value % 32) / 2 ^ (bits + 5 - 8) % 256),
                shift_in 5 buffer (value % 32),
                bits + 5 - 8,
              )
              else (none, shift_in 5 buffer (value % 32), bits + 5)))
            (decode_loop rest))
        more
    ∙ rw k refl
