-- ===== src/Otp/Secret.antt =====
-- Secrets as texts in crates/adaclaw-security/src/otp.rs: which texts are secrets, and that a
-- provider's own text gives the provider back.
use ada_claw.Prelude.{
  ℕ, zero, suc, ◌+◌, ◌-◌, ◌/◌, ◌%◌, ◌^◌, ◌≡◌, refl, ap, ◌∙◌, Bool, true, false, not, ◌&&◌, ◌||◌,
  Option, none, some, is_some, get_elem_or, List, [], ◌∷◌, ok, leb, ltb, ◌==◌, if◌then◌else◌, Codes,
  any, is_whitespace, arith, below_passes, below_passes_lem, any-append, trim-unspaced,
}
use mathlib.Core.Option
use ada_claw.Otp.Base32.{
  symbol, emit, shift_in, encode_loop, to_ascii_uppercase, position_from, base32_alphabet, Turn,
  push_value, decode_char, push_byte, after_turn, decode_loop, base32_decode,
}
use ada_claw.Otp.Decode.{AreBytes}
use ada_claw.Otp.RoundTrip.{base32_decode-base32_encode}
use ada_claw.Otp.Totp.{from_raw, of_decoded, from_base32, secret_base32}

-- A character that the decoder takes: padding, or one whose capital letter has its low byte in the
-- alphabet.
abbrev pub is_base32 : ℕ → Bool
is_base32 ch =
    let upper = to_ascii_uppercase ch in
    upper == b'=' || is_some (position_from 0 (upper % 256) base32_alphabet)

abbrev pub all_base32 : Codes → Bool
all_base32 [] = true
all_base32 (ch ∷ rest) = is_base32 ch && all_base32 rest

is_some-map {ℓ} : {A B : Type ℓ} (f : A → B) (o : Option A) → is_some (Option.map f o) ≡ is_some o
is_some-map f none = refl
is_some-map f (some a) = refl

is_some-skip {ℓ} :
    {A : Type ℓ} (pad : Bool) (a : A) (o : Option A)
    → is_some (if pad then some a else o) ≡ (pad || is_some o)
is_some-skip true a o = refl
is_some-skip false a o = refl

is_some-decode_char : (buffer bits ch : ℕ) → is_some (decode_char buffer bits ch) ≡ is_base32 ch
unfolding decode_char
is_some-decode_char buffer bits ch =
    let upper = to_ascii_uppercase ch in
    is_some-skip (upper == b'=') (none, buffer, bits) _
    ∙ ap (λ b. upper == b'=' || b)
        (is_some-map (push_value buffer bits) (position_from 0 (upper % 256) base32_alphabet))

is_some-after_turn :
    (turn : Option Turn) (rest : ℕ → ℕ → Option (List ℕ)) (b : Bool)
    → ((buffer bits : ℕ) → is_some (rest buffer bits) ≡ b)
    → is_some (after_turn turn rest) ≡ (is_some turn && b)
is_some-after_turn none rest b h = refl
is_some-after_turn (some (byte, buffer, bits)) rest b h =
    is_some-map (push_byte byte) (rest buffer bits) ∙ h buffer bits

is_some-decode_loop :
    (input : Codes) (buffer bits : ℕ) → is_some (decode_loop input buffer bits) ≡ all_base32 input
unfolding decode_loop
is_some-decode_loop [] buffer bits = refl
is_some-decode_loop (ch ∷ rest) buffer bits =
    is_some-after_turn (decode_char buffer bits ch) (decode_loop rest) (all_base32 rest)
      (is_some-decode_loop rest)
    ∙ ap (λ b. b && all_base32 rest) (is_some-decode_char buffer bits ch)

-- The decoder fails just on the texts with a character that it does not take.
pub is_some-base32_decode : (input : Codes) → is_some (base32_decode input) ≡ all_base32 input
unfolding base32_decode
is_some-base32_decode input = is_some-decode_loop input 0 0

-- No symbol is white space.
symbol_dark : ℕ → Bool
symbol_dark value = not (is_whitespace (symbol value))

symbols_dark : below_passes symbol_dark 32 ≡ true
unfolding below_passes symbol_dark is_whitespace
symbols_dark = refl

negated_false : (b : Bool) → not b ≡ true → b ≡ false
negated_false true h = cc
negated_false false h = refl

symbol_unspaced : (value : ℕ) → is_whitespace (symbol value) ≡ false
unfolding symbol_dark
symbol_unspaced value =
    let reduced : value % 32 ≡ value % 32 % 32 = omega arith in
    ap (λ w. is_whitespace (get_elem_or 0 w base32_alphabet)) reduced
    ∙ negated_false _ (below_passes_lem symbol_dark 32 (value % 32) symbols_dark (omega arith))

one_or_none :
    (b : Bool) (value left left' : ℕ) (rest : Codes)
    → any is_whitespace rest ≡ false
    → let pair : Codes × ℕ = if b then (symbol value ∷ rest, left) else ([], left') in
      any is_whitespace (pair.0) ≡ false
one_or_none true value left left' rest h = rw (symbol_unspaced value, h) refl
one_or_none false value left left' rest h = refl

emit_unspaced : (fuel buffer bits : ℕ) → any is_whitespace (emit fuel buffer bits).0 ≡ false
unfolding emit
emit_unspaced zero buffer bits = refl
emit_unspaced (suc fuel) buffer bits =
    one_or_none (leb 5 bits) (buffer / 2 ^ (bits - 5)) _ _ _ (emit_unspaced fuel buffer (bits - 5))

last_or_none :
    (b : Bool) (value : ℕ) → any is_whitespace (if b then symbol value ∷ [] else []) ≡ false
last_or_none true value = rw (symbol_unspaced value) refl
last_or_none false value = refl

encode_loop_unspaced :
    (bytes : List ℕ) (buffer bits : ℕ) → any is_whitespace (encode_loop buffer bits bytes) ≡ false
unfolding encode_loop
encode_loop_unspaced [] buffer bits = last_or_none (ltb 0 bits) (shift_in (5 - bits) buffer 0)
encode_loop_unspaced (b ∷ rest) buffer bits =
    let turn = emit (bits + 8) (shift_in 8 buffer b) (bits + 8) in
    any-append is_whitespace (turn.0) (encode_loop (shift_in 8 buffer b) (turn.1) rest)
    ∙ ap (λ c. c || any is_whitespace (encode_loop (shift_in 8 buffer b) (turn.1) rest))
        (emit_unspaced (bits + 8) (shift_in 8 buffer b) (bits + 8))
    ∙ encode_loop_unspaced rest (shift_in 8 buffer b) (turn.1)

-- A provider with a nonempty secret of bytes is given back by the text of its secret.
pub from_base32-secret_base32 :
    (b : ℕ) (rest : List ℕ)
    → AreBytes (b ∷ rest)
    → from_base32 (secret_base32 (from_raw (b ∷ rest))) ≡ ok (from_raw (b ∷ rest))
unfolding from_base32 secret_base32
from_base32-secret_base32 b rest h =
    ap (λ s. of_decoded (base32_decode s))
      (trim-unspaced (encode_loop 0 0 (b ∷ rest)) (encode_loop_unspaced (b ∷ rest) 0 0))
    ∙ ap of_decoded (base32_decode-base32_encode (b ∷ rest) h)
