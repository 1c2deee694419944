-- ===== src/Otp/Base32.antt =====
-- The base32 texts of crates/adaclaw-security/src/otp.rs. Bytes and code points are numbers; the
-- buffer keeps the 32 bits of its type. The bits that an `|` joins are disjoint, so it is a sum.
use ada_claw.Prelude.{
  ℕ, zero, suc, ◌+◌, ◌-◌, ◌*◌, ◌/◌, ◌%◌, ◌^◌, ◌&&◌, Option, none, some, List, [], ◌∷◌, ◌++◌, leb,
  ltb, ◌==◌, if◌then◌else◌, Codes, codes, get_elem_or,
}
use mathlib.Core.Option

abbrev pub base32_alphabet : Codes
base32_alphabet = codes "ABCDEFGHIJKLMNOPQRSTUVWXYZ234567"

abbrev pub symbol : ℕ → ℕ
symbol value = get_elem_or 0 (value % 32) base32_alphabet

-- The inner loop: the symbols that it pushes, and the bits that are left. The fuel is the number of
-- bits, of which each turn takes five.
unfoldable pub emit : ℕ → ℕ → ℕ → Codes × ℕ
emit zero buffer bits_left = ([], bits_left)
emit (suc fuel) buffer bits_left =
    let (symbols, left) = emit fuel buffer (bits_left - 5) in
    if leb 5 bits_left
    then (symbol (buffer / 2 ^ (bits_left - 5)) ∷ symbols, left)
    else ([], bits_left)

-- `(buffer << n) | low`.
abbrev pub shift_in : ℕ → ℕ → ℕ → ℕ
shift_in n buffer low = buffer * 2 ^ n % 2 ^ 32 + low

-- The loop over the bytes, and the last symbol.
unfoldable pub encode_loop : ℕ → ℕ → List ℕ → Codes
unfolding emit
encode_loop buffer bits_left [] =
    if ltb 0 bits_left then symbol (shift_in (5 - bits_left) buffer 0) ∷ [] else []
encode_loop buffer bits_left (byte ∷ rest) =
    let buffer' = shift_in 8 buffer byte in
    let (symbols, left) = emit (bits_left + 8) buffer' (bits_left + 8) in
    symbols ++ encode_loop buffer' left rest

unfoldable pub base32_encode : List ℕ → Codes
unfolding encode_loop
base32_encode bytes = encode_loop 0 0 bytes

abbrev pub to_ascii_uppercase : ℕ → ℕ
to_ascii_uppercase c = if leb b'a' c && leb c b'z' then c - 32 else c

-- `position`, counted from a start.
abbrev pub position_from : ℕ → ℕ → Codes → Option ℕ
position_from start a [] = none
position_from start a (x ∷ xs) =
    let later = position_from (suc start) a xs in if x == a then some start else later

-- What a character does to the buffer and the number of bits, and the byte that it completes.
abbrev pub Turn : Type 0
Turn = Option ℕ × ℕ × ℕ

abbrev pub push_value : ℕ → ℕ → ℕ → Turn
push_value buffer bits_left value =
    let buffer' = shift_in 5 buffer value in
    if leb 8 (bits_left + 5)
    then (some (buffer' / 2 ^ (bits_left + 5 - 8) % 256), buffer', bits_left + 5 - 8)
    else (none, buffer', bits_left + 5)

-- The comparison is on `ch_upper as u8`, the low byte of the code point.
unfoldable pub decode_char : ℕ → ℕ → ℕ → Option Turn
decode_char buffer bits_left ch =
    let ch_upper = to_ascii_uppercase ch in
    if ch_upper == b'='
    then some (none, buffer, bits_left)
    else Option.map (push_value buffer bits_left) (position_from 0 (ch_upper % 256) base32_alphabet)

abbrev pub push_byte : Option ℕ → List ℕ → List ℕ
push_byte none output = output
push_byte (some byte) output = byte ∷ output

abbrev pub after_turn : Option Turn → (ℕ → ℕ → Option (List ℕ)) → Option (List ℕ)
after_turn none rest = none
after_turn (some (byte, buffer, bits_left)) rest =
    Option.map (push_byte byte) (rest buffer bits_left)

unfoldable pub decode_loop : Codes → ℕ → ℕ → Option (List ℕ)
unfolding decode_char
decode_loop [] buffer bits_left = some []
decode_loop (ch ∷ rest) buffer bits_left =
    after_turn (decode_char buffer bits_left ch) (decode_loop rest)

unfoldable pub base32_decode : Codes → Option (List ℕ)
unfolding decode_loop
base32_decode input = decode_loop input 0 0
