-- ===== src/Otp/RoundTrip.antt =====
-- The decoder of crates/adaclaw-security/src/otp.rs reads back what the encoder writes.
use ada_claw.Prelude.{ℕ, zero, suc, ◌-◌, ◌/◌, ◌%◌, ◌^◌, ◌<◌, ◌≡◌, refl, some, List, [], ◌∷◌, arith}
use ada_claw.Otp.Base32.{shift_in, encode_loop, base32_encode, decode_loop, base32_decode}
use ada_claw.Otp.Decode.{AreBytes, decode_loop-nil, decode_loop-byte, decode_loop-no_byte}

-- The bytes that the decoder still owes: the last one, while the encoder has not pushed all its bits.
abbrev held : ℕ → ℕ → List ℕ → List ℕ
held zero last bytes = bytes
held (suc left) last bytes = last ∷ bytes

-- With `left` bits of the last byte in the encoder, the decoder holds the others.
decode_loop-encode_loop :
    (bytes : List ℕ) (left buffer buffer' last : ℕ)
    → AreBytes bytes
    → last < 256
    → left < 5
    → buffer % 2 ^ left ≡ last % 2 ^ left
    → buffer' % 2 ^ (8 - left) ≡ last / 2 ^ left
    → decode_loop (encode_loop buffer left bytes) buffer' ((8 - left) % 8)
      ≡ some (held left last bytes)
unfolding encode_loop
decode_loop-encode_loop [] zero eb db p hb hp hl he hd = decode_loop-nil db 0
decode_loop-encode_loop [] (suc zero) eb db p hb hp hl he hd =
    decode_loop-byte (shift_in 4 eb 0) [] db 7 p [] refl (omega arith) (decode_loop-nil _ _)
decode_loop-encode_loop [] (suc (suc zero)) eb db p hb hp hl he hd =
    decode_loop-byte (shift_in 3 eb 0) [] db 6 p [] refl (omega arith) (decode_loop-nil _ _)
decode_loop-encode_loop [] (suc (suc (suc zero))) eb db p hb hp hl he hd =
    decode_loop-byte (shift_in 2 eb 0) [] db 5 p [] refl (omega arith) (decode_loop-nil _ _)
decode_loop-encode_loop [] (suc (suc (suc (suc zero)))) eb db p hb hp hl he hd =
    decode_loop-byte (shift_in 1 eb 0) [] db 4 p [] refl (omega arith) (decode_loop-nil _ _)
decode_loop-encode_loop bytes (suc (suc (suc (suc (suc left))))) eb db p hb hp hl he hd =
    absurd (omega arith)
decode_loop-encode_loop (b ∷ rest) zero eb db p hb hp hl he hd =
    let eb' = shift_in 8 eb b in
    decode_loop-no_byte _ _ db 0 _ refl (
      decode_loop-encode_loop rest 3 eb' (shift_in 5 db (eb' / 8 % 32)) b (hb.1) (hb.0)
        (omega arith) (omega arith) (omega arith))
decode_loop-encode_loop (b ∷ rest) (suc zero) eb db p hb hp hl he hd =
    let eb' = shift_in 8 eb b in
    decode_loop-byte (eb' / 16) _ db 7 p _ refl (omega arith) (
      decode_loop-encode_loop rest 4 eb' (shift_in 5 db (eb' / 16 % 32)) b (hb.1) (hb.0)
        (omega arith) (omega arith) (omega arith))
decode_loop-encode_loop (b ∷ rest) (suc (suc zero)) eb db p hb hp hl he hd =
    let eb' = shift_in 8 eb b in
    let db' = shift_in 5 (shift_in 5 db (eb' / 32 % 32)) (eb' / 1 % 32) in
    decode_loop-byte (eb' / 32) _ db 6 p _ refl (omega arith) (
      decode_loop-byte (eb' / 1) _ (shift_in 5 db (eb' / 32 % 32)) 3 b rest refl (omega arith) (
        decode_loop-encode_loop rest 0 eb' db' (db' % 256) (hb.1) (omega arith) (omega arith)
          (omega arith) (omega arith)))
decode_loop-encode_loop (b ∷ rest) (suc (suc (suc zero))) eb db p hb hp hl he hd =
    let eb' = shift_in 8 eb b in
    let db' = shift_in 5 (shift_in 5 db (eb' / 64 % 32)) (eb' / 2 % 32) in
    decode_loop-byte (eb' / 64) _ db 5 p _ refl (omega arith) (
      decode_loop-no_byte _ _ _ 2 _ refl (
        decode_loop-encode_loop rest 1 eb' db' b (hb.1) (hb.0) (omega arith) (omega arith)
          (omega arith)))
decode_loop-encode_loop (b ∷ rest) (suc (suc (suc (suc zero)))) eb db p hb hp hl he hd =
    let eb' = shift_in 8 eb b in
    let db' = shift_in 5 (shift_in 5 db (eb' / 128 % 32)) (eb' / 4 % 32) in
    decode_loop-byte (eb' / 128) _ db 4 p _ refl (omega arith) (
      decode_loop-no_byte _ _ _ 1 _ refl (
        decode_loop-encode_loop rest 2 eb' db' b (hb.1) (hb.0) (omega arith) (omega arith)
          (omega arith)))

-- Bytes that are encoded are decoded to themselves.
pub base32_decode-base32_encode :
    (bytes : List ℕ) → AreBytes bytes → base32_decode (base32_encode bytes) ≡ some bytes
unfolding base32_decode base32_encode
base32_decode-base32_encode bytes h =
    decode_loop-encode_loop bytes 0 0 0 0 h (omega arith) (omega arith) (omega arith) (omega arith)
