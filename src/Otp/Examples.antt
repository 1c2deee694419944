-- ===== src/Otp/Examples.antt =====
-- Runs of the one-time passwords, and the theorems about them at concrete inputs. The interface of
-- the MAC is filled by a function that gives the same bytes for every key and text.
use ada_claw.Prelude.{
  ◌≡◌, ◌+◌, ◌/◌, ◌≤◌, refl, true, some, List, [], ◌∷◌, ok, codes, arith, trim, parse_u32, ℕ,
}
use ada_claw.Otp.Base32.{base32_encode, base32_decode}
use ada_claw.Otp.Decode.{AreBytes}
use ada_claw.Otp.Totp.{Hmac, hotp, verify, current_code, from_raw, from_base32, secret_base32}
use ada_claw.Otp.Verify.{verify-current_code, verify_sound}
use ada_claw.Otp.Secret.{from_base32-secret_base32}
use ada_claw.Otp.Uri.{urlencoded}

abbrev hello : List ℕ
hello = codes "Hello"

encodes : base32_encode hello ≡ codes "JBSWY3DP"
unfolding base32_encode
encodes = refl

-- The low byte of the code point 0x142 is the letter B.
low_byte : base32_decode (0x142 ∷ codes "BB=") ≡ base32_decode (codes "BBB")
unfolding base32_decode
low_byte = refl

three_bytes : AreBytes (1 ∷ 255 ∷ 37 ∷ [])
three_bytes = (omega arith, (omega arith, (omega arith, tt)))

from_base32-secret_base32_example :
    from_base32 (secret_base32 (from_raw (1 ∷ 255 ∷ 37 ∷ []))) ≡ ok (from_raw (1 ∷ 255 ∷ 37 ∷ []))
from_base32-secret_base32_example = from_base32-secret_base32 1 (255 ∷ 37 ∷ []) three_bytes

-- The digest of the example of RFC 4226.
abbrev rfc_digest : List ℕ
rfc_digest =
    0x1F ∷ 0x86 ∷ 0x98 ∷ 0x69 ∷ 0x0E ∷ 0x02 ∷ 0xCA ∷ 0x16 ∷ 0x61 ∷ 0x85 ∷ 0x50 ∷ 0xEF ∷ 0x7F ∷ 0x19
    ∷ 0xDA ∷ 0x8E ∷ 0x94 ∷ 0x5B ∷ 0x55 ∷ 0x5A ∷ []

rfc_bytes : AreBytes rfc_digest
rfc_bytes = search (arith)

abbrev constant : Hmac
constant = record {
  digest = λ key text. rfc_digest;
  length-digest = λ key text. refl;
  digest-AreBytes = λ key text. rfc_bytes;
}

rfc_code : hotp constant (from_raw hello) 0 ≡ 872921
unfolding hotp
rfc_code = refl

-- A plus sign counts as one of the six characters.
signed : parse_u32 (codes "+12345") ≡ some 12345
unfolding parse_u32
signed = refl

verify-current_code_example :
    verify constant (from_raw hello) 1_031 (current_code constant (from_raw hello) 1_001) ≡ true
verify-current_code_example =
    verify-current_code constant hello 1_031 1_001 (omega arith) (omega arith) (omega arith)

verify_sound_example :
    (counter : ℕ) × (counter ≤ 1_031 / 30 + 1)
    × (1_031 / 30 ≤ counter + 1)
    × (parse_u32 (trim (codes " 872921 ")) ≡ some (hotp constant (from_raw hello) counter))
unfolding verify hotp
verify_sound_example =
    verify_sound constant hello 1_031 (codes " 872921 ") (omega arith) (omega arith) refl

-- The percent sign is followed by the code point, and not by the bytes of UTF-8.
not_bytes : urlencoded (codes "é中") ≡ codes "%E9%4E2D"
unfolding urlencoded
not_bytes = refl
