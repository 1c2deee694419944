-- ===== src/Otp/Totp.antt =====
-- `OtpProvider` of crates/adaclaw-security/src/otp.rs. The MAC is an interface, the clock an
-- argument in seconds, and the random bytes of a new secret are given.
use ada_claw.Prelude.{
  ℕ, zero, suc, ◌+◌, ◌-◌, ◌*◌, ◌/◌, ◌%◌, ◌^◌, ◌≡◌, Bool, false, Option, none, some, List, [], ◌∷◌,
  ◌++◌, Result, ok, err, ◌==◌, if◌then◌else◌, Codes, get_elem_or, length, any, trim, byte_length,
  decimal, pad_zeros, parse_u32,
}
use ada_claw.Otp.Base32.{base32_encode, base32_decode}
use ada_claw.Otp.Decode.{AreBytes}

-- HMAC-SHA1: twenty bytes for any key and text.
pub record Hmac : Type 0 where
  pub digest : List ℕ → List ℕ → List ℕ
  pub length-digest : (key text : List ℕ) → length (digest key text) ≡ 20
  pub digest-AreBytes : (key text : List ℕ) → AreBytes (digest key text)

pub record OtpProvider : Type 0 where
  pub secret : List ℕ
  pub digits : ℕ
  pub step : ℕ
  pub skew : ℕ

pub data OtpError : Type 0 where
  invalid_base32 empty_secret : OtpError

abbrev pub from_raw : List ℕ → OtpProvider
from_raw secret = record { secret = secret; digits = 6; step = 30; skew = 1 }

abbrev pub of_decoded : Option (List ℕ) → Result OtpError OtpProvider
of_decoded none = err invalid_base32
of_decoded (some []) = err empty_secret
of_decoded (some (b ∷ rest)) = ok (from_raw (b ∷ rest))

unfoldable pub from_base32 : Codes → Result OtpError OtpProvider
unfolding base32_decode trim
from_base32 secret_b32 = of_decoded (base32_decode (trim secret_b32))

unfoldable pub generate_secret : List ℕ → Codes
unfolding base32_encode
generate_secret bytes = base32_encode bytes

unfoldable pub secret_base32 : OtpProvider → Codes
unfolding base32_encode
secret_base32 self = base32_encode self.secret

abbrev pub to_be_bytes : ℕ → List ℕ
to_be_bytes n =
    n / 2 ^ 56 % 256
    ∷ n / 2 ^ 48 % 256
    ∷ n / 2 ^ 40 % 256
    ∷ n / 2 ^ 32 % 256
    ∷ n / 2 ^ 24 % 256
    ∷ n / 2 ^ 16 % 256
    ∷ n / 2 ^ 8 % 256
    ∷ n % 256
    ∷ []

-- Dynamic truncation. An index is below 19, and the digest has twenty bytes.
unfoldable pub truncate : List ℕ → ℕ
truncate result =
    let offset = get_elem_or 0 19 result % 16 in
    get_elem_or 0 offset result % 128 * 2 ^ 24
    + get_elem_or 0 (offset + 1) result * 2 ^ 16
    + get_elem_or 0 (offset + 2) result * 2 ^ 8
    + get_elem_or 0 (offset + 3) result

unfoldable pub hotp : Hmac → OtpProvider → ℕ → ℕ
unfolding truncate
hotp h self counter = truncate (h.digest self.secret (to_be_bytes counter)) % 10 ^ self.digits

abbrev pub current_counter : OtpProvider → ℕ → ℕ
current_counter self now = now / self.step

-- The counters of one turn, as `(counter as i64 + delta * sign) as u64`.
abbrev pub around : ℕ → ℕ → List ℕ
around counter delta = (counter + delta) % 2 ^ 64 ∷ (counter + 2 ^ 64 - delta) % 2 ^ 64 ∷ []

-- The turns of the loop from a delta on.
abbrev pub window_from : ℕ → ℕ → ℕ → List ℕ
window_from counter delta zero = []
window_from counter delta (suc turns) =
    around counter delta ++ window_from counter (suc delta) turns

abbrev pub accepts : Hmac → OtpProvider → List ℕ → Option ℕ → Bool
accepts h self counters none = false
accepts h self counters (some code) = any (λ c. hotp h self c == code) counters

unfoldable pub verify : Hmac → OtpProvider → ℕ → Codes → Bool
unfolding trim parse_u32
verify h self now token =
    let trimmed = trim token in
    let counters = window_from (current_counter self now) 0 (suc self.skew) in
    if byte_length trimmed == self.digits
    then accepts h self counters (parse_u32 trimmed)
    else false

unfoldable pub current_code : Hmac → OtpProvider → ℕ → Codes
unfolding decimal pad_zeros
current_code h self now = pad_zeros self.digits (decimal (hotp h self (current_counter self now)))
