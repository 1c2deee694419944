-- ===== src/Otp/Uri.antt =====
-- The provisioning URI of crates/adaclaw-security/src/otp.rs.
use ada_claw.Prelude.{
  ℕ, zero, suc, ◌+◌, ◌-◌, ◌/◌, ◌%◌, ◌≡◌, refl, sym, ap, ◌<◌, ◌∙◌, Bool, true, false, Bool-cases,
  inl, inr, below_passes, below_passes_lem, ltb→lt, ◌&&◌, ◌||◌, [], ◌∷◌, ◌++◌, leb, ltb, ◌==◌,
  if◌then◌else◌, Codes, codes, decimal, is_digit, arith,
}
use ada_claw.Otp.Totp.{OtpProvider, secret_base32}

abbrev pub hex_digit : ℕ → ℕ
hex_digit n = if ltb n 10 then b'0' + n else b'A' + (n - 10)

-- The hexadecimal digits before a text, with fuel for as many.
unfoldable pub hex_before : ℕ → ℕ → Codes → Codes
hex_before zero n text = text
hex_before (suc fuel) n text =
    let more = hex_before fuel (n / 16) (hex_digit (n % 16) ∷ text) in
    if ltb n 16 then hex_digit n ∷ text else more

-- `{:02X}` of a `u32`, which has at most eight digits.
unfoldable pub hex_02 : ℕ → Codes
unfolding hex_before
hex_02 n = if ltb n 16 then b'0' ∷ hex_digit n ∷ [] else hex_before 8 n []

abbrev pub is_unreserved : ℕ → Bool
is_unreserved c =
    leb b'A' c && leb c b'Z'
    || leb b'a' c && leb c b'z'
    || is_digit c
    || c == b'-'
    || c == b'_'
    || c == b'.'
    || c == b'~'

unfoldable pub urlencoded_char : ℕ → Codes
unfolding hex_02
urlencoded_char c =
    if is_unreserved c then c ∷ [] else if c == b' ' then b'+' ∷ [] else b'%' ∷ hex_02 c

unfoldable pub urlencoded : Codes → Codes
unfolding urlencoded_char
urlencoded [] = []
urlencoded (c ∷ rest) = urlencoded_char c ++ urlencoded rest

unfoldable pub provisioning_uri : OtpProvider → Codes → Codes → Codes
unfolding urlencoded secret_base32 decimal
provisioning_uri self account issuer =
    codes "otpauth://totp/"
    ++ urlencoded issuer
    ++ codes ":"
    ++ urlencoded account
    ++ codes "?secret="
    ++ secret_base32 self
    ++ codes "&issuer="
    ++ urlencoded issuer
    ++ codes "&algorithm=SHA1&digits="
    ++ decimal self.digits
    ++ codes "&period="
    ++ decimal self.step

-- The characters that a label of the URI may have: none of them ends or separates a part of it.
abbrev pub is_label : ℕ → Bool
is_label c = is_unreserved c || c == b'+' || c == b'%'

abbrev pub all_label : Codes → Bool
all_label [] = true
all_label (c ∷ rest) = is_label c && all_label rest

label_cons : (c : ℕ) (s : Codes) → is_label c ≡ true → all_label s ≡ true → all_label (c ∷ s) ≡ true
label_cons c s h k = ap (λ b. b && all_label s) h ∙ k

both : (a b : Bool) → (a && b) ≡ true → (a ≡ true) × (b ≡ true)
both true b h = (refl, h)
both false b h = cc

all_label-append :
    (s t : Codes) → all_label s ≡ true → all_label t ≡ true → all_label (s ++ t) ≡ true
all_label-append [] t h k = k
all_label-append (c ∷ s) t h k =
    let (first, others) = both (is_label c) (all_label s) h in
    label_cons c (s ++ t) first (all_label-append s t others k)

digits_label : below_passes (λ n. is_label (hex_digit n)) 16 ≡ true
unfolding below_passes
digits_label = refl

hex_digit-label : (n : ℕ) → n < 16 → is_label (hex_digit n) ≡ true
hex_digit-label n h = below_passes_lem (λ m. is_label (hex_digit m)) 16 n digits_label h

hex_before-label :
    (fuel n : ℕ) (text : Codes) → all_label text ≡ true → all_label (hex_before fuel n text) ≡ true
unfolding hex_before
hex_before-label zero n text h = h
hex_before-label (suc fuel) n text h = elim (Bool-cases (ltb n 16)) [
  | inl e ↦ rw e (label_cons (hex_digit n) text (hex_digit-label n (ltb→lt n 16 e)) h)
  | inr e ↦ rw e (
      hex_before-label fuel (n / 16) (hex_digit (n % 16) ∷ text)
        (label_cons (hex_digit (n % 16)) text (hex_digit-label (n % 16) (omega arith)) h))
]

padded-label :
    (n : ℕ) (b : Bool) (more : Codes)
    → ltb n 16 ≡ b
    → all_label more ≡ true
    → all_label (if b then b'0' ∷ hex_digit n ∷ [] else more) ≡ true
padded-label n true more h k = label_cons (hex_digit n) [] (hex_digit-label n (ltb→lt n 16 h)) refl
padded-label n false more h k = k

hex_02-label : (n : ℕ) → all_label (hex_02 n) ≡ true
unfolding hex_02
hex_02-label n = padded-label n (ltb n 16) (hex_before 8 n []) refl (hex_before-label 8 n [] refl)

chosen-label :
    (unreserved space : Bool) (c : ℕ) (hex : Codes)
    → ((unreserved || c == b'+' || c == b'%') ≡ is_label c)
    → all_label hex ≡ true
    → all_label (if unreserved then c ∷ [] else if space then b'+' ∷ [] else b'%' ∷ hex) ≡ true
chosen-label true space c hex h k = label_cons c [] (sym h) refl
chosen-label false true c hex h k = refl
chosen-label false false c hex h k = k

urlencoded_char-label : (c : ℕ) → all_label (urlencoded_char c) ≡ true
unfolding urlencoded_char
urlencoded_char-label c =
    chosen-label (is_unreserved c) (c == b' ') c (hex_02 c) refl (hex_02-label c)

-- A label is encoded without a character that ends or separates a part of the URI, whatever it is.
pub urlencoded-label : (s : Codes) → all_label (urlencoded s) ≡ true
unfolding urlencoded
urlencoded-label [] = refl
urlencoded-label (c ∷ rest) =
    all_label-append (urlencoded_char c) (urlencoded rest) (urlencoded_char-label c)
      (urlencoded-label rest)
