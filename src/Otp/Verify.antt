-- ===== src/Otp/Verify.antt =====
-- Which codes `OtpProvider` of crates/adaclaw-security/src/otp.rs takes.
use ada_claw.Prelude.{
  ℕ, ◌+◌, ◌-◌, ◌/◌, ◌%◌, ◌^◌, ◌<◌, ◌≤◌, ◌≡◌, refl, sym, ap, ◌∙◌, Bool, true, false, ◌⊎◌, inl, inr,
  Option, none, some, List, [], ◌∷◌, ◌==◌, if◌then◌else◌, Codes, any, trim, byte_length, decimal,
  pad_zeros, parse_u32, arith, Bool-cases, length-pad_zeros, trim-pad_zeros, parse_u32-pad_zeros,
}
use ada_claw.Otp.Totp.{
  Hmac, OtpProvider, from_raw, hotp, window_from, accepts, verify, current_code,
}

hotp-lt : (h : Hmac) (secret : List ℕ) (counter : ℕ) → hotp h (from_raw secret) counter < 10 ^ 6
unfolding hotp
hotp-lt h secret counter = omega arith

any_here :
    (p : ℕ → Bool) (a b c d x : ℕ)
    → p x ≡ true
    → (x ≡ a) ⊎ ((x ≡ c) ⊎ (x ≡ d))
    → any p (a ∷ b ∷ c ∷ d ∷ []) ≡ true
any_here p a b c d x h (inl e) = rw (sym e, h) refl
any_here p a b c d x h (inr (inl e)) = ground (arith, ap p e)
any_here p a b c d x h (inr (inr e)) = ground (arith, ap p e)

any_found :
    (p : ℕ → Bool) (a b c d : ℕ)
    → any p (a ∷ b ∷ c ∷ d ∷ []) ≡ true
    → (x : ℕ) × ((x ≡ a) ⊎ ((x ≡ b) ⊎ ((x ≡ c) ⊎ (x ≡ d)))) × (p x ≡ true)
any_found p a b c d h = elim (Bool-cases (p a)) [
  | inl e ↦ (a, inl refl, e)
  | inr e ↦ elim (Bool-cases (p b)) [
    | inl f ↦ (b, inr (inl refl), f)
    | inr f ↦ elim (Bool-cases (p c)) [
      | inl g ↦ (c, inr (inr (inl refl)), g)
      | inr g ↦ (d, inr (inr (inr refl)), ground arith)
    ]
  ]
]

-- The counters that are tried, for the window of a new provider.
window_lem :
    (p : ℕ → Bool) (now at : ℕ)
    → at ≤ now + 30
    → now ≤ at + 30
    → now < 2 ^ 63
    → p (at / 30) ≡ true
    → any p (window_from (now / 30) 0 2) ≡ true
window_lem p now at h k l e =
    any_here p ((now / 30 + 0) % 2 ^ 64) ((now / 30 + 2 ^ 64 - 0) % 2 ^ 64)
      ((now / 30 + 1) % 2 ^ 64) ((now / 30 + 2 ^ 64 - 1) % 2 ^ 64) (at / 30) e (ground arith)

window_found :
    (p : ℕ → Bool) (now : ℕ)
    → 30 ≤ now
    → now < 2 ^ 63
    → any p (window_from (now / 30) 0 2) ≡ true
    → (x : ℕ) × (x ≤ now / 30 + 1) × (now / 30 ≤ x + 1) × (p x ≡ true)
window_found p now h k e =
    let (x, among, good) =
      any_found p ((now / 30 + 0) % 2 ^ 64) ((now / 30 + 2 ^ 64 - 0) % 2 ^ 64)
        ((now / 30 + 1) % 2 ^ 64) ((now / 30 + 2 ^ 64 - 1) % 2 ^ 64) e in
    (x, ground arith, ground arith, good)

verify_lem :
    (h : Hmac) (secret : List ℕ) (now : ℕ) (token : Codes)
    → verify h (from_raw secret) now token ≡ (
        if byte_length (trim token) == 6
        then accepts h (from_raw secret) (window_from (now / 30) 0 2) (parse_u32 (trim token))
        else false)
unfolding verify
verify_lem h secret now token = refl

-- A code is taken at every time that is at most thirty seconds before or after its own.
pub verify-current_code :
    (h : Hmac) (secret : List ℕ) (now at : ℕ)
    → at ≤ now + 30
    → now ≤ at + 30
    → now < 2 ^ 63
    → verify h (from_raw secret) now (current_code h (from_raw secret) at) ≡ true
unfolding current_code
verify-current_code h secret now at k l m =
    let self = from_raw secret in
    let code = hotp h self (at / 30) in
    let token = pad_zeros 6 (decimal code) in
    let small : code < 10 ^ 6 = hotp-lt h secret (at / 30) in
    verify_lem h secret now token
    ∙ rw
        (
          trim-pad_zeros 5 code small,
          length-pad_zeros 5 code small,
          parse_u32-pad_zeros 5 code small (omega (arith, small)) (omega (arith, small)),
        )
        (window_lem (λ c. hotp h self c == code) now at k l m (ground arith))

equal : (a b : ℕ) → (b == a) ≡ true → a ≡ b
equal a b h = ground arith

accepted :
    (h : Hmac) (self : OtpProvider) (counters : List ℕ) (b : Bool) (o : Option ℕ)
    → (if b then accepts h self counters o else false) ≡ true
    → (code : ℕ) × (o ≡ some code) × (any (λ c. hotp h self c == code) counters ≡ true)
accepted h self counters true none e = cc
accepted h self counters true (some code) e = (code, refl, e)
accepted h self counters false o e = cc

-- At a time after the first step, a token that is taken is, trimmed, the number that the counter of
-- the time or a counter next to it gives.
pub verify_sound :
    (h : Hmac) (secret : List ℕ) (now : ℕ) (token : Codes)
    → 30 ≤ now
    → now < 2 ^ 63
    → verify h (from_raw secret) now token ≡ true
    → (counter : ℕ) × (counter ≤ now / 30 + 1)
      × (now / 30 ≤ counter + 1)
      × (parse_u32 (trim token) ≡ some (hotp h (from_raw secret) counter))
verify_sound h secret now token k l m =
    let (code, e, found) =
      accepted h (from_raw secret) (window_from (now / 30) 0 2) (byte_length (trim token) == 6)
        (parse_u32 (trim token)) (sym (verify_lem h secret now token) ∙ m) in
    let (x, low, high, good) =
      window_found (λ c. hotp h (from_raw secret) c == code) now k l found in
    (x, low, high, e ∙ ap some (equal code (hotp h (from_raw secret) x) good))
