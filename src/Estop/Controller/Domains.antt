-- ===== src/Estop/Controller/Domains.antt =====
-- Which names a `DomainBlock` blocks.
use mathlib.Core.List.{reverse, reverse-append, reverse-reverse}
use ada_claw.Prelude.{
  ◌≡◌, refl, sym, ap, ◌∙◌, String, true, ◌↔◌, ◌⊎◌, inl, inr, some, List, [], ◌∷◌, ◌++◌, arith, any,
  Codes, codes, codes_eq, starts_with, ends_with, Bool-cases,
}
use ada_claw.Estop.Controller.{EstopController, domain_block, in_domain, is_domain_blocked}

starts_with-append : (p s : Codes) → starts_with p (p ++ s) ≡ true
unfolding starts_with
starts_with-append [] s = refl
starts_with-append (c ∷ p) s = ground (arith, starts_with-append p s)

starts_with_sound : (p s : Codes) → starts_with p s ≡ true → (rest : Codes) × (s ≡ p ++ rest)
unfolding starts_with
starts_with_sound [] s h = (s, refl)
starts_with_sound (c ∷ p) [] h = cc
starts_with_sound (c ∷ p) (d ∷ s) h =
    let (rest, e) = starts_with_sound p s (ground arith) in
    let same : c ≡ d = ground arith in (rest, rw (same, e))

pub ends_with-append : (suffix s : Codes) → ends_with suffix (s ++ suffix) ≡ true
unfolding ends_with
ends_with-append suffix s = rw reverse-append (starts_with-append (reverse suffix) (reverse s))

pub ends_with_sound :
    (suffix s : Codes) → ends_with suffix s ≡ true → (front : Codes) × (s ≡ front ++ suffix)
unfolding ends_with
ends_with_sound suffix s h =
    let (rest, e) = starts_with_sound (reverse suffix) (reverse s) h in
    (
      reverse rest,
      sym (reverse-reverse s)
          ∙ ap reverse e
          ∙ reverse-append (reverse suffix) rest
          ∙ ap (λ t. reverse rest ++ t) (reverse-reverse suffix),
    )

codes_eq_iff : (s t : Codes) → (codes_eq s t ≡ true) ↔ (s ≡ t)
codes_eq_iff [] [] = (λ _. refl, λ _. refl)
codes_eq_iff [] (b ∷ t) = (λ h. cc, λ h. cc)
codes_eq_iff (a ∷ s) [] = (λ h. cc, λ h. cc)
codes_eq_iff (a ∷ s) (b ∷ t) =
    (λ h. ground (arith, codes_eq_iff s t), λ h. ground (arith, codes_eq_iff s t))

-- The name is the domain, or ends in a dot and the domain.
abbrev pub IsUnder : String → String → Type 0
IsUnder domain d =
    (codes domain ≡ codes d) ⊎ ((front : Codes) × (codes domain ≡ front ++ b'.' ∷ codes d))

abbrev pub IsUnderOne : String → List String → Type 0
IsUnderOne domain [] = ⊥
IsUnderOne domain (d ∷ ds) = IsUnder domain d ⊎ IsUnderOne domain ds

in_domain_iff : (domain d : String) → (in_domain domain d ≡ true) ↔ IsUnder domain d
unfolding in_domain
in_domain_iff domain d = (to, from)
  where
    to : in_domain domain d ≡ true → IsUnder domain d
    to h = elim (Bool-cases (codes_eq (codes domain) (codes d))) [
      | inl same ↦ inl ((codes_eq_iff (codes domain) (codes d)).0 same)
      | inr other ↦ inr (ends_with_sound (b'.' ∷ codes d) (codes domain) (rw other at h))
    ]

    from : IsUnder domain d → in_domain domain d ≡ true
    from (inl same) = ground (arith, (codes_eq_iff (codes domain) (codes d)).1 same)
    from (inr (front, e)) =
        let hit : ends_with (b'.' ∷ codes d) (codes domain) ≡ true =
          rw e (ends_with-append (b'.' ∷ codes d) front) in
        ground arith

any-in_domain_iff :
    (domain : String) (ds : List String) → (any (in_domain domain) ds ≡ true) ↔ IsUnderOne domain ds
any-in_domain_iff domain [] = (λ h. cc, λ h. absurd h)
any-in_domain_iff domain (d ∷ ds) = (
  λ h. elim (Bool-cases (in_domain domain d)) [
    | inl hit ↦ inl ((in_domain_iff domain d).0 hit)
    | inr miss ↦ inr ((any-in_domain_iff domain ds).0 (rw miss at h))
  ],
  λ u. elim u [
    | inl here ↦ rw ((in_domain_iff domain d).1 here)
    | inr there ↦ ground (arith, (any-in_domain_iff domain ds).1 there)
  ],
)

-- While domains are blocked, a name is blocked exactly when it is one of them or lies under one of
-- them, dot and all.
pub domain_block_iff :
    (domain : String) (ds : List String) {T : Type 0} (c : EstopController T)
    → c.state.level ≡ some (domain_block ds)
    → (is_domain_blocked domain c ≡ true) ↔ IsUnderOne domain ds
unfolding is_domain_blocked
domain_block_iff domain ds c h = rw h (any-in_domain_iff domain ds)
