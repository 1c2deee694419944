-- ===== src/Provider/Chain/Failover.antt =====
-- Which answer a request gets, where no breaker's cooldown passes while it runs.
use ada_claw.Prelude.{
  ℕ, suc, ◌-◌, ◌≡◌, refl, sym, ◌∙◌, ap, String, Bool, false, not, Option, none, some, inl, inr,
  List, [], ◌∷◌, filter, any, Result, ok, err, arith, if◌then◌else◌, Bool-cases, lookup, is_some,
  str_eq, leb,
}
use mathlib.Core.Path.{subst}
use ada_claw.Provider.Errors.{Error}
use ada_claw.Provider.Cooldown.{CooldownTracker, is_in_cooldown, check_entry}
use ada_claw.Provider.Cooldown.Breaker.{others_unchanged}
use ada_claw.Provider.Chain.{
  Provider, ChainState, ReliabilityChain, after_verdict, provider_loop, has_available_provider,
  chat_inner, no_providers, all_in_cooldown,
}
use ada_claw.Provider.Chain.Retry.{made, attempts_lem, last_reply, settle, reply_cases, after_last}

module _ {A : Type 0} where
  abbrev or_next : Result Error A → (Error → Result Error A) → Result Error A
  or_next (ok response) next = ok response
  or_next (err e) next = next e

  -- The first answer in the order of the list, and otherwise the last provider's last error.
  unfoldable pub first_answer : ℕ → List (Provider A) → Error → Result Error A
  first_answer retries [] last_err = err last_err
  first_answer retries (p ∷ ps) last_err =
      or_next (last_reply p retries 0) (first_answer retries ps)

  abbrev pub closed : CooldownTracker → Provider A → Bool
  closed t p = not (is_some (lookup p.name t.cooldowns))

  abbrev pub NoneNamed : String → List (Provider A) → Type 0
  NoneNamed name [] = Unit
  NoneNamed name (p ∷ ps) = (str_eq name p.name ≡ false) × NoneNamed name ps

  abbrev pub DistinctNames : List (Provider A) → Type 0
  DistinctNames [] = Unit
  DistinctNames (p ∷ ps) = NoneNamed p.name ps × DistinctNames ps

abbrev pub StaysOpen : (ℕ → ℕ) → Option (ℕ × ℕ) → Type 0
StaysOpen clock none = Unit
StaysOpen clock (some entry) = (reading : ℕ) → leb entry.1 (clock reading - entry.0) ≡ false

check_steady :
    (clock : ℕ → ℕ) (reading : ℕ) (name : String) (t : CooldownTracker) (entry : Option (ℕ × ℕ))
    → StaysOpen clock entry
    → check_entry (clock reading) name t entry ≡ (t, is_some entry)
unfolding check_entry
check_steady clock reading name t none steady = refl
check_steady clock reading name t (some entry) steady = rw (steady reading) refl

module _ {A : Type 0} where
  settled_lookup :
      (name another : String) (now : ℕ) (r : Result Error A) (t : CooldownTracker)
      → str_eq name another ≡ false
      → lookup another (settle now name r t).cooldowns ≡ lookup another t.cooldowns
  settled_lookup name another now (ok _) t other = (others_unchanged now name another t other).1
  settled_lookup name another now (err e) t other =
      ground (arith, (others_unchanged now name another t other).0)

module _ {A : Type 0} (clock : ℕ → ℕ) where
  -- At no reading of the clock has the cooldown of an open breaker passed.
  abbrev pub NoCooldownPasses : CooldownTracker → List (Provider A) → Type 0
  NoCooldownPasses t [] = Unit
  NoCooldownPasses t (p ∷ ps) = StaysOpen clock (lookup p.name t.cooldowns) × NoCooldownPasses t ps

  settled_steady :
      (name : String) (now : ℕ) (r : Result Error A) (t : CooldownTracker) (ps : List (Provider A))
      → NoneNamed name ps
      → NoCooldownPasses t ps
      → NoCooldownPasses (settle now name r t) ps
        × (filter (closed (settle now name r t)) ps ≡ filter (closed t) ps)
  settled_steady name now r t [] others steady = (tt, refl)
  settled_steady name now r t (p ∷ ps) others steady =
      let same = settled_lookup name p.name now r t others.0 in
      let rest = settled_steady name now r t ps others.1 steady.1 in
      ((subst (StaysOpen clock) (sym same) steady.0, rest.0), rw (rest.1, same) refl)

  is_in_cooldown_steady :
      (p : Provider A) (s : ChainState)
      → StaysOpen clock (lookup p.name s.tracker.cooldowns)
      → is_in_cooldown (clock s.readings) p.name s.tracker
        ≡ (s.tracker, is_some (lookup p.name s.tracker.cooldowns))
  unfolding is_in_cooldown
  is_in_cooldown_steady p s steady =
      check_steady clock s.readings p.name s.tracker (lookup p.name s.tracker.cooldowns) steady

  provider_loop_answer :
      (retries initial : ℕ) (ps : List (Provider A)) (last_err : Error) (s : ChainState)
      → DistinctNames ps
      → NoCooldownPasses s.tracker ps
      → (provider_loop clock retries initial ps last_err s).1
        ≡ first_answer retries (filter (closed s.tracker) ps) last_err
  unfolding provider_loop first_answer after_verdict
  provider_loop_answer retries initial [] last_err s distinct steady = refl
  provider_loop_answer retries initial (p ∷ ps) last_err s distinct steady =
      let t : ChainState = record s { readings = suc s.readings } in
      let reply = last_reply p retries 0 in
      rw (is_in_cooldown_steady p s steady.0)
        (elim (Bool-cases (is_some (lookup p.name s.tracker.cooldowns))) [
          | inl cooling ↦
              rw cooling (provider_loop_answer retries initial ps last_err t distinct.1 steady.1)
          | inr shut ↦ rw shut (
              rw (attempts_lem clock p initial retries 0 initial t refl) (elim (reply_cases reply) [
                | inl (response, same) ↦ rw same refl
                | inr (e, same) ↦ rw same (
                    let failed : Result Error A = err e in
                    let u = after_last clock p initial (made p retries 0) 0 failed t in
                    let settled =
                      settled_steady p.name (clock t.readings) failed s.tracker ps distinct.0
                        steady.1 in
                    provider_loop_answer retries initial ps e u distinct.1 settled.0
                    ∙ ap (λ rest. first_answer retries rest e) settled.1)
              ]))
        ])

  has_available_provider_lem :
      (ps : List (Provider A)) (s : ChainState)
      → NoCooldownPasses s.tracker ps
      → (readings : ℕ) × (has_available_provider clock ps s
          ≡ (record s { readings = readings }, any (closed s.tracker) ps))
  unfolding has_available_provider
  has_available_provider_lem [] s steady = (s.readings, refl)
  has_available_provider_lem (p ∷ ps) s steady =
      let t : ChainState = record s { readings = suc s.readings } in
      let (n, later) = has_available_provider_lem ps t steady.1 in
      elim (Bool-cases (is_some (lookup p.name s.tracker.cooldowns))) [
        | inl cooling ↦ (n, rw (is_in_cooldown_steady p s steady.0) (rw cooling later))
        | inr shut ↦ (suc s.readings, rw (is_in_cooldown_steady p s steady.0) (rw shut refl))
      ]

  -- With distinct names, and while no cooldown passes, a request gets the first answer in the order
  -- of the list among the providers whose breaker is closed at the start, and otherwise the last
  -- error of the last of them; with no such provider it fails at once.
  pub chat_inner_answer :
      (chain : ReliabilityChain A)
      → DistinctNames chain.providers
      → NoCooldownPasses chain.state.tracker chain.providers
      → (chat_inner clock chain).1 ≡ (
          if any (closed chain.state.tracker) chain.providers
          then first_answer chain.max_retries
              (filter (closed chain.state.tracker) chain.providers)
              no_providers
          else err all_in_cooldown)
  unfolding chat_inner
  chat_inner_answer chain distinct steady =
      let (n, asked) = has_available_provider_lem chain.providers chain.state steady in
      rw asked (elim (Bool-cases (any (closed chain.state.tracker) chain.providers)) [
        | inl available ↦ rw available (
            provider_loop_answer chain.max_retries chain.initial_backoff_ms chain.providers
              no_providers (record chain.state { readings = n }) distinct steady)
        | inr none_left ↦ rw none_left refl
      ])
