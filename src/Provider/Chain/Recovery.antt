-- ===== src/Provider/Chain/Recovery.antt =====
-- The breakers of a chain after any requests, one after the other.
use ada_claw.Prelude.{
  ℕ, ◌-◌, ◌≡◌, refl, String, false, Option, none, some, inl, inr, List, [], ◌∷◌, Result, ok, err,
  arith, Bool-cases, lookup, lookup-insert, lookup-remove, str_eq, str_eq_refl, leb,
}
use ada_claw.Provider.Errors.{Error, classify_error, counts_as_circuit_failure}
use ada_claw.Provider.Cooldown
use ada_claw.Provider.Cooldown.{
  CooldownTracker, is_in_cooldown, check_entry, record_failure, record_success, next_count,
  calculate_cooldown, nanos,
}
use ada_claw.Provider.Chain
use ada_claw.Provider.Chain.{
  Provider, ChainState, ReliabilityChain, Verdict, answered, moved_on, ask_cooldown, attempts,
  after_verdict, provider_loop, has_available_provider, chat_inner, no_providers,
}
use ada_claw.Provider.Chain.Retry.{attempts_lem, last_reply, settle}

-- A breaker without a cooldown has no failures counted, and an open one opened for a minute.
abbrev First : Option (ℕ × ℕ) → Option ℕ → Type 0
First none count = count ≡ none
First (some entry) count = entry.1 ≡ nanos 60

abbrev AllFirst : CooldownTracker → Type 0
AllFirst t = (name : String) → First (lookup name t.cooldowns) (lookup name t.failure_counts)

forgotten : (name : String) (t : CooldownTracker) → AllFirst t → AllFirst (record_success name t)
unfolding record_success
forgotten name t all another =
    rw (lookup-remove name another t.cooldowns, lookup-remove name another t.failure_counts)
      (elim (Bool-cases (str_eq name another)) [
        | inl same ↦ rw same refl
        | inr other ↦ rw other (all another)
      ])

failed_first :
    (now : ℕ) (name : String) (t : CooldownTracker)
    → AllFirst t
    → lookup name t.failure_counts ≡ none
    → AllFirst (record_failure now name t)
unfolding record_failure calculate_cooldown
failed_first now name t all none_yet another =
    rw
      (
        lookup-insert name another (next_count name t) t.failure_counts,
        lookup-insert name another (now, nanos (calculate_cooldown (next_count name t)))
            t.cooldowns,
      )
      (elim (Bool-cases (str_eq name another)) [
        | inl same ↦ rw same (rw none_yet refl)
        | inr other ↦ rw other (all another)
      ])

-- Asking keeps it.
checked :
    (now : ℕ) (name : String) (t : CooldownTracker) (entry : Option (ℕ × ℕ))
    → AllFirst t
    → AllFirst (check_entry now name t entry).0
unfolding check_entry
checked now name t none all = all
checked now name t (some entry) all = elim (Bool-cases (leb entry.1 (now - entry.0))) [
  | inl passed ↦ rw passed (unfold record_success in forgotten name t all)
  | inr running ↦ rw running all
]

-- A breaker that is found closed has no failures counted.
checked_closed :
    (now : ℕ) (name : String) (t : CooldownTracker) (entry : Option (ℕ × ℕ))
    → First entry (lookup name t.failure_counts)
    → (check_entry now name t entry).1 ≡ false
    → lookup name (check_entry now name t entry).0.failure_counts ≡ none
unfolding check_entry
checked_closed now name t none first closed = first
checked_closed now name t (some entry) first closed =
    ground (arith, lookup-remove name name t.failure_counts, str_eq_refl name)

module _ {A : Type 0} (clock : ℕ → ℕ) where
  settled :
      (now : ℕ) (name : String) (reply : Result Error A) (t : CooldownTracker)
      → AllFirst t
      → lookup name t.failure_counts ≡ none
      → AllFirst (settle now name reply t)
  settled now name (ok _) t all none_yet = forgotten name t all
  settled now name (err e) t all none_yet =
      elim (Bool-cases (counts_as_circuit_failure (classify_error e))) [
        | inl counts ↦ rw counts (failed_first now name t all none_yet)
        | inr exempt ↦ rw exempt all
      ]

  tried :
      (p : Provider A) (retries initial : ℕ) (s : ChainState)
      → AllFirst s.tracker
      → lookup p.name s.tracker.failure_counts ≡ none
      → AllFirst (attempts clock p retries 0 initial s).0.tracker
  tried p retries initial s all none_yet =
      rw (attempts_lem clock p initial retries 0 initial s refl)
        (settled (clock s.readings) p.name (last_reply p retries 0) s.tracker all none_yet)

  went_on :
      (next : Error → ChainState → ChainState × Result Error A) (r : ChainState × Verdict A)
      → AllFirst r.0.tracker
      → ((e : Error) (u : ChainState) → AllFirst u.tracker → AllFirst (next e u).0.tracker)
      → AllFirst (after_verdict clock next r).0.tracker
  unfolding after_verdict
  went_on next (u, answered response) all more = all
  went_on next (u, moved_on e) all more = more e u all

  provider_loop-AllFirst :
      (retries initial : ℕ) (ps : List (Provider A)) (last_err : Error) (s : ChainState)
      → AllFirst s.tracker
      → AllFirst (provider_loop clock retries initial ps last_err s).0.tracker
  unfolding provider_loop is_in_cooldown
  provider_loop-AllFirst retries initial [] last_err s all = all
  provider_loop-AllFirst retries initial (p ∷ ps) last_err s all =
      let t = (ask_cooldown clock p.name s).0 in
      let entry = lookup p.name s.tracker.cooldowns in
      let kept : AllFirst t.tracker =
        unfold ask_cooldown in checked (clock s.readings) p.name s.tracker entry all in
      elim (Bool-cases (ask_cooldown clock p.name s).1) [
        | inl cooling ↦ rw cooling (provider_loop-AllFirst retries initial ps last_err t kept)
        | inr closed ↦ rw closed (
            went_on (provider_loop clock retries initial ps) (attempts clock p retries 0 initial t)
              (tried p retries initial t kept (
                unfold ask_cooldown in
                checked_closed (clock s.readings) p.name s.tracker entry (all p.name) closed))
              (provider_loop-AllFirst retries initial ps))
      ]

  has_available_provider-AllFirst :
      (ps : List (Provider A)) (s : ChainState)
      → AllFirst s.tracker
      → AllFirst (has_available_provider clock ps s).0.tracker
  unfolding has_available_provider is_in_cooldown
  has_available_provider-AllFirst [] s all = all
  has_available_provider-AllFirst (p ∷ ps) s all =
      let t = (ask_cooldown clock p.name s).0 in
      let kept : AllFirst t.tracker =
        unfold ask_cooldown in
        checked (clock s.readings) p.name s.tracker (lookup p.name s.tracker.cooldowns) all in
      elim (Bool-cases (ask_cooldown clock p.name s).1) [
        | inl cooling ↦ rw cooling (has_available_provider-AllFirst ps t kept)
        | inr closed ↦ rw closed kept
      ]

  chat_inner-AllFirst :
      (chain : ReliabilityChain A)
      → AllFirst chain.state.tracker
      → AllFirst (chat_inner clock chain).0.state.tracker
  unfolding chat_inner
  chat_inner-AllFirst chain all =
      let s = (has_available_provider clock chain.providers chain.state).0 in
      let kept = has_available_provider-AllFirst chain.providers chain.state all in
      elim (Bool-cases (has_available_provider clock chain.providers chain.state).1) [
        | inl available ↦ rw available (
            provider_loop-AllFirst chain.max_retries chain.initial_backoff_ms chain.providers
              no_providers s kept)
        | inr none_left ↦ rw none_left kept
      ]

-- The states of a chain that starts fresh and serves requests one after the other, whatever the
-- providers reply to each and whatever the clock reads.
pub data Served (A : Type 0) : ChainState → Type 0 where
  fresh : (providers : List (Provider A)) → Served A (Chain.new providers).state
  request :
      (clock : ℕ → ℕ) (chain : ReliabilityChain A)
      → Served A chain.state
      → Served A (chat_inner clock chain).0.state

served-AllFirst : {A : Type 0} (s : ChainState) → Served A s → AllFirst s.tracker
unfolding Chain.new Cooldown.new lookup
served-AllFirst s (fresh providers) = λ name. refl
served-AllFirst s (request clock chain before) =
    chat_inner-AllFirst clock chain (served-AllFirst chain.state before)

-- However often a provider fails in a chain that serves its requests one after the other, its
-- breaker opens for one minute each time: it is asked again only after its failures are forgotten.
pub cooldown_stays_at_a_minute :
    {A : Type 0} (s : ChainState) (name : String) (since duration : ℕ)
    → Served A s
    → lookup name s.tracker.cooldowns ≡ some (since, duration)
    → duration ≡ nanos 60
cooldown_stays_at_a_minute s name since duration served opened =
    let first = served-AllFirst s served name in rw opened at first
