-- ===== src/Provider/Chain/Bounds.antt =====
-- How often a request calls providers, and how long it sleeps.
use ada_claw.Prelude.{
  ℕ, zero, suc, ◌+◌, ◌*◌, ◌≤◌, ◌≡◌, refl, String, inl, inr, List, [], ◌∷◌, ◌++◌, length, Result,
  arith, Bool-cases,
}
use ada_claw.Provider.Errors.{Error}
use ada_claw.Provider.Chain.{
  Event, called, slept, Provider, ChainState, ReliabilityChain, Verdict, answered, moved_on,
  max_backoff_ms, ask_cooldown, attempts, after_verdict, provider_loop, has_available_provider,
  chat_inner, no_providers,
}
use ada_claw.Provider.Chain.Retry.{made, events, pause, attempts_lem}

abbrev pub calls_of : List Event → ℕ
calls_of [] = 0
calls_of (called _ _ ∷ rest) = suc (calls_of rest)
calls_of (slept _ ∷ rest) = calls_of rest

abbrev pub slept_of : List Event → ℕ
slept_of [] = 0
slept_of (called _ _ ∷ rest) = slept_of rest
slept_of (slept ms ∷ rest) = ms + slept_of rest

append_calls : (l m : List Event) → calls_of (l ++ m) ≡ calls_of l + calls_of m
append_calls [] m = omega arith
append_calls (called _ _ ∷ l) m = let rest = append_calls l m in omega arith
append_calls (slept _ ∷ l) m = append_calls l m

append_slept : (l m : List Event) → slept_of (l ++ m) ≡ slept_of l + slept_of m
append_slept [] m = omega arith
append_slept (called _ _ ∷ l) m = append_slept l m
append_slept (slept ms ∷ l) m = let rest = append_slept l m in omega arith

events_calls :
    (name : String) (initial n attempt : ℕ) → calls_of (events name initial n attempt) ≡ n
unfolding events pause
events_calls name initial zero attempt = refl
events_calls name initial (suc n) zero = let rest = events_calls name initial n 1 in omega arith
events_calls name initial (suc n) (suc j) =
    let rest = events_calls name initial n (suc (suc j)) in omega arith

-- From a later attempt on, every call is preceded by a sleep.
events_slept_later :
    (name : String) (initial n j : ℕ)
    → slept_of (events name initial n (suc j)) ≤ n * max_backoff_ms
unfolding events pause
events_slept_later name initial zero j = omega arith
events_slept_later name initial (suc n) j =
    let rest = events_slept_later name initial n (suc j) in omega arith

events_slept :
    (name : String) (initial left n : ℕ)
    → n ≤ suc left
    → slept_of (events name initial n 0) ≤ left * max_backoff_ms
unfolding events pause
events_slept name initial left zero h = omega arith
events_slept name initial left (suc n) h =
    let rest = events_slept_later name initial n 0 in omega arith

abbrev Spent : (providers retries : ℕ) → (before after : List Event) → Type 0
Spent providers retries before after =
    (calls_of after ≤ calls_of before + providers * suc retries)
    × (slept_of after ≤ slept_of before + providers * (retries * max_backoff_ms))

Spent-none : (providers retries : ℕ) (trace : List Event) → Spent providers retries trace trace
Spent-none providers retries trace = (omega arith, omega arith)

Spent-one_more :
    (providers retries : ℕ) (before between after : List Event)
    → Spent 1 retries before between
    → Spent providers retries between after
    → Spent (suc providers) retries before after
Spent-one_more providers retries before between after one more = (omega arith, omega arith)

module _ {A : Type 0} where
  made_le : (p : Provider A) (left attempt : ℕ) → made p left attempt ≤ suc left
  unfolding made
  made_le p zero attempt = omega arith
  made_le p (suc left) attempt = let rest = made_le p left (suc attempt) in ground arith

module _ {A : Type 0} (clock : ℕ → ℕ) where
  attempts-Spent :
      (p : Provider A) (retries initial : ℕ) (s : ChainState)
      → Spent 1 retries s.trace (attempts clock p retries 0 initial s).0.trace
  attempts-Spent p retries initial s =
      let n = made p retries 0 in
      let bound = made_le p retries 0 in
      let new = events p.name initial n 0 in
      let calls = events_calls p.name initial n 0 in
      let slept = events_slept p.name initial retries n bound in
      rw (attempts_lem clock p initial retries 0 initial s refl)
        (rw (append_calls s.trace new, append_slept s.trace new) (omega arith, omega arith))

  after_verdict-Spent :
      (providers retries : ℕ) (trace : List Event)
      (next : Error → ChainState → ChainState × Result Error A) (r : ChainState × Verdict A)
      → Spent 1 retries trace r.0.trace
      → ((e : Error) (u : ChainState) → Spent providers retries u.trace (next e u).0.trace)
      → Spent (suc providers) retries trace (after_verdict clock next r).0.trace
  unfolding after_verdict
  after_verdict-Spent n retries trace next (u, answered response) one more =
      Spent-one_more n retries trace u.trace u.trace one (Spent-none n retries u.trace)
  after_verdict-Spent n retries trace next (u, moved_on e) one more =
      Spent-one_more n retries trace u.trace (next e u).0.trace one (more e u)

  provider_loop-Spent :
      (retries initial : ℕ) (ps : List (Provider A)) (last : Error) (s : ChainState)
      → Spent (length ps) retries s.trace (provider_loop clock retries initial ps last s).0.trace
  unfolding provider_loop ask_cooldown
  provider_loop-Spent retries initial [] last s = Spent-none 0 retries s.trace
  provider_loop-Spent retries initial (p ∷ ps) last s =
      let t = (ask_cooldown clock p.name s).0 in
      let loop = provider_loop clock retries initial ps in
      elim (Bool-cases (ask_cooldown clock p.name s).1) [
        | inl cooling ↦ rw cooling (
            Spent-one_more (length ps) retries s.trace s.trace (loop last t).0.trace
              (Spent-none 1 retries s.trace) (provider_loop-Spent retries initial ps last t))
        | inr closed ↦ rw closed (
            after_verdict-Spent (length ps) retries s.trace loop
              (attempts clock p retries 0 initial t) (attempts-Spent p retries initial t)
              (provider_loop-Spent retries initial ps))
      ]

  has_available_provider-trace :
      (ps : List (Provider A)) (s : ChainState)
      → (has_available_provider clock ps s).0.trace ≡ s.trace
  unfolding has_available_provider ask_cooldown
  has_available_provider-trace [] s = refl
  has_available_provider-trace (p ∷ ps) s =
      ground (arith, has_available_provider-trace ps (ask_cooldown clock p.name s).0)

  -- A request makes at most one call more than the retries to each provider, and sleeps at most half
  -- a minute for each retry; so it ends.
  pub chat_inner-Spent :
      (chain : ReliabilityChain A)
      → let after = (chat_inner clock chain).0 in
        (calls_of after.state.trace
          ≤ calls_of chain.state.trace + length chain.providers * suc chain.max_retries)
        × (slept_of after.state.trace
            ≤ slept_of chain.state.trace
              + length chain.providers * (chain.max_retries * max_backoff_ms))
  unfolding chat_inner
  chat_inner-Spent chain =
      let quiet = has_available_provider-trace chain.providers chain.state in
      let s = (has_available_provider clock chain.providers chain.state).0 in
      let spent =
        provider_loop-Spent chain.max_retries chain.initial_backoff_ms chain.providers no_providers
          s in
      elim (Bool-cases (has_available_provider clock chain.providers chain.state).1) [
        | inl available ↦ rw available (rw quiet at spent)
        | inr none_left ↦
            rw none_left
              (rw quiet (Spent-none (length chain.providers) chain.max_retries chain.state.trace))
      ]
