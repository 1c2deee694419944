-- ===== src/Provider/Chain.antt =====
-- `ReliabilityChain` of crates/adaclaw-providers/src/reliable.rs.
-- A provider is its name, its capabilities and its answer to the k-th attempt of one request; the
-- answers come from a remote service. The clock is a function from the number of readings so far.
-- The trace keeps what the chain did, oldest first: the calls, and the sleeps in milliseconds.
pub mod Retry
pub mod Failover
pub mod Bounds
pub mod Recovery
use ada_claw.Prelude.{
  ℕ, zero, suc, ◌+◌, ◌*◌, ◌^◌, ◌-◌, String, Bool, true, false, not, Option, none, some, List, [],
  ◌∷◌, ◌++◌, Result, ok, err, min, if◌then◌else◌,
}
use ada_claw.Provider.Errors.{
  ProviderErrorKind, rate_limit, billing, auth_error, bad_request, server_error, timeout, unknown,
  Error, other, classify_error,
}
use ada_claw.Provider.Cooldown
use ada_claw.Provider.Cooldown.{CooldownTracker, is_in_cooldown, record_failure, record_success}

pub data Event : Type 0 where
  called : String → ℕ → Event
  slept : ℕ → Event

pub record ProviderCapabilities : Type 0 where
  pub native_tool_calling : Bool
  pub vision : Bool
  pub streaming : Bool

pub record Provider (A : Type 0) : Type 0 where
  pub name : String
  pub capabilities : ProviderCapabilities
  pub reply : ℕ → Result Error A

pub record ChainState : Type 0 where
  pub tracker : CooldownTracker
  pub readings : ℕ
  pub trace : List Event

pub record ReliabilityChain (A : Type 0) : Type 0 where
  pub providers : List (Provider A)
  pub state : ChainState
  pub max_retries : ℕ
  pub initial_backoff_ms : ℕ

abbrev pub max_backoff_ms : ℕ
max_backoff_ms = 30_000

abbrev pub backoff_multiplier : ℕ
backoff_multiplier = 2

-- `u64`.
abbrev pub saturating_mul : ℕ → ℕ → ℕ
saturating_mul a b = min (a * b) (2 ^ 64 - 1)

abbrev pub default_max_retries : ℕ
default_max_retries = 3

abbrev pub default_initial_backoff_ms : ℕ
default_initial_backoff_ms = 1_000

abbrev pub all_in_cooldown : Error
all_in_cooldown =
    other
      "All provider(s) in the ReliabilityChain are currently in circuit-breaker cooldown. Please wait before retrying."

abbrev pub no_providers : Error
no_providers = other "ReliabilityChain: no providers available"

-- How the attempts at one provider end.
pub data Verdict (A : Type 0) : Type 0 where
  answered : A → Verdict A
  moved_on : Error → Verdict A

module _ {A : Type 0} where
  unfoldable pub new : List (Provider A) → ReliabilityChain A
  new providers = record {
    providers = providers;
    state = record { tracker = Cooldown.new; readings = 0; trace = [] };
    max_retries = default_max_retries;
    initial_backoff_ms = default_initial_backoff_ms;
  }

  unfoldable pub with_max_retries : ℕ → ReliabilityChain A → ReliabilityChain A
  with_max_retries retries chain = record chain { max_retries = retries }

abbrev pub happened : Event → ChainState → ChainState
happened event s = record s { trace = s.trace ++ (event ∷ []) }

-- The sleep before every attempt but the first, and the backoff after it.
unfoldable pub back_off : ℕ → ℕ → ChainState → ChainState × ℕ
back_off zero backoff_ms s = (s, backoff_ms)
back_off (suc _) backoff_ms s = (
  happened (slept (min backoff_ms max_backoff_ms)) s,
  saturating_mul backoff_ms backoff_multiplier,
)

unfoldable pub note_success : String → ChainState → ChainState
note_success name s = record s { tracker = record_success name s.tracker }

module _ (clock : ℕ → ℕ) where
  -- `tracker.is_in_cooldown`, which reads the clock.
  unfoldable pub ask_cooldown : String → ChainState → ChainState × Bool
  ask_cooldown name s =
      let (tracker, cooling) = is_in_cooldown (clock s.readings) name s.tracker in
      (record s { tracker = tracker; readings = suc s.readings }, cooling)

  unfoldable pub note_failure : String → ChainState → ChainState
  note_failure name s = record s {
    tracker = record_failure (clock s.readings) name s.tracker;
    readings = suc s.readings;
  }

module _ {A : Type 0} (clock : ℕ → ℕ) where
  -- The first provider that is not in cooldown. The later ones are not asked.
  unfoldable pub first_available : List (Provider A) → ChainState → ChainState × Option (Provider A)
  unfolding ask_cooldown
  first_available [] s = (s, none)
  first_available (p ∷ ps) s =
      let (t, cooling) = ask_cooldown clock p.name s in
      let later = first_available ps t in if cooling then later else (t, some p)

  -- `any`, which stops at the first.
  unfoldable pub has_available_provider : List (Provider A) → ChainState → ChainState × Bool
  unfolding ask_cooldown
  has_available_provider [] s = (s, false)
  has_available_provider (p ∷ ps) s =
      let (t, cooling) = ask_cooldown clock p.name s in
      let later = has_available_provider ps t in if cooling then later else (t, true)

  -- What follows an error of this kind, given what follows where the kind is retried.
  unfoldable pub after_error :
      ProviderErrorKind
      → Provider A
      → Error
      → ChainState
      → ChainState × Verdict A
      → ChainState × Verdict A
  after_error auth_error p e s retried = (s, moved_on e)
  after_error bad_request p e s retried = (s, moved_on e)
  after_error rate_limit p e s retried = (note_failure clock p.name s, moved_on e)
  after_error billing p e s retried = (note_failure clock p.name s, moved_on e)
  after_error server_error p e s retried = retried
  after_error timeout p e s retried = retried
  after_error unknown p e s retried = retried

  -- After the last attempt, where its error is of a kind that is retried.
  unfoldable pub give_up : Provider A → ChainState → Result Error A → ChainState × Verdict A
  give_up p s (ok response) = (s, answered response)
  give_up p s (err e) = (note_failure clock p.name s, moved_on e)

  -- What follows a reply.
  unfoldable pub after_reply :
      Provider A → ChainState → ChainState × Verdict A → Result Error A → ChainState × Verdict A
  after_reply p s retried (ok response) = (note_success p.name s, answered response)
  after_reply p s retried (err e) = after_error (classify_error e) p e s retried

  -- The attempts from number `attempt` on, with `left` more after it.
  unfoldable pub attempts :
      Provider A → (left attempt backoff_ms : ℕ) → ChainState → ChainState × Verdict A
  unfolding back_off after_reply
  attempts p zero attempt backoff_ms s =
      let (t, next_backoff) = back_off attempt backoff_ms s in
      let u = happened (called p.name attempt) t in
      after_reply p u (give_up p u (p.reply attempt)) (p.reply attempt)
  attempts p (suc left) attempt backoff_ms s =
      let (t, next_backoff) = back_off attempt backoff_ms s in
      let u = happened (called p.name attempt) t in
      after_reply p u (attempts p left (suc attempt) next_backoff u) (p.reply attempt)

  -- The next provider follows a verdict without an answer.
  unfoldable pub after_verdict :
      (Error → ChainState → ChainState × Result Error A)
      → ChainState × Verdict A
      → ChainState × Result Error A
  after_verdict next (s, answered response) = (s, ok response)
  after_verdict next (s, moved_on e) = next e s

  unfoldable pub provider_loop :
      (max_retries initial_backoff_ms : ℕ)
      → List (Provider A)
      → Error
      → ChainState
      → ChainState × Result Error A
  unfolding ask_cooldown attempts after_verdict
  provider_loop retries backoff [] last_err s = (s, err last_err)
  provider_loop retries backoff (p ∷ ps) last_err s =
      let (t, cooling) = ask_cooldown clock p.name s in
      let skipped = provider_loop retries backoff ps last_err t in
      let tried =
        after_verdict (provider_loop retries backoff ps) (attempts p retries 0 backoff t) in
      if cooling then skipped else tried

  unfoldable pub chat_inner : ReliabilityChain A → ReliabilityChain A × Result Error A
  unfolding has_available_provider provider_loop
  chat_inner chain =
      let (s, available) = has_available_provider chain.providers chain.state in
      let (t, answer) =
        provider_loop chain.max_retries chain.initial_backoff_ms chain.providers no_providers s in
      if available
      then (record chain { state = t }, answer)
      else (record chain { state = s }, err all_in_cooldown)

  unfoldable pub capabilities : ReliabilityChain A → ReliabilityChain A × ProviderCapabilities
  unfolding first_available
  capabilities chain =
      let (s, found) = first_available chain.providers chain.state in
      let fallback : ProviderCapabilities = record {
        native_tool_calling = false;
        vision = false;
        streaming = false;
      } in
      let head : ProviderCapabilities = elim chain.providers [
        | [] ↦ fallback
        | p ∷ _ ↦ p.capabilities
      ] in
      (record chain { state = s }, elim found [ none ↦ head | some p ↦ p.capabilities ])
