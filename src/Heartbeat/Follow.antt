-- ===== src/Heartbeat/Follow.antt =====
-- A heartbeat follows the user: src/cron/scheduler.rs with src/state/mod.rs and the dispatch loop of
-- src/daemon/run.rs.
use ada_claw.Prelude.{
  codes_eq_sound, ℕ, ◌≡◌, refl, ap, ◌∙◌, ◌==◌, Bool, true, false, not, ◌&&◌, ◌||◌, Option, none,
  some, [], ◌∷◌, ◌++◌, if◌then◌else◌, any, Codes, codes, codes_eq, starts_with, before, arith,
  Bool-cases, inl, inr,
}
use ada_claw.State.Manager.{DaemonState, is_text, update_last_active, get_last_session_id}
use ada_claw.State.Tracking.{track}
use ada_claw.Heartbeat.Target.{is_internal_channel, is_empty, fallback, of_session, resolve_target}

before-append :
    (sep : ℕ) (part rest : Codes)
    → any (λ c. c == sep) part ≡ false
    → before sep (part ++ sep ∷ rest) ≡ part
unfolding before
before-append sep [] rest h = ground arith
before-append sep (c ∷ part) rest h = ground (arith, before-append sep part rest)

is_text_sound : (held : Option Codes) (text : Codes) → is_text held text ≡ true → held ≡ some text
is_text_sound none text h = cc
is_text_sound (some s) text h = ap some (codes_eq_sound s text h)

second : (a b : Bool) → (a && b) ≡ true → b ≡ true
second true b h = h
second false b h = cc

session-update :
    (now : ℕ) (channel session : Codes) (state : DaemonState)
    → get_last_session_id (update_last_active now channel session state).0 ≡ some session
unfolding update_last_active
session-update now channel session state =
    elim (Bool-cases
      (is_text state.last_channel channel && is_text state.last_session_id session)) [
        | inl e ↦ rw e (
            is_text_sound state.last_session_id session (
              second (is_text state.last_channel channel) (is_text state.last_session_id session)
                e))
        | inr e ↦ rw e refl
      ]

first_false : (a b c d : Bool) → (a || b || c || d) ≡ false → a ≡ false
first_false true b c d h = cc
first_false false b c d h = refl

last_false : (a b c d : Bool) → (a || b || c || d) ≡ false → d ≡ false
last_false a b c d h = ground arith

passes {ℓ} :
    {A : Type ℓ} (a b c : Bool) (x y : A)
    → a ≡ false
    → b ≡ false
    → c ≡ false
    → (if a then y else if not b && not c && not a then x else y) ≡ x
passes a b c x y h k l = rw (h, k, l) refl

both_clear {ℓ} :
    {A : Type ℓ} (a b : Bool) (x y : A)
    → a ≡ false
    → b ≡ false
    → (if not a && not b then x else y) ≡ x
both_clear a b x y h k = rw (h, k) refl

-- A message on a channel that is not internal, from another sender than the heartbeat, is recorded.
track-outside :
    (now : ℕ) (channel session sender : Codes) (state : DaemonState)
    → is_internal_channel channel ≡ false
    → codes_eq sender (codes "heartbeat") ≡ false
    → track now channel session sender state ≡ (update_last_active now channel session state).0
unfolding track is_internal_channel
track-outside now channel session sender state h k =
    passes (codes_eq channel (codes "system")) (codes_eq sender (codes "heartbeat"))
      (starts_with (codes "system:") channel) _ state (first_false _ _ _ _ h) k
      (last_false (codes_eq channel (codes "system")) (codes_eq channel (codes "cli"))
        (codes_eq channel (codes "heartbeat")) _ h)

of_session-outside :
    (channel user : Codes)
    → any (λ c. c == b':') channel ≡ false
    → is_empty channel ≡ false
    → is_internal_channel channel ≡ false
    → of_session (some (channel ++ b':' ∷ user)) ≡ (channel, channel ++ b':' ∷ user)
unfolding of_session
of_session-outside channel user h k l =
    ap
      (λ part.
        if not (is_internal_channel part) && not (is_empty part)
        then (part, channel ++ b':' ∷ user)
        else fallback)
      (before-append b':' channel user h)
    ∙ both_clear (is_internal_channel channel) (is_empty channel) _ fallback l k

-- A message of a user on an outside channel has been recorded, and no channel is configured: the next
-- heartbeat goes to that user's session.
pub resolve_target-track :
    (now : ℕ) (channel user sender : Codes) (state : DaemonState)
    → any (λ c. c == b':') channel ≡ false
    → is_empty channel ≡ false
    → is_internal_channel channel ≡ false
    → codes_eq sender (codes "heartbeat") ≡ false
    → resolve_target none (some (track now channel (channel ++ b':' ∷ user) sender state))
      ≡ (channel, channel ++ b':' ∷ user)
unfolding resolve_target
resolve_target-track now channel user sender state h k l m =
    let session : Codes = channel ++ b':' ∷ user in
    ap (λ s. resolve_target none (some s)) (track-outside now channel session sender state l m)
    ∙ ap of_session (session-update now channel session state)
    ∙ of_session-outside channel user h k l
