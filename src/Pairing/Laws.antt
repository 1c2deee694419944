-- ===== src/Pairing/Laws.antt =====
-- Which candidates pair, how often, and how the codes are spread.
use ada_claw.Prelude.{
  ℕ, ◌+◌, ◌-◌, ◌*◌, ◌<◌, ◌≡◌, true, false, ◌&&◌, none, some, inl, inr, List, ltb, if◌then◌else◌,
  arith, codes_eq, Option-cases,
}
use ada_claw.Pairing.Bytes.{constant_time_eq_lem, AllBytes}
use ada_claw.Pairing.State.{
  PairingState, pairing_ttl, if_fresh, current_valid, answer, consume, generate_new,
  generate_secure_code, accept, range,
}

-- Every code from 100000 to 999999 comes from exactly the draws with one of 4772 quotients by the
-- size of the range, and the draws with a greater quotient are rejected: the codes are equally
-- likely.
pub accept_uniform :
    (quotient offset : ℕ)
    → offset < range
    → accept (quotient * range + offset)
      ≡ (if ltb quotient 4_772 then some (100_000 + offset) else none)
unfolding accept
accept_uniform quotient offset inside = ground arith

-- After a code is made at `made`, a text of bytes pairs exactly if it is the code and less than ten
-- minutes have passed.
pub consume_generated_iff :
    (made now : ℕ) (draws : List (ℕ × ℕ × ℕ × ℕ)) (candidate code : List ℕ) (s : PairingState)
    → (generate_new made draws s).1 ≡ some code
    → AllBytes code
    → AllBytes candidate
    → (consume now candidate (generate_new made draws s).0).1
      ≡ (ltb (now - made) pairing_ttl && codes_eq code candidate)
unfolding generate_new consume current_valid if_fresh answer
consume_generated_iff made now draws candidate code s made_code all_code all_candidate =
    elim (Option-cases (generate_secure_code draws)) [
      | inl ran_out ↦ ground (arith, ran_out)
      | inr (c, drawn) ↦
          ground (arith, drawn, constant_time_eq_lem code candidate all_code all_candidate)
    ]

-- A code that has paired a client pairs no other, with any candidate at any later time.
pub consume_once :
    (now later : ℕ) (candidate another : List ℕ) (s : PairingState)
    → (consume now candidate s).1 ≡ true
    → consume later another (consume now candidate s).0 ≡ ((consume now candidate s).0, false)
unfolding consume current_valid if_fresh answer
consume_once now later candidate another s paired =
    elim (Option-cases (if_fresh now s.code s.generated_at)) [
      | inl no_code ↦ ground (arith, no_code)
      | inr (code, fresh) ↦ ground (arith, fresh)
    ]
