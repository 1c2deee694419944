-- ===== src/Pairing/Examples.antt =====
-- Runs of the pairing, and the theorems about it at concrete inputs.
use ada_claw.Prelude.{
  ℕ, ◌+◌, ◌*◌, ◌-◌, ◌≡◌, refl, ◌&&◌, none, some, List, [], ◌∷◌, ltb, if◌then◌else◌, arith, codes,
  codes_eq, Codes,
}
use ada_claw.Pairing.State
use ada_claw.Pairing.State.{
  PairingState, pairing_ttl, generate_new, consume, accept, range, generate_secure_code,
}
use ada_claw.Pairing.Laws.{accept_uniform, consume_generated_iff}

-- The first draw is rejected.
abbrev draws : List (ℕ × ℕ × ℕ × ℕ)
draws = (255, 255, 255, 255) ∷ (0, 4, 90, 17) ∷ []

abbrev code : Codes
code = codes "385201"

drawn : generate_secure_code draws ≡ some code
unfolding generate_secure_code
drawn = refl

accept_uniform_example :
    accept (4_771 * range + 899_999) ≡ (if ltb 4_771 4_772 then some (100_000 + 899_999) else none)
accept_uniform_example = accept_uniform 4_771 899_999 (omega arith)

consume_generated_iff_example :
    (consume 700 code (generate_new 500 draws State.new).0).1
    ≡ (ltb (700 - 500) pairing_ttl && codes_eq code code)
unfolding generate_new
consume_generated_iff_example =
    consume_generated_iff 500 700 draws code code State.new refl
      (omega arith, (omega arith, (omega arith, (omega arith, (omega arith, (omega arith, tt))))))
      (omega arith, (omega arith, (omega arith, (omega arith, (omega arith, (omega arith, tt))))))

abbrev paired_state : PairingState
paired_state = (consume 700 code (generate_new 500 draws State.new).0).0
