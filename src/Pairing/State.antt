-- ===== src/Pairing/State.antt =====
-- `PairingState` and `generate_secure_code` of crates/adaclaw-server/src/pairing.rs.
-- Texts are their bytes; an `Instant` is a number of nanoseconds. The operating system's generator
-- gives the bytes of the successive draws; `none` means that the given draws ran out, which the
-- program, whose loop draws again, never meets.
use ada_claw.Prelude.{
  ℕ, zero, suc, ◌+◌, ◌-◌, ◌*◌, ◌/◌, ◌%◌, Bool, true, false, Option, none, some, List, [], ◌∷◌, ◌++◌,
  ltb, if◌then◌else◌,
}
use ada_claw.Pairing.Bytes.{constant_time_eq}

pub record PairingState : Type 0 where
  pub code : Option (List ℕ)
  pub generated_at : Option ℕ

-- Nanoseconds.
abbrev pub pairing_ttl : ℕ
pairing_ttl = 600 * 1_000_000_000

unfoldable pub new : PairingState
new = record { code = none; generated_at = none }

unfoldable pub if_fresh : ℕ → Option (List ℕ) → Option ℕ → Option (List ℕ)
if_fresh now none at = none
if_fresh now (some code) none = none
if_fresh now (some code) (some at) = if ltb (now - at) pairing_ttl then some code else none

unfoldable pub current_valid : ℕ → PairingState → Option (List ℕ)
unfolding if_fresh
current_valid now s = if_fresh now s.code s.generated_at

abbrev pub u32_max : ℕ
u32_max = 4_294_967_295

abbrev pub range : ℕ
range = 900_000

-- `u32::from_be_bytes`.
abbrev pub from_be_bytes : ℕ × ℕ × ℕ × ℕ → ℕ
from_be_bytes (a, b, c, d) = ((a * 256 + b) * 256 + c) * 256 + d

-- What a draw gives: the number of a code, or nothing if it is rejected.
unfoldable pub accept : ℕ → Option ℕ
accept n = if ltb n (u32_max - u32_max % range) then some (100_000 + n % range) else none

-- `format!("{}", …)` of a number below ten to the power of `width`.
decimal : ℕ → ℕ → List ℕ
decimal zero n = []
decimal (suc width) n =
    let front = decimal width (n / 10) in
    if ltb n 10 then (b'0' + n) ∷ [] else front ++ ((b'0' + n % 10) ∷ [])

-- A `u32` has at most ten digits.
unfoldable pub format_u32 : ℕ → List ℕ
unfolding decimal
format_u32 n = decimal 10 n

unfoldable pub draw_code : List (ℕ × ℕ × ℕ × ℕ) → Option ℕ
unfolding accept
draw_code [] = none
draw_code (buf ∷ rest) =
    let later = draw_code rest in
    elim (accept (from_be_bytes buf)) [ some n ↦ some n | none ↦ later ]

abbrev pub format_code : Option ℕ → Option (List ℕ)
format_code none = none
format_code (some n) = some (format_u32 n)

unfoldable pub generate_secure_code : List (ℕ × ℕ × ℕ × ℕ) → Option (List ℕ)
unfolding draw_code format_u32
generate_secure_code draws = format_code (draw_code draws)

abbrev pub store_code : ℕ → Option (List ℕ) → PairingState → PairingState × Option (List ℕ)
store_code now none s = (s, none)
store_code now (some code) s = (record s { code = some code; generated_at = some now }, some code)

unfoldable pub generate_new :
    ℕ → List (ℕ × ℕ × ℕ × ℕ) → PairingState → PairingState × Option (List ℕ)
unfolding generate_secure_code
generate_new now draws s = store_code now (generate_secure_code draws) s

unfoldable pub answer : List ℕ → PairingState → Option (List ℕ) → PairingState × Bool
answer candidate s none = (s, false)
answer candidate s (some code) =
    if constant_time_eq code candidate
    then (record s { code = none; generated_at = none }, true)
    else (s, false)

unfoldable pub consume : ℕ → List ℕ → PairingState → PairingState × Bool
unfolding answer current_valid
consume now candidate s = answer candidate s (current_valid now s)
