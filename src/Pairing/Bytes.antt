-- ===== src/Pairing/Bytes.antt =====
-- `constant_time_eq` of crates/adaclaw-server/src/pairing.rs, on the bytes of two texts.
use Prim.Native.Nat.{bit_or, bit_xor}
use ada_claw.Prelude.{
  below_passes, below_passes_lem, bool_eq, ℕ, ◌<◌, ◌≡◌, refl, Bool, true, false, ◌&&◌, List, [],
  ◌∷◌, length, ltb, Bool-cases, inl, inr, ◌==◌, if◌then◌else◌, arith, codes_eq,
}

-- The differences of the bytes in the same places, collected from the left.
unfoldable pub fold_diff : ℕ → List ℕ → List ℕ → ℕ
fold_diff acc [] b = acc
fold_diff acc (x ∷ a) [] = acc
fold_diff acc (x ∷ a) (y ∷ b) = fold_diff (bit_or acc (bit_xor x y)) a b

unfoldable pub constant_time_eq : List ℕ → List ℕ → Bool
unfolding fold_diff
constant_time_eq a b = if length a == length b then fold_diff 0 a b == 0 else false

-- Both facts about a pair of bytes: zero exactly where `expected` says, and again a byte.
abbrev pair_passes : (ℕ → ℕ → ℕ) → (ℕ → ℕ → Bool) → ℕ → ℕ → Bool
pair_passes op expected x y = bool_eq (op x y == 0) (expected x y) && ltb (op x y) 256

xor_table : below_passes (λ x. below_passes (pair_passes bit_xor (λ x y. x == y) x) 256) 256 ≡ true
unfolding below_passes
xor_table = refl

or_table :
    below_passes (λ x. below_passes (pair_passes bit_or (λ x y. x == 0 && y == 0) x) 256) 256 ≡ true
unfolding below_passes
or_table = refl

pair_lem :
    (op : ℕ → ℕ → ℕ) (expected : ℕ → ℕ → Bool) (x y : ℕ)
    → below_passes (λ x. below_passes (pair_passes op expected x) 256) 256 ≡ true
    → x < 256
    → y < 256
    → ((op x y == 0) ≡ expected x y) × (op x y < 256)
pair_lem op expected x y table p q =
    let row = below_passes_lem (λ x. below_passes (pair_passes op expected x) 256) 256 x table p in
    let cell = below_passes_lem (pair_passes op expected x) 256 y row q in ground arith

abbrev pub AllBytes : List ℕ → Type 0
AllBytes [] = Unit
AllBytes (x ∷ a) = (x < 256) × AllBytes a

fold_diff_lem :
    (acc : ℕ) (a b : List ℕ)
    → acc < 256
    → AllBytes a
    → AllBytes b
    → length a ≡ length b
    → (fold_diff acc a b == 0) ≡ (acc == 0 && codes_eq a b)
unfolding fold_diff
fold_diff_lem acc [] [] p all_a all_b same = ground arith
fold_diff_lem acc [] (y ∷ b) p all_a all_b same = absurd (omega arith)
fold_diff_lem acc (x ∷ a) [] p all_a all_b same = absurd (omega arith)
fold_diff_lem acc (x ∷ a) (y ∷ b) p all_a all_b same =
    let differ = pair_lem bit_xor (λ x y. x == y) x y xor_table all_a.0 all_b.0 in
    let both = pair_lem bit_or (λ x y. x == 0 && y == 0) acc (bit_xor x y) or_table p differ.1 in
    let rest = fold_diff_lem (bit_or acc (bit_xor x y)) a b both.1 all_a.1 all_b.1 (omega arith) in
    ground arith

codes_eq-length : (a b : List ℕ) → codes_eq a b ≡ true → length a ≡ length b
codes_eq-length [] [] same = refl
codes_eq-length [] (y ∷ b) same = cc
codes_eq-length (x ∷ a) [] same = cc
codes_eq-length (x ∷ a) (y ∷ b) same = let rest = codes_eq-length a b (ground arith) in omega arith

-- The comparison without early return answers exactly whether two texts of bytes are equal.
pub constant_time_eq_lem :
    (a b : List ℕ) → AllBytes a → AllBytes b → constant_time_eq a b ≡ codes_eq a b
unfolding constant_time_eq
constant_time_eq_lem a b all_a all_b = elim (Bool-cases (length a == length b)) [
  | inl same ↦ rw same (fold_diff_lem 0 a b (omega arith) all_a all_b (ground arith))
  | inr other ↦ rw other (ground (arith, codes_eq-length a b))
]
