-- ===== src/Agents/Engine/Compress.antt =====
-- What `force_compress_messages` of src/agents/engine.rs drops.
use ada_claw.Prelude.{
  ◌∙◌, Bool-cases, inl, inr, str_eq, ℕ, zero, suc, ◌+◌, ◌-◌, ◌/◌, ◌≤◌, ◌<◌, ◌≡◌, refl, ap, Bool,
  true, false, List, [], ◌∷◌, ◌++◌, if◌then◌else◌, leb, ◌==◌, length, take, drop, arith,
}
use ada_claw.Agents.Message.{ChatMessage}
use ada_claw.Agents.Engine.{has_system, conv_start_of, force_compress_messages}

take-drop {ℓ} : {A : Type ℓ} (n : ℕ) (xs : List A) → take n xs ++ drop n xs ≡ xs
take-drop zero xs = refl
take-drop (suc n) [] = refl
take-drop (suc n) (x ∷ xs) = ap (λ ys. x ∷ ys) (take-drop n xs)

conv_start_le : (b : Bool) → (if b then 1 else 0) ≤ 1
conv_start_le true = omega arith
conv_start_le false = omega arith

-- Neither early return is taken.
compressed {ℓ} :
    {A : Type ℓ} (n start : ℕ)
    → 4 < n
    → start ≤ 1
    → (whole rest : A)
    → (if leb n 4
        then whole
        else if n - (start + 1) == 0
        then whole
        else if (n - (start + 1)) / 2 == 0
        then whole
        else rest)
      ≡ rest
compressed n start h k whole rest = ground arith

-- What is dropped, in terms of the definition: a part of it, after the start and before the end.
pub force_compress_messages-drain :
    (messages : List ChatMessage)
    → 4 < length messages
    → let start = conv_start_of messages in
      let dropped = (length messages - (start + 1)) / 2 in
      (force_compress_messages messages ≡ take start messages ++ drop (start + dropped) messages)
      × (start + dropped < length messages)
      × (0 < dropped)
unfolding force_compress_messages
force_compress_messages-drain messages h =
    let small : conv_start_of messages ≤ 1 = conv_start_le (has_system messages) in
    (
      compressed (length messages) (conv_start_of messages) h small messages _,
      omega (arith, small),
      omega (arith, small),
    )

-- A history of at most four messages stays. A longer one that begins with a system prompt keeps the
-- prompt and loses the older half of what stands between it and the last message; another one loses
-- the older half of all but the last message. An odd number loses the smaller half.
pub force_compress_messages_lem :
    (m : ChatMessage) (rest : List ChatMessage)
    → force_compress_messages (m ∷ rest) ≡ (
        if leb (length rest) 3
        then m ∷ rest
        else if str_eq m.role "system"
        then m ∷ drop ((length rest - 1) / 2) rest
        else drop (length rest / 2) (m ∷ rest))
unfolding force_compress_messages
force_compress_messages_lem m rest = elim (Bool-cases (leb (length rest) 3)) [
  | inl short ↦
      let small : leb (length (m ∷ rest)) 4 ≡ true = ground arith in rw (short, small) refl
  | inr long ↦
      let n : ℕ = length rest in
      let (same, inside, some_dropped) = force_compress_messages-drain (m ∷ rest) (ground arith) in
      elim (Bool-cases (str_eq m.role "system")) [
        | inl system ↦
            let place : 1 + (length (m ∷ rest) - (1 + 1)) / 2 ≡ suc ((n - 1) / 2) = omega arith in
            same ∙ rw (long, system) (ap (λ k. m ∷ drop k (m ∷ rest)) place)
        | inr other ↦
            let place : 0 + (length (m ∷ rest) - (0 + 1)) / 2 ≡ n / 2 = omega arith in
            same ∙ rw (long, other) (ap (λ k. drop k (m ∷ rest)) place)
      ]
]
