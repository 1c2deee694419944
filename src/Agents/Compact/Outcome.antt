-- ===== src/Agents/Compact/Outcome.antt =====
-- What `auto_compact_history` of src/agents/compact.rs does to a history, for every reply of the model.
use ada_claw.Prelude.{
  sym, &&_true, ◌==◌, ◌∙◌, none, starts_with, codes, length-drop, any, suc, ℕ, ◌-◌, ◌≤◌, ◌≡◌, refl,
  String, Bool, true, false, not, ◌&&◌, ◌||◌, Option, some, inl, inr, List, [], ◌∷◌, Result, ok,
  err, leb, ltb, length, drop, arith, Bool-cases,
}
use mathlib.Core.Path.{subst}
use mathlib.Core.Option.{get_or}
use ada_claw.Agents.Message.{ChatMessage}
use ada_claw.Agents.Compact.Shape.{length-take}
use ada_claw.Agents.Compact.Cases.{
  old_messages, is_due, is_summarised, reply_on, Compaction, not_due, only_a_summary, summarised,
  unanswered, trimmed,
}
use ada_claw.Agents.Compact.{
  trim_if_over, trim_history, over_tokens, sum_end_of, is_old_summary, summary_message, replace_old,
  summarise, rolling_compact, auto_compact_history, summary_requests,
}

one_alone : (b : Bool) → b ≡ (1 == 1 && (b || false))
one_alone true = refl
one_alone false = refl

several_refused : (n : ℕ) (b : Bool) → false ≡ (suc (suc n) == 1 && b)
several_refused n b = ground arith

over_tokens_lem : (tokens : Option ℕ) → over_tokens tokens ≡ leb 24_000 (get_or tokens 0)
over_tokens_lem none = refl
over_tokens_lem (some n) = refl

is_old_summary_lem :
    (old : List ChatMessage)
    → is_old_summary old ≡ (
        length old == 1
        && any (λ m. starts_with (codes "[Conversation summary]") (codes m.content)) old)
unfolding starts_with
is_old_summary_lem [] = refl
is_old_summary_lem (m ∷ []) =
    one_alone (starts_with (codes "[Conversation summary]") (codes m.content))
is_old_summary_lem (m ∷ n ∷ rest) = several_refused (length rest) _

requests_idle :
    (history : List ChatMessage) (tokens : Option ℕ)
    → (not (leb 30 (length history)) && not (over_tokens tokens)) ≡ true
    → summary_requests history tokens ≡ 0
unfolding summary_requests
requests_idle history tokens h = rw h refl

module _ (history : List ChatMessage) (tokens : Option ℕ)
    (over : (not (leb 30 (length history)) && not (over_tokens tokens)) ≡ false)
    (several : leb (sum_end_of history) 1 ≡ false)
    (inside : leb (sum_end_of history) (length history) ≡ true) where
  requests_again :
      is_old_summary (old_messages history) ≡ true → summary_requests history tokens ≡ 0
  unfolding summary_requests
  requests_again h = rw over (rw (several, inside) (rw h refl))

  requests_fresh :
      is_old_summary (old_messages history) ≡ false → summary_requests history tokens ≡ 1
  unfolding summary_requests
  requests_fresh h = rw over (rw (several, inside) (rw h refl))

module _ {E : Type 0} (chat : String → String → String → Result E String) where
  Settled : List ChatMessage → String → Option ℕ → Option (List ChatMessage) → ℕ → Type 0
  Settled history model tokens result requests =
      (after : List ChatMessage) × (result ≡ some after)
      × Compaction chat history model tokens after requests
      × (length after ≤ 60)

  on_reply :
      (x y : ChatMessage) (rest : List ChatMessage) (model : String) (tokens : Option ℕ)
      (reply : Result E String)
      → is_due (x ∷ y ∷ rest) tokens ≡ true
      → is_summarised (x ∷ y ∷ rest) ≡ false
      → reply_on chat model (x ∷ y ∷ rest) ≡ reply
      → Settled
          (x ∷ y ∷ rest)
          model
          tokens
          (trim_if_over chat
            (some (replace_old chat (sum_end_of (x ∷ y ∷ rest)) (x ∷ y ∷ rest) reply)))
          1
  unfolding Settled replace_old trim_history
  on_reply x y rest model tokens (ok summary) due fresh e =
      let h : List ChatMessage = x ∷ y ∷ rest in
      let left = length-drop (sum_end_of h) h in
      let short : ltb 60 (length (x ∷ summary_message summary ∷ drop (sum_end_of h) h)) ≡ false =
        ground arith in
      (_, rw short refl, summarised summary due fresh e, omega arith)
  on_reply x y rest model tokens (err e) due fresh r =
      let h : List ChatMessage = x ∷ y ∷ rest in
      elim (Bool-cases (ltb 60 (length h))) [
        | inl long ↦
            let left = length-drop (length h - 20) h in
            let several : ltb 1 (length h - 20) ≡ true = ground (arith, over_tokens_lem tokens) in
            let short : ltb 60 (length (x ∷ drop (length h - 20) h)) ≡ false = ground arith in
            (_, rw (long, several) (rw short refl), trimmed e due r (ground arith), omega arith)
        | inr short ↦ (h, rw short (rw short refl), unanswered e due r (ground arith), ground arith)
      ]

  Counted : List ChatMessage → String → Option ℕ → ℕ → Type 0
  Counted history model tokens requests =
      Settled history model tokens (auto_compact_history chat history model tokens) requests

  auto_compact_history_cases :
      (x y : ChatMessage) (rest : List ChatMessage) (model : String) (tokens : Option ℕ)
      → Settled
          (x ∷ y ∷ rest)
          model
          tokens
          (auto_compact_history chat (x ∷ y ∷ rest) model tokens)
          (summary_requests (x ∷ y ∷ rest) tokens)
  unfolding auto_compact_history rolling_compact summarise Settled Counted
  auto_compact_history_cases x y rest model tokens =
      let h : List ChatMessage = x ∷ y ∷ rest in
      let several : leb (sum_end_of h) 1 ≡ false = ground arith in
      let inside : leb (sum_end_of h) (length h) ≡ true = ground arith in
      let old = is_old_summary_lem (old_messages h) in
      elim (Bool-cases (is_due h tokens)) [
        | inr idle ↦
            let quiet : (not (leb 30 (length h)) && not (over_tokens tokens)) ≡ true =
              ground (arith, over_tokens_lem tokens) in
            let short : ltb 60 (length h) ≡ false = ground arith in
            subst (Counted h model tokens) (sym (requests_idle h tokens quiet))
              (h, rw quiet (rw short refl), not_due idle, ground arith)
        | inl due ↦
            let over : (not (leb 30 (length h)) && not (over_tokens tokens)) ≡ false =
              ground (arith, over_tokens_lem tokens) in
            elim (Bool-cases (is_summarised h)) [
              | inl again ↦
                  let (one, marked) = &&_true (length (old_messages h) == 1) _ again in
                  let count = length-take (sum_end_of h - 1) (y ∷ rest) (omega arith) in
                  let few : length rest ≤ 15 = ground (arith, one, count) in
                  let short : ltb 60 (length h) ≡ false = ground (arith, few) in
                  subst (Counted h model tokens)
                    (sym (requests_again h tokens over several inside (old ∙ again)))
                    (
                      h,
                      rw over (rw (several, inside) (rw (old ∙ again) (rw short refl))),
                      only_a_summary again,
                      omega (arith, few),
                    )
              | inr fresh ↦
                  subst (Counted h model tokens)
                    (sym (requests_fresh h tokens over several inside (old ∙ fresh)))
                    (rw over (
                      rw (several, inside)
                        (rw (old ∙ fresh) (on_reply x y rest model tokens _ due fresh refl))))
            ]
      ]

  -- A history of at least two messages stays when no compaction is due, that is with fewer than 30
  -- messages and no 24000 tokens reported, and when the one message before the last ones is a summary
  -- already. Otherwise the model is asked to summarise all but the first and the last fifteen messages
  -- (but one at least). Its summary, as a system message with the mark of a summary, takes their place;
  -- without an answer, a history of more than 60 keeps the first and the last twenty messages. The
  -- result never has more than 60 messages, and the request for a summary is counted.
  pub auto_compact_history-Compaction :
      (history : List ChatMessage) (model : String) (tokens : Option ℕ)
      → 2 ≤ length history
      → (after : List ChatMessage) × (auto_compact_history chat history model tokens ≡ some after)
        × Compaction chat history model tokens after (summary_requests history tokens)
        × (length after ≤ 60)
  unfolding Settled
  auto_compact_history-Compaction [] model tokens h = absurd (omega arith)
  auto_compact_history-Compaction (x ∷ []) model tokens h = absurd (omega arith)
  auto_compact_history-Compaction (x ∷ y ∷ rest) model tokens h =
      auto_compact_history_cases x y rest model tokens

-- Where no request is counted, the model is not asked: its replies change nothing.
pub auto_compact_history_unasked :
    {E : Type 0} (chat other : String → String → String → Result E String)
    (history : List ChatMessage) (model : String) (tokens : Option ℕ)
    → summary_requests history tokens ≡ 0
    → auto_compact_history chat history model tokens
      ≡ auto_compact_history other history model tokens
unfolding auto_compact_history rolling_compact summarise summary_requests
auto_compact_history_unasked chat other history model tokens h =
    elim (Bool-cases (not (leb 30 (length history)) && not (over_tokens tokens))) [
      | inl idle ↦ rw idle refl
      | inr due ↦ elim (Bool-cases (leb (sum_end_of history) 1)) [
        | inl early ↦ rw due (rw early refl)
        | inr late ↦ elim (Bool-cases (leb (sum_end_of history) (length history))) [
          | inr outside ↦ rw due (rw late (rw outside refl))
          | inl inside ↦ elim (Bool-cases (is_old_summary (old_messages history))) [
            | inl again ↦ rw due (rw late (rw inside (rw again refl)))
            | inr fresh ↦
                let one = requests_fresh history tokens due late inside fresh in
                absurd (omega (arith, h, one))
          ]
        ]
      ]
    ]
