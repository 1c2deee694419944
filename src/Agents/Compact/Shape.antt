-- ===== src/Agents/Compact/Shape.antt =====
-- What compaction leaves of a history, and when it panics.
use ada_claw.Prelude.{
  ℕ, zero, suc, ◌-◌, ◌≤◌, ◌≡◌, refl, String, true, false, not, ◌&&◌, Option, some, inl, inr, List,
  [], ◌∷◌, ◌++◌, Result, ok, err, leb, ltb, length, take, drop, max, is_some, arith, Bool-cases,
  length-drop,
}
use ada_claw.Agents.Message.{ChatMessage}
use ada_claw.Agents.Compact.{
  trim_history, over_tokens, sum_end_of, is_old_summary, summary_message, replace_old, summarise,
  rolling_compact, auto_compact_history, hard_max_history, hard_keep_recent, rolling_keep,
  summary_system, summary_prompt,
}

module _ {E : Type 0} (chat : String → String → String → Result E String) where
  -- The calls panic exactly where the reported tokens ask for a compaction of a history with fewer
  -- than two messages.
  pub auto_compact_history_panics_iff :
      (history : List ChatMessage) (model : String) (prompt_tokens : Option ℕ)
      → is_some (auto_compact_history chat history model prompt_tokens)
        ≡ not (over_tokens prompt_tokens && ltb (length history) 2)
  unfolding auto_compact_history rolling_compact summarise
  auto_compact_history_panics_iff history model prompt_tokens = ground arith

-- The first message, at most one message instead of the old ones, and the rest from place `from` on.
abbrev pub kept : List ChatMessage → List ChatMessage → ℕ → List ChatMessage
kept history middle from = take 1 history ++ (middle ++ drop from history)

abbrev pub Kept : List ChatMessage → Option (List ChatMessage) → Type 0
Kept history result =
    (middle : List ChatMessage) × (from : ℕ) × (result ≡ some (kept history middle from))
    × (length middle ≤ 1)
    × (from ≤ max (length history - rolling_keep) 2)
    × (length (kept history middle from) ≤ hard_max_history)

untouched :
    (x : ChatMessage) (rest : List ChatMessage)
    → length rest ≤ 59
    → Kept (x ∷ rest) (some (x ∷ rest))
untouched x rest short = ([], 1, refl, omega arith, omega arith, omega arith)

is_old_summary-length : (l : List ChatMessage) → is_old_summary l ≡ true → length l ≡ 1
is_old_summary-length [] old = cc
is_old_summary-length (m ∷ []) old = refl
is_old_summary-length (m ∷ n ∷ rest) old = cc

pub length-take : (n : ℕ) (l : List ChatMessage) → n ≤ length l → length (take n l) ≡ n
length-take zero l h = refl
length-take (suc n) [] h = omega arith
length-take (suc n) (x ∷ l) h = let rest = length-take n l (omega arith) in omega arith

trimmed :
    (x : ChatMessage) (rest : List ChatMessage) → Kept (x ∷ rest) (some (trim_history (x ∷ rest)))
unfolding trim_history
trimmed x rest =
    let h : List ChatMessage = x ∷ rest in
    let left = length-drop (length h - hard_keep_recent) h in
    elim (Bool-cases (ltb hard_max_history (length h) && ltb 1 (length h - hard_keep_recent))) [
      | inl long ↦
          rw long ([], length h - hard_keep_recent, refl, omega arith, ground arith, omega arith)
      | inr short ↦ rw short (untouched x rest (ground arith))
    ]

module _ {E : Type 0} (chat : String → String → String → Result E String) where
  replaced :
      (x y : ChatMessage) (rest : List ChatMessage) (reply : Result E String)
      → Kept
          (x ∷ y ∷ rest)
          (some (replace_old chat (sum_end_of (x ∷ y ∷ rest)) (x ∷ y ∷ rest) reply))
  unfolding replace_old
  replaced x y rest (ok summary) =
      let h : List ChatMessage = x ∷ y ∷ rest in
      let left = length-drop (sum_end_of h) h in
      (summary_message summary ∷ [], sum_end_of h, refl, omega arith, omega arith, omega arith)
  replaced x y rest (err e) = trimmed x (y ∷ rest)

  rolling_compact-Kept :
      (x y : ChatMessage) (rest : List ChatMessage) (model : String) (prompt_tokens : Option ℕ)
      → Kept (x ∷ y ∷ rest) (rolling_compact chat (x ∷ y ∷ rest) model prompt_tokens)
  unfolding rolling_compact summarise
  rolling_compact-Kept x y rest model prompt_tokens =
      let h : List ChatMessage = x ∷ y ∷ rest in
      let old = take (sum_end_of h - 1) (drop 1 h) in
      let several : leb (sum_end_of h) 1 ≡ false = ground arith in
      let inside : leb (sum_end_of h) (length h) ≡ true = ground arith in
      elim (Bool-cases (not (leb 30 (length h)) && not (over_tokens prompt_tokens))) [
        | inl idle ↦ rw idle (untouched x (y ∷ rest) (ground arith))
        | inr over ↦ rw over (
            rw (several, inside)
              (elim (Bool-cases (is_old_summary old)) [
                | inl again ↦
                    let one = is_old_summary-length old again in
                    let all = length-take (sum_end_of h - 1) (y ∷ rest) (omega arith) in
                    rw again (untouched x (y ∷ rest) (omega arith))
                | inr fresh ↦
                    rw fresh (replaced x y rest (chat summary_system (summary_prompt old) model))
              ]))
      ]

  pub auto_compact_history-Kept :
      (history : List ChatMessage) (model : String) (prompt_tokens : Option ℕ)
      → 2 ≤ length history
      → Kept history (auto_compact_history chat history model prompt_tokens)
  unfolding auto_compact_history
  auto_compact_history-Kept [] model prompt_tokens two = absurd (omega arith)
  auto_compact_history-Kept (x ∷ []) model prompt_tokens two = absurd (omega arith)
  auto_compact_history-Kept (x ∷ y ∷ rest) model prompt_tokens two =
      let (middle, from, same, one, tail, short) =
        rolling_compact-Kept x y rest model prompt_tokens in
      let fits : ltb hard_max_history (length (kept (x ∷ y ∷ rest) middle from)) ≡ false =
        ground arith in
      (middle, from, rw same (rw fits refl), one, tail, short)
