-- ===== src/RateLimit/Window/Bound.antt =====
-- What a counter admits: over any calls at times that do not fall, every window of its width holds
-- at most `limit` admitted events, and an event is refused only where the window is full.
use ada_claw.Prelude.{
  ℕ, ◌^◌, ◌≤◌, ◌<◌, ◌≡◌, refl, sym, ap, ◌∙◌, Bool, true, false, ◌&&◌, List, [], ◌∷◌, ◌++◌, arith,
  ltb, leb, if◌then◌else◌, length, filter, filter-append, length-append, length-filter-le, ◌⊎◌, inl,
  inr,
}
use ada_claw.RateLimit.Window.{WindowCounter, is_fresh, new, try_record}

-- The calls at the given times: the counter after them, and the times that were admitted.
unfoldable pub record_all : List ℕ → WindowCounter → List ℕ → WindowCounter × List ℕ
record_all [] c admitted = (c, admitted)
record_all (now ∷ times) c admitted =
    let (d, allowed) = try_record now c in
    record_all times d (if allowed then admitted ++ now ∷ [] else admitted)

-- The times do not fall, and none is before `from`.
abbrev pub IsMonotone : ℕ → List ℕ → Type 0
IsMonotone from [] = Unit
IsMonotone from (t ∷ ts) = (from ≤ t) × IsMonotone t ts

-- The event at `t` lies in the window that ends at `at`.
abbrev pub is_within : ℕ → ℕ → ℕ → Bool
is_within window at t = is_fresh window at t && leb t at

abbrev counter : ℕ → ℕ → List ℕ → WindowCounter
counter limit window events = record { events = events; window = window; limit = limit }

-- What links the stored events to the admitted ones after a reading `now`.
record Inv (limit window now : ℕ) (events admitted : List ℕ) : Type 0 where
  kept : filter (is_fresh window now) events ≡ filter (is_fresh window now) admitted
  small : length events ≤ limit
  bounded : (at : ℕ) → length (filter (is_within window at) admitted) ≤ limit

-- A later reading keeps fewer events.
filter-fresh :
    (w a b : ℕ) (xs : List ℕ)
    → a ≤ b
    → filter (is_fresh w b) (filter (is_fresh w a) xs) ≡ filter (is_fresh w b) xs
filter-fresh w a b [] h = refl
filter-fresh w a b (x ∷ xs) h = ground (arith, filter-fresh w a b xs h)

within-le-fresh :
    (w a b : ℕ) (xs : List ℕ)
    → a ≤ b
    → length (filter (is_within w b) xs) ≤ length (filter (is_fresh w a) xs)
within-le-fresh w a b [] h = omega arith
within-le-fresh w a b (x ∷ xs) h = ground (arith, within-le-fresh w a b xs h)

evict-kept :
    (limit w now later : ℕ) (events admitted : List ℕ)
    → now ≤ later
    → Inv limit w now events admitted
    → filter (is_fresh w later) events ≡ filter (is_fresh w later) admitted
evict-kept limit w now later events admitted h inv =
    sym (filter-fresh w now later events h)
    ∙ ap (filter (is_fresh w later)) inv.kept
    ∙ filter-fresh w now later admitted h

-- The bound survives an admission at `later` while fewer than `limit` events are fresh there.
bounded-append :
    (limit w later : ℕ) (admitted : List ℕ)
    → length (filter (is_fresh w later) admitted) < limit
    → ((at : ℕ) → length (filter (is_within w at) admitted) ≤ limit)
    → (at : ℕ) → length (filter (is_within w at) (admitted ++ later ∷ [])) ≤ limit
bounded-append limit w later admitted room bounded at =
    rw (filter-append (is_within w at) admitted (later ∷ [])) (
      rw (length-append (filter (is_within w at) admitted) (filter (is_within w at) (later ∷ [])))
        (ground (arith, bounded at, within-le-fresh w later at admitted)))

-- One call on a limited counter: refused where the window is full, and admitted otherwise.
try_record-cases :
    (limit w later : ℕ) (events : List ℕ)
    → 0 < limit
    → limit < 2 ^ 32
    → length events ≤ limit
    → let fresh = filter (is_fresh w later) events in
      ((try_record later (counter limit w events) ≡ (counter limit w fresh, false))
        × (limit ≤ length fresh))
      ⊎ ((try_record later (counter limit w events) ≡ (counter limit w (fresh ++ later ∷ []), true))
          × (length fresh < limit))
unfolding try_record
try_record-cases limit w later events pos small few =
    ground (arith, length-filter-le (is_fresh w later) events)

module _ (limit w now later : ℕ) (events admitted : List ℕ) (h : now ≤ later) where
  refuse-Inv :
      Inv limit w now events admitted
      → Inv limit w later (filter (is_fresh w later) events) admitted
  refuse-Inv inv = record {
    kept =
        filter-fresh w later later events (omega arith)
        ∙ evict-kept limit w now later events admitted h inv;
    small = omega (arith, inv.small, length-filter-le (is_fresh w later) events);
    bounded = inv.bounded;
  }

  admit-Inv :
      length (filter (is_fresh w later) events) < limit
      → Inv limit w now events admitted
      → Inv limit w later (filter (is_fresh w later) events ++ later ∷ []) (admitted ++ later ∷ [])
  admit-Inv room inv = record {
    kept =
        rw (filter-append, filter-append)
          (ap (λ xs. xs ++ filter (is_fresh w later) (later ∷ [])) (refuse-Inv inv).kept);
    small = rw length-append (omega arith);
    bounded =
        bounded-append limit w later admitted
          (rw (evict-kept limit w now later events admitted h inv) at room) inv.bounded;
  }

-- The last reading, `from` where there is none.
abbrev pub last_time : ℕ → List ℕ → ℕ
last_time from [] = from
last_time from (t ∷ ts) = last_time t ts

-- What the calls leave: a counter of the same width and limit, and events that match the admitted.
record Outcome (limit window now : ℕ) (r : WindowCounter × List ℕ) : Type 0 where
  shape : r.0 ≡ counter limit window r.0.events
  inv : Inv limit window now r.0.events r.1

module _ (limit w : ℕ) (pos : 0 < limit) (fits : limit < 2 ^ 32) where
  record_all-Outcome :
      (now : ℕ) (times events admitted : List ℕ)
      → IsMonotone now times
      → Inv limit w now events admitted
      → Outcome limit w (last_time now times) (record_all times (counter limit w events) admitted)
  unfolding record_all
  record_all-Outcome now [] events admitted mono inv = record { shape = refl; inv = inv }
  record_all-Outcome now (later ∷ times) events admitted mono inv =
      elim (try_record-cases limit w later events pos fits inv.small) [
        | inl (refused, _) ↦ rw refused (
            record_all-Outcome later times (filter (is_fresh w later) events) admitted mono.1
              (refuse-Inv limit w now later events admitted mono.0 inv))
        | inr (allowed, room) ↦ rw allowed (
            record_all-Outcome later times (filter (is_fresh w later) events ++ later ∷ [])
              (admitted ++ later ∷ []) mono.1
              (admit-Inv limit w now later events admitted mono.0 room inv))
      ]

  new-Outcome :
      (times : List ℕ)
      → IsMonotone 0 times
      → Outcome limit w (last_time 0 times) (record_all times (new w limit) [])
  unfolding new
  new-Outcome times mono =
      record_all-Outcome 0 times [] [] mono
        (record { kept = refl; small = omega arith; bounded = λ at. omega arith })

  -- Over any calls of a fresh counter at times that do not fall, each window of the counter's width
  -- holds at most `limit` of the admitted events, wherever the window ends.
  pub window_never_exceeds_limit :
      (times : List ℕ)
      → IsMonotone 0 times
      → (at : ℕ) → length (filter (is_within w at) (record_all times (new w limit) []).1) ≤ limit
  window_never_exceeds_limit times mono = (new-Outcome times mono).inv.bounded

  -- After any such calls, one more call at a time that is no earlier is admitted exactly when fewer
  -- than `limit` of the admitted events are younger than the counter's width.
  pub admits_iff_room :
      (times : List ℕ) (later : ℕ)
      → IsMonotone 0 times
      → last_time 0 times ≤ later
      → let (c, admitted) = record_all times (new w limit) [] in
        (try_record later c).1 ≡ ltb (length (filter (is_fresh w later) admitted)) limit
  admits_iff_room times later mono h =
      let out = new-Outcome times mono in
      let c = (record_all times (new w limit) []).0 in
      let admitted = (record_all times (new w limit) []).1 in
      let kept = evict-kept limit w (last_time 0 times) later c.events admitted h out.inv in
      rw (out.shape, ← kept)
        (elim (try_record-cases limit w later c.events pos fits out.inv.small) [
          | inl (refused, full) ↦ rw refused (ground arith)
          | inr (allowed, room) ↦ rw allowed (ground arith)
        ])
