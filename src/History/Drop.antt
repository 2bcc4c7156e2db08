-- ===== src/History/Drop.antt =====
-- The results of answered tasks: which are shortened, and what the shortening leaves alone.
use mathlib.Core.Option.{some-injective}
use park_smart_harness.Base.{
  ℕ, suc, ◌≤◌, ◌<◌, ◌≡◌, String, refl, sym, ap, ◌∙◌, Bool, true, false, none, some, List, [], ◌∷◌,
  any, arith, ◌&&◌, if◌then◌else◌, Option-cases, Bool-cases, inl, inr,
}
use park_smart_harness.Message.{Message}
use park_smart_harness.Repair.Legal.{AllKept}
use park_smart_harness.Repair.Alike.{Alike, AllKept-cons-Alike}
use park_smart_harness.History.{
  is_text_answer, is_droppable, shorten, last_answer, some_if, drop_before,
  drop_answered_tool_results,
}

abbrev pub settle : Bool → Message → Message
settle answered m = if is_droppable m && answered then shorten m else m

-- Without indices: a droppable result is shortened exactly if a text answer comes after it.
abbrev pub shorten_answered : List Message → List Message
shorten_answered [] = []
shorten_answered (m ∷ ms) = settle (any is_text_answer ms) m ∷ shorten_answered ms

no_answer : (i : ℕ) (ms : List Message) → last_answer i ms ≡ none → any is_text_answer ms ≡ false
unfolding last_answer
no_answer i [] h = refl
no_answer i (m ∷ ms) h = elim (Option-cases (last_answer (suc i) ms)) [
  | inl e ↦ ground (arith, no_answer (suc i) ms e)
  | inr e ↦ let (j, q) = e in let no : some j ≡ none = rw q at h in cc
]

shorten_answered_of_none :
    (ms : List Message) → any is_text_answer ms ≡ false → shorten_answered ms ≡ ms
shorten_answered_of_none [] h = refl
shorten_answered_of_none (m ∷ ms) h = ground (arith, shorten_answered_of_none ms)

drop_before_past : (last i : ℕ) (ms : List Message) → last < i → drop_before last i ms ≡ ms
unfolding drop_before
drop_before_past last i [] h = refl
drop_before_past last i (m ∷ ms) h = ground (arith, drop_before_past last (suc i) ms)

answer_bounds :
    (i j : ℕ) (ms : List Message)
    → last_answer i ms ≡ some j
    → (i ≤ j) × (any is_text_answer ms ≡ true)
unfolding last_answer
answer_bounds i j [] h = cc
answer_bounds i j (m ∷ ms) h = elim (Option-cases (last_answer (suc i) ms)) [
  | inl e ↦ ground arith
  | inr e ↦ let (k, q) = e in let b = answer_bounds (suc i) k ms q in ground arith
]

drop_before-eq :
    (i j : ℕ) (ms : List Message)
    → last_answer i ms ≡ some j
    → drop_before j i ms ≡ shorten_answered ms
unfolding last_answer drop_before
drop_before-eq i j [] h = cc
drop_before-eq i j (m ∷ ms) h = elim (Option-cases (last_answer (suc i) ms)) [
  | inl e ↦
      let later = no_answer (suc i) ms e in
      let here : some_if (is_text_answer m) i ≡ some j = rw e at h in
      let same : i ≡ j = ground (arith, here) in
      ground (arith, later, same, drop_before_past j (suc i) ms, shorten_answered_of_none ms later)
  | inr e ↦
      let (k, q) = e in
      let same : k ≡ j = some-injective _ _ (rw q at h) in
      let b = answer_bounds (suc i) k ms q in
      ground (arith, same, b.0, b.1, drop_before-eq (suc i) j ms (q ∙ ap some same))
]

-- `drop_answered_tool_results` shortens a tool result exactly if it is ordinary, is no placeholder
-- of a pending action, and a text answer comes after it; every other message stays.
pub drop_answered-eq-shorten_answered :
    (ms : List Message) → drop_answered_tool_results ms ≡ shorten_answered ms
unfolding drop_answered_tool_results
drop_answered-eq-shorten_answered ms = elim (Option-cases (last_answer 0 ms)) [
  | inl e ↦ rw e (sym (shorten_answered_of_none ms (no_answer 0 ms e)))
  | inr e ↦ let (j, q) = e in rw q (drop_before-eq 0 j ms q)
]

settle-Alike : (answered : Bool) (m : Message) → Alike m (settle answered m)
settle-Alike answered m = elim (Bool-cases (is_droppable m && answered)) [
  | inl e ↦ rw e (refl, refl, refl)
  | inr e ↦ rw e (refl, refl, refl)
]

shorten_answered-AllKept :
    (known : List String) (ms : List Message)
    → AllKept known ms
    → AllKept known (shorten_answered ms)
shorten_answered-AllKept known [] h = tt
shorten_answered-AllKept known (m ∷ ms) h =
    AllKept-cons-Alike known m (settle (any is_text_answer ms) m) ms (shorten_answered ms)
      (settle-Alike (any is_text_answer ms) m) (λ k. shorten_answered-AllKept k ms) h

-- A sequence without orphans has none after the shortening.
pub drop_answered-AllKept :
    (known : List String) (ms : List Message)
    → AllKept known ms
    → AllKept known (drop_answered_tool_results ms)
drop_answered-AllKept known ms h =
    rw (drop_answered-eq-shorten_answered ms) (shorten_answered-AllKept known ms h)
