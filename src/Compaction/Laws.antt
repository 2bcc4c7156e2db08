-- ===== src/Compaction/Laws.antt =====
-- The span that is summarised, and the view after a summary: what goes, and what stays.
use mathlib.Core.Option.{some-injective}
use park_smart_harness.Base.{
  ℕ, zero, suc, ◌+◌, ◌-◌, ◌≤◌, ◌<◌, ◌≡◌, sym, ap, ◌∙◌, subst, false, none, some, List, ◌++◌, any,
  arith, ◌==◌, leb, leb→le, leb→lt, length, count, take, drop, take-drop, get_elem?, Bool-cases,
  inl, inr, if◌then◌else◌,
}
use park_smart_harness.Message.{Message}
use park_smart_harness.History.{opens_step, step_starts, pending_mark}
use park_smart_harness.History.Trim.{
  start_split, get_elem?-starts, length-starts, count-append, slices, count-take_mono,
}
use park_smart_harness.Compaction.{
  Span, at_or, index_or, step_tokens, recent_steps, unless_pending, span_between,
  select_compaction_span,
}

module _ (estimate : List Message → ℕ) (ms : List Message) (budget first : ℕ) where
  recent_steps_bounds :
      (left acc taken : ℕ)
      → (taken ≤ recent_steps estimate ms budget first left acc taken)
        × (recent_steps estimate ms budget first left acc taken ≤ taken + left)
  unfolding recent_steps
  recent_steps_bounds zero acc taken = omega arith
  recent_steps_bounds (suc left) acc taken =
      ground
        (arith, recent_steps_bounds left (acc + step_tokens estimate ms (first + left)) (suc taken))

  recent_steps_some :
      (left acc taken : ℕ) → 0 < left → taken < recent_steps estimate ms budget first left acc taken
  unfolding recent_steps
  recent_steps_some zero acc taken h = absurd (omega arith)
  recent_steps_some (suc left) acc taken h =
      ground
        (arith, recent_steps_bounds left (acc + step_tokens estimate ms (first + left)) (suc taken))

-- `head`, `middle` and the rest are the whole log, cut where steps start.
pub record IsSpan (first : ℕ) (ms : List Message) (s : Span) : Type 0 where
  pub rest : List Message
  pub whole : ms ≡ s.head ++ (s.middle ++ rest)
  pub head_steps : count opens_step s.head ≡ first
  pub rest_steps : count opens_step rest ≡ s.recent_turns
  pub some_recent : 0 < s.recent_turns
  pub some_middle : 0 < count opens_step s.middle
  pub enough : first + s.recent_turns < length (step_starts ms)
  pub head_is : s.head ≡ take (index_or (length ms) (step_starts ms) first) ms
  pub rest_is :
      rest
      ≡ drop (index_or (length ms) (step_starts ms) (length (step_starts ms) - s.recent_turns)) ms
  pub none_pending : any (λ m. m.content == pending_mark) s.middle ≡ false

not_pending :
    (s t : Span)
    → unless_pending s ≡ some t
    → (s ≡ t) × (any (λ m. m.content == pending_mark) s.middle ≡ false)
not_pending s t h = elim (Bool-cases (any (λ m. m.content == pending_mark) s.middle)) [
  | inl e ↦ let no : none ≡ some t = rw e at h in cc
  | inr e ↦ (some-injective _ _ (rw e at h), e)
]

index_at : (end j i : ℕ) (starts : List ℕ) → get_elem? starts i ≡ some j → index_or end starts i ≡ j
index_at end j i starts e = ap (at_or end) e

module _ (first recent : ℕ) (ms : List Message) where
  span_at :
      (lo hi : ℕ) (s : Span)
      → count opens_step (take lo ms) ≡ first
      → count opens_step (take hi ms) ≡ length (step_starts ms) - recent
      → first < length (step_starts ms) - recent
      → 0 < recent
      → index_or (length ms) (step_starts ms) first ≡ lo
      → index_or (length ms) (step_starts ms) (length (step_starts ms) - recent) ≡ hi
      → unless_pending (span_between ms lo hi recent) ≡ some s
      → IsSpan first ms s
  span_at lo hi s d d' gap pos elo ehi e =
      let (same, clear) = not_pending (span_between ms lo hi recent) s e in
      let later = after lo hi d d' gap in
      let n = length-starts opens_step 0 ms in
      let whole = slices lo hi ms (omega arith) in
      let all = ap (count opens_step) whole in
      let tail = ap (count opens_step) (take-drop hi ms) in
      subst (IsSpan first ms) same (record {
        rest = drop hi ms;
        whole = sym whole;
        head_steps = d;
        rest_steps = omega (arith, count-append opens_step (take hi ms) (drop hi ms), tail, n);
        some_recent = pos;
        some_middle = omega (
          arith,
          count-append opens_step (take lo ms) (drop lo (take hi ms) ++ drop hi ms),
          count-append opens_step (drop lo (take hi ms)) (drop hi ms),
          count-append opens_step (take hi ms) (drop hi ms),
          all,
          tail,
          n,
        );
        enough = omega arith;
        head_is = ap (λ j. take j ms) (sym elo);
        rest_is = ap (λ j. drop j ms) (sym ehi);
        none_pending = clear;
      })
    where
      after :
          (lo hi : ℕ)
          → count opens_step (take lo ms) ≡ first
          → count opens_step (take hi ms) ≡ length (step_starts ms) - recent
          → first < length (step_starts ms) - recent
          → lo < hi
      after lo hi d d' gap = elim (Bool-cases (leb hi lo)) [
        | inl e ↦
            let below = count-take_mono opens_step hi lo ms (leb→le hi lo e) in absurd (omega arith)
        | inr e ↦ leb→lt hi lo e
      ]

  -- The start of a step, as the source looks it up.
  step_index :
      (k : ℕ)
      → k < length (step_starts ms)
      → (lo : ℕ) × (index_or (length ms) (step_starts ms) k ≡ lo)
        × (count opens_step (take lo ms) ≡ k)
  step_index k h =
      let (j, e) = get_elem?-starts opens_step 0 k ms h in
      let (n, m, later, a, b, c, d) = start_split opens_step 0 k j ms e in
      let same : j ≡ n = omega arith in (n, index_at (length ms) j k (step_starts ms) e ∙ same, d)

  span_of_recent :
      (s : Span)
      → 0 < recent
      → first + 1 < length (step_starts ms)
      → (if leb (length (step_starts ms) - recent) first
          then none
          else unless_pending (
              span_between ms
                (index_or (length ms) (step_starts ms) first)
                (index_or (length ms) (step_starts ms) (length (step_starts ms) - recent))
                recent))
        ≡ some s
      → IsSpan first ms s
  span_of_recent s pos more h = elim (Bool-cases (leb (length (step_starts ms) - recent) first)) [
    | inl e ↦ let no : none ≡ some s = rw e at h in cc
    | inr e ↦
        let gap = leb→lt (length (step_starts ms) - recent) first e in
        let (lo, elo, d) = step_index first (omega arith) in
        let (hi, ehi, d') = step_index (length (step_starts ms) - recent) (omega arith) in
        let found = rw e at h in
        span_at lo hi s d d' gap pos elo ehi
          ((λ i. unless_pending (span_between ms (sym elo i) (sym ehi i) recent)) ∙ found)
  ]

-- A span that is selected cuts the log where steps start: the head has the first steps that are
-- kept, the rest has the recent ones, of which there is one at least, and between them lies at least
-- one step and no placeholder of a pending action.
pub select_compaction_span-IsSpan :
    (estimate : List Message → ℕ) (first budget : ℕ) (ms : List Message) (s : Span)
    → select_compaction_span estimate first budget ms ≡ some s
    → IsSpan first ms s
unfolding select_compaction_span
select_compaction_span-IsSpan estimate first budget ms s h =
    elim (Bool-cases (leb (length (step_starts ms)) (first + 1))) [
      | inl e ↦ let no : none ≡ some s = rw e at h in cc
      | inr e ↦
          let more = leb→lt (length (step_starts ms)) (first + 1) e in
          span_of_recent first
            (recent_steps estimate ms budget first (length (step_starts ms) - first) 0 0) ms s
            (recent_steps_some estimate ms budget first (length (step_starts ms) - first) 0 0
              (omega arith))
            more (rw e at h)
    ]
