-- ===== src/Compaction/View.antt =====
-- What the model sees after a summary: the span is gone, and the summary stands in its place.
use mathlib.Core.List.{append-nil}
use park_smart_harness.Base.{
  ℕ, ◌-◌, ◌<◌, ◌≡◌, refl, ap, ◌∙◌, String, false, Option, none, some, List, [], ◌∷◌, ◌++◌, any,
  arith, leb, count, ◌<>◌, length, eq_refl,
}
use park_smart_harness.Exec.{Exc, ok, raised, continue, gets, pure, ◌>>=◌}
use park_smart_harness.Budget.{LoopConfig}
use park_smart_harness.Tools.{Host, Conversation}
use park_smart_harness.Message.{Message, plain, system}
use park_smart_harness.History.{step_starts, opens_step}
use park_smart_harness.Compaction.{
  Compaction, is_compaction_call, Split, split_at, split_last, derive_compaction, Span,
  select_compaction_span, without_pairs, note_of, smaller, larger, view_of, newest_of, view_from,
  estimate_tokens, apply_compaction_view,
}
use park_smart_harness.Compaction.Compactor.{
  summary_pair, frame_summary, CompactorSettings, prior_of, with_prior, on_span, compact,
  summarized,
}
use park_smart_harness.Compaction.Laws.{IsSpan, select_compaction_span-IsSpan}

split_none : (ms : List Message) → any is_compaction_call ms ≡ false → split_last ms ≡ none
unfolding split_last
split_none [] h = refl
split_none (m ∷ ms) h = ground (arith, split_none ms)

abbrev grown : List Message → Split → Split
grown ms s = record s { pre = ms ++ s.pre }

split_after :
    (ms later : List Message) (s : Split)
    → split_last later ≡ some s
    → split_last (ms ++ later) ≡ some (grown ms s)
unfolding split_last
split_after [] later s h = h
split_after (m ∷ ms) later s h = ap (split_at m (ms ++ later)) (split_after ms later s h)

-- The log with the pair of a summary, and what was said since.
abbrev pub compacted : List Message → String → ℕ → ℕ → ℕ → String → List Message → List Message
compacted ms tid seq first recent framed since =
    ms ++ (summary_pair tid seq first recent framed ++ since)

module _ (ms : List Message) (tid : String) (seq first recent : ℕ) (framed : String)
    (since : List Message) (newest : any is_compaction_call since ≡ false) where
  abbrev the_compaction : Compaction
  the_compaction = record {
    summary = framed;
    covers_through_seq = seq;
    head_keep = first;
    recent_turns = recent;
  }

  abbrev the_pair : List Message
  the_pair = summary_pair tid seq first recent framed

  abbrev the_split : List Message → Split
  the_split pre = record { pre = pre; call = call_of the_pair; post = tail_of the_pair ++ since }
    where
      call_of : List Message → Message
      call_of [] = note_of the_compaction
      call_of (m ∷ later) = m

      tail_of : List Message → List Message
      tail_of [] = []
      tail_of (m ∷ later) = later

  split_pair : split_last (the_pair ++ since) ≡ some (the_split [])
  unfolding split_last
  split_pair = rw (split_none since newest) refl

  split_here : split_last (compacted ms tid seq first recent framed since) ≡ some (the_split ms)
  split_here =
      split_after ms (the_pair ++ since) (the_split []) split_pair
      ∙ ap (λ l. some (the_split l)) (append-nil ms)

  derived :
      derive_compaction (compacted ms tid seq first recent framed since)
      ≡ some (some the_compaction)
  unfolding derive_compaction
  derived = ap newest_of split_here ∙ rw (eq_refl tid) refl

  viewed :
      apply_compaction_view the_compaction (compacted ms tid seq first recent framed since)
      ≡ view_of the_compaction ms since
  unfolding apply_compaction_view
  viewed = ap (view_from the_compaction (compacted ms tid seq first recent framed since)) split_here

view_of-IsSpan :
    (c : Compaction) (ms : List Message) (s : Span) (since : List Message)
    (p : IsSpan c.head_keep ms s)
    → s.recent_turns ≡ c.recent_turns
    → view_of c ms since
      ≡ without_pairs s.head ++ (note_of c ∷ (without_pairs p.rest ++ without_pairs since))
view_of-IsSpan c ms s since p e =
    let n = length (step_starts ms) in
    let test : leb n 0 ≡ false = ground (arith, p.enough) in
    let kept : smaller c.head_keep n ≡ c.head_keep = ground (arith, p.enough) in
    let recent : larger c.head_keep (n - c.recent_turns) ≡ n - c.recent_turns =
      ground (arith, p.enough, e) in
    rw (p.head_is, p.rest_is, e, test, kept, recent) refl

-- The summary `tid` of this text is in the log, newest, and was made of the span.
pub record IsSummary {W : Type 0} (k : CompactorSettings W) (ms : List Message) (seq : ℕ)
    (pair : List Message) : Type 0 where
  pub span : Span
  pub tid : String
  pub body : String
  pub selected :
      select_compaction_span (estimate_tokens k.repr) k.keep_first k.tail_token_budget ms
      ≡ some span
  pub written : pair ≡ summary_pair tid seq k.keep_first span.recent_turns (frame_summary body)

module _ {W : Type 0} (k : CompactorSettings W) (c : Conversation) (seq : ℕ) (config : LoopConfig)
    (h h' : Host W) (pair : List Message) where
  summarized_inv :
      (s : Span) (r : Exc String × Host W)
      → select_compaction_span (estimate_tokens k.repr) k.keep_first k.tail_token_budget c.messages
        ≡ some s
      → continue r.0
          (λ body. (gets (λ h. "cmp-" <> k.uuid h.world)) >>= λ tid.
            pure (some (summary_pair tid seq k.keep_first s.recent_turns (frame_summary body))))
          r.1
        ≡ (ok (some pair), h')
      → IsSummary k c.messages seq pair
  unfolding ◌>>=◌
  summarized_inv s (ok body, g) e q = record {
    span = s;
    tid = "cmp-" <> k.uuid g.world;
    body = body;
    selected = e;
    written = cc;
  }
  summarized_inv s (raised x, g) e q = absurd (let no : ⊥ = cc in no)

  prior_inv :
      (s : Span) (prior : Option String)
      → select_compaction_span (estimate_tokens k.repr) k.keep_first k.tail_token_budget c.messages
        ≡ some s
      → with_prior k c seq config s prior h ≡ (ok (some pair), h')
      → IsSummary k c.messages seq pair
  unfolding summarized ◌>>=◌
  prior_inv s none e q = absurd (let no : ⊥ = cc in no)
  prior_inv s (some p) e q = summarized_inv s (k.summarize s.head s.middle p config h) e q

  span_inv :
      (o : Option Span)
      → select_compaction_span (estimate_tokens k.repr) k.keep_first k.tail_token_budget c.messages
        ≡ o
      → on_span k c seq config o h ≡ (ok (some pair), h')
      → IsSummary k c.messages seq pair
  span_inv none e q = absurd (let no : ⊥ = cc in no)
  span_inv (some s) e q = prior_inv s (prior_of (derive_compaction c.messages)) e q

  compact-IsSummary :
      compact k c seq config h ≡ (ok (some pair), h') → IsSummary k c.messages seq pair
  unfolding compact
  compact-IsSummary q = span_inv _ refl q

  -- Where a compaction has written its pair to the log, and no newer one since, the log's newest
  -- summary is read back, and the view with it is: the messages before the span, the framed summary,
  -- the messages after the span, and what was said since; the pairs of older summaries are left out.
  -- The span holds at least one step, the messages before it the first steps that are kept.
  pub compaction_takes_the_span :
      compact k c seq config h ≡ (ok (some pair), h')
      → (since : List Message) → any is_compaction_call since ≡ false
      → (head middle rest : List Message) × (body : String) × (recent : ℕ) × (c.messages
          ≡ head ++ (middle ++ rest))
        × (count opens_step head ≡ k.keep_first)
        × (0 < count opens_step middle)
        × (let comp : Compaction = record {
          summary = frame_summary body;
          covers_through_seq = seq;
          head_keep = k.keep_first;
          recent_turns = recent;
        } in
            (derive_compaction (c.messages ++ (pair ++ since)) ≡ some (some comp))
            × (apply_compaction_view comp (c.messages ++ (pair ++ since))
                ≡ without_pairs head
                  ++ (plain system (frame_summary body)
                      ∷ (without_pairs rest ++ without_pairs since))))
  compaction_takes_the_span q since newest =
      let made = compact-IsSummary q in
      let s = made.span in
      let p =
        select_compaction_span-IsSpan (estimate_tokens k.repr) k.keep_first k.tail_token_budget
          c.messages s made.selected in
      let framed = frame_summary made.body in
      let comp =
        the_compaction c.messages made.tid seq k.keep_first s.recent_turns framed since newest in
      let log : (c.messages ++ (pair ++ since))
          ≡ compacted c.messages made.tid seq k.keep_first s.recent_turns framed since =
        ap (λ l. c.messages ++ (l ++ since)) made.written in
      (
        s.head,
        s.middle,
        p.rest,
        made.body,
        s.recent_turns,
        p.whole,
        p.head_steps,
        p.some_middle,
        (
          ap derive_compaction log
              ∙ derived c.messages made.tid seq k.keep_first s.recent_turns framed since newest,
          ap (apply_compaction_view comp) log
              ∙ viewed c.messages made.tid seq k.keep_first s.recent_turns framed since newest
              ∙ view_of-IsSpan comp c.messages s since p refl,
        ),
      )
