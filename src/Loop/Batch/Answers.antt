-- ===== src/Loop/Batch/Answers.antt =====
-- Every call of a batch is answered, in the order of the calls.
use park_smart_harness.Base.{
  ℕ, suc, ◌+◌, ◌≡◌, refl, sym, ap, ◌∙◌, subst, Option, none, some, List, [], ◌∷◌, ◌++◌, map, set,
  replicate, length, length-append, arith,
}
use mathlib.Core.Path.{subst₂}
use mathlib.Core.List.{append_assoc, append-nil}
use park_smart_harness.Message.{Message, ToolCallReq, PendingAction, tool}
use park_smart_harness.Tools.{Host, LoopTool, ToolContext, get_tool}
use park_smart_harness.Gate.{Verdict, allow, ask, deny}
use park_smart_harness.Dispatch.{ToolExecOutcome, VerifyVerdict}
use park_smart_harness.Loop.{Control, Call}
use park_smart_harness.Loop.Turn.{all_filled}
use park_smart_harness.Loop.Batch.{
  Batch, Items, mark, fill, on_ask, on_verdict, classify_found, classify_calls, verified, run_allow,
  run_items, run_batch, defer,
}

-- A tool message for the call.
abbrev pub Answers : Message → ToolCallReq → Type 0
Answers m c = (m.role ≡ tool) × (m.tool_call_id ≡ some c.id)

abbrev pub AnswersAll : List Message → List ToolCallReq → Type 0
AnswersAll [] [] = Unit {0}
AnswersAll (m ∷ ms) (c ∷ cs) = Answers m c × AnswersAll ms cs
AnswersAll _ _ = ⊥

module _ {W : Type 0} where
  -- From index `i` on, a slot has its call's answer, or is empty and its call is the next item.
  abbrev Covers : ℕ → List (Option Message) → List ToolCallReq → Items W → Type 0
  Covers i [] [] items = items ≡ []
  Covers i (some m ∷ d) (c ∷ cs) items = Answers m c × Covers (suc i) d cs items
  Covers i (none ∷ d) (c ∷ cs) items =
      (t : LoopTool W) × (rest : Items W) × (items ≡ (i, c, t) ∷ rest) × Covers (suc i) d cs rest
  Covers i _ _ items = ⊥

  Covers-answer :
      (i : ℕ) (d : List (Option Message)) (cs : List ToolCallReq) (items : Items W) (m : Message)
      (c : ToolCallReq)
      → Covers i d cs items
      → Answers m c
      → Covers i (d ++ some m ∷ []) (cs ++ c ∷ []) items
  Covers-answer i [] [] items m c h a = (a, h)
  Covers-answer i (some n ∷ d) (e ∷ cs) items m c h a =
      (h.0, Covers-answer (suc i) d cs items m c h.1 a)
  Covers-answer i (none ∷ d) (e ∷ cs) items m c (t, rest, q, k) a =
      (t, rest, q, Covers-answer (suc i) d cs rest m c k a)
  Covers-answer i [] (e ∷ cs) items m c h a = absurd h
  Covers-answer i (some n ∷ d) [] items m c h a = absurd h
  Covers-answer i (none ∷ d) [] items m c h a = absurd h

  Covers-defer :
      (i : ℕ) (d : List (Option Message)) (cs : List ToolCallReq) (items : Items W) (t : LoopTool W)
      (c : ToolCallReq)
      → Covers i d cs items
      → Covers i (d ++ none ∷ []) (cs ++ c ∷ []) (items ++ (i + length d, c, t) ∷ [])
  Covers-defer i [] [] items t c h =
      (t, [], rw h (ap (λ (n : ℕ). (n, c, t) ∷ []) (omega arith)), refl)
  Covers-defer i (some n ∷ d) (e ∷ cs) items t c h = (
    h.0,
    subst (λ (n : ℕ). Covers (suc i) (d ++ none ∷ []) (cs ++ c ∷ []) (items ++ (n, c, t) ∷ []))
        (omega arith) (Covers-defer (suc i) d cs items t c h.1),
  )
  Covers-defer i (none ∷ d) (e ∷ cs) items t c (u, rest, q, k) = (
    u,
    rest ++ (i + length (none ∷ d), c, t) ∷ [],
    rw q refl,
    subst (λ (n : ℕ). Covers (suc i) (d ++ none ∷ []) (cs ++ c ∷ []) (rest ++ (n, c, t) ∷ []))
        (omega arith) (Covers-defer (suc i) d cs rest t c k),
  )
  Covers-defer i [] (e ∷ cs) items t c h = absurd h
  Covers-defer i (some n ∷ d) [] items t c h = absurd h
  Covers-defer i (none ∷ d) [] items t c h = absurd h

module _ {A : Type 0} where
  -- A write at the length of a prefix.
  set-append :
      (p : List A) (v w : A) (r : List A) → set (p ++ v ∷ r) (length p) w ≡ (p ++ w ∷ []) ++ r
  set-append [] v w r = refl
  set-append (y ∷ p) v w r = ap (◌∷◌ y) (set-append p v w r)

  move_over : (p : List A) (v : A) (r : List A) → p ++ v ∷ r ≡ (p ++ v ∷ []) ++ r
  move_over p v r = sym (append_assoc p (v ∷ []) r)

module _ {W : Type 0} where
  -- The batch after the calls `seen`, with the empty slots `r` of the calls to come.
  record Sorted (d : List (Option Message)) (r : List (Option Message)) (seen : List ToolCallReq)
      (b : Batch W) : Type 0 where
    slots : b.results ≡ d ++ r
    covers : Covers 0 d seen b.allow_items

  Sorted-answer :
      (d r : List (Option Message)) (seen : List ToolCallReq) (b : Batch W) (m : Message)
      (c : ToolCallReq) (n : ℕ) (ps : List PendingAction)
      → Sorted d (none ∷ r) seen b
      → Answers m c
      → Sorted (d ++ some m ∷ []) r (seen ++ c ∷ []) (record b {
        results = set b.results (length d) (some m);
        failures = n;
        pending_batch = ps;
      })
  Sorted-answer d r seen b m c n ps s a = record {
    slots = rw s.slots (set-append d none (some m) r);
    covers = Covers-answer 0 d seen b.allow_items m c s.covers a;
  }

  Sorted-defer :
      (d r : List (Option Message)) (seen : List ToolCallReq) (b : Batch W) (t : LoopTool W)
      (c : ToolCallReq)
      → Sorted d (none ∷ r) seen b
      → Sorted (d ++ none ∷ []) r (seen ++ c ∷ []) (defer (length d) c t b)
  Sorted-defer d r seen b t c s = record {
    slots = s.slots ∙ move_over d none r;
    covers =
        subst
          (λ (n : ℕ). Covers 0 (d ++ none ∷ []) (seen ++ c ∷ []) (b.allow_items ++ (n, c, t) ∷ []))
          (omega arith) (Covers-defer 0 d seen b.allow_items t c s.covers);
  }

  -- What one step of the first pass leaves.
  abbrev Next :
      List (Option Message)
      → List (Option Message)
      → List ToolCallReq
      → ToolCallReq
      → Batch W
      → Type 0
  Next d r seen c b = (v : Option Message) × Sorted (d ++ v ∷ []) r (seen ++ c ∷ []) b

module _ {W : Type 0} (x : Call W) (d r : List (Option Message)) (seen : List ToolCallReq) where
  on_ask-Next :
      (c : ToolCallReq) (o : Option (Control W)) (b : Batch W) (h : Host W)
      → Sorted d (none ∷ r) seen b
      → Next d r seen c (on_ask x (length d) c o (b, h)).0
  unfolding on_ask
  on_ask-Next c none b h s = (some _, Sorted-answer d r seen b _ c _ _ s (refl, refl))
  on_ask-Next c (some k) b h s = (some _, Sorted-answer d r seen b _ c _ _ s (refl, refl))

  on_verdict-Next :
      (c : ToolCallReq) (t : LoopTool W) (v : Verdict) (b : Batch W) (h : Host W)
      → Sorted d (none ∷ r) seen b
      → Next d r seen c (on_verdict x (length d) c t v (b, h)).0
  unfolding on_verdict
  on_verdict-Next c t deny b h s = (some _, Sorted-answer d r seen b _ c _ _ s (refl, refl))
  on_verdict-Next c t ask b h s = on_ask-Next c x.control b h s
  on_verdict-Next c t allow b h s = (none, Sorted-defer d r seen b t c s)

  classify_found-Next :
      (ctx : ToolContext) (c : ToolCallReq) (o : Option (LoopTool W)) (b : Batch W) (h : Host W)
      → Sorted d (none ∷ r) seen b
      → Next d r seen c (classify_found x ctx (length d) c o (b, h)).0
  unfolding classify_found
  classify_found-Next ctx c none b h s = (some _, Sorted-answer d r seen b _ c _ _ s (refl, refl))
  classify_found-Next ctx c (some t) b h s = on_verdict-Next c t _ b h s

module _ {W : Type 0} (x : Call W) where
  classify_calls-Sorted :
      (ctx : ToolContext) (d : List (Option Message)) (seen calls : List ToolCallReq)
      (bh : Batch W × Host W)
      → Sorted d (replicate (length calls) none) seen bh.0
      → (d' : List (Option Message)) × Sorted d' []
          (seen ++ calls)
          (classify_calls x ctx (length d) calls bh).0
  unfolding classify_calls
  classify_calls-Sorted ctx d seen [] bh s = (d, rw append-nil s)
  classify_calls-Sorted ctx d seen (c ∷ calls) bh s =
      let found = classify_found x ctx (length d) c (get_tool x.registry c.name) bh in
      let (v, s') =
        classify_found-Next x d (replicate (length calls) none) seen ctx c
          (get_tool x.registry c.name) bh.0 bh.1 s in
      let (d', t) = classify_calls-Sorted ctx (d ++ v ∷ []) (seen ++ c ∷ []) calls found s' in
      (
        d',
        subst₂ (λ l (n : ℕ). Sorted d' [] l (classify_calls x ctx n calls found).0)
            (append_assoc seen (c ∷ []) calls) (omega (arith, length-append d (v ∷ []))) t,
      )

-- One outcome for each item, with a message for its call.
module _ {W : Type 0} where
  abbrev OutcomesAnswer : Items W → List ToolExecOutcome → Type 0
  OutcomesAnswer [] [] = Unit {0}
  OutcomesAnswer ((i, c, t) ∷ items) (o ∷ os) = Answers o.message c × OutcomesAnswer items os
  OutcomesAnswer _ _ = ⊥

-- The filled results after the prefix `p`.
abbrev Filled : List (Option Message) → List ToolCallReq → List (Option Message) → Type 0
Filled p cs rs = (ms : List Message) × (rs ≡ p ++ map some ms) × AnswersAll ms cs

Filled-cons :
    (p : List (Option Message)) (m : Message) (c : ToolCallReq) (cs : List ToolCallReq)
    (rs : List (Option Message))
    → Answers m c
    → Filled (p ++ some m ∷ []) cs rs
    → Filled p (c ∷ cs) rs
Filled-cons p m c cs rs a (ms, e, as') =
    (m ∷ ms, e ∙ append_assoc p (some m ∷ []) (map some ms), (a, as'))

module _ {W : Type 0} where
  fill-Filled :
      (p d : List (Option Message)) (cs : List ToolCallReq) (items : Items W)
      (os : List ToolExecOutcome) (b : Batch W)
      → b.results ≡ p ++ d
      → Covers (length p) d cs items
      → OutcomesAnswer items os
      → Filled p cs (fill items os b).results
  unfolding fill
  fill-Filled p [] [] [] os b e h a = ([], e, tt)
  fill-Filled p [] [] (item ∷ items) os b e h a = cc
  fill-Filled p (some m ∷ d) (c ∷ cs) items os b e h a = Filled-cons p m c cs _ h.0 (
      fill-Filled (p ++ some m ∷ []) d cs items os b (e ∙ move_over p (some m) d)
        (subst (λ (n : ℕ). Covers n d cs items) (omega (arith, length-append p (some m ∷ []))) h.1)
        a)
  fill-Filled p (none ∷ d) (c ∷ cs) [] os b e (t, rest, q, k) a = cc
  fill-Filled p (none ∷ d) (c ∷ cs) ((i, c', t') ∷ items) [] b e (t, rest, q, k) a = absurd a
  fill-Filled p (none ∷ d) (c ∷ cs) ((i, c', t') ∷ items) (o ∷ os) b e (t, rest, q, k) a =
      let at_i : i ≡ length p = cc in
      let is_c : c' ≡ c = cc in
      let is_rest : items ≡ rest = cc in
      Filled-cons p o.message c cs _ (subst (λ y. Answers o.message y) is_c a.0) (
        fill-Filled (p ++ some o.message ∷ []) d cs items os _
          (rw (e, at_i) (set-append p none (some o.message) d))
          (subst₂ (λ (n : ℕ) its. Covers n d cs its)
            (omega (arith, length-append p (some o.message ∷ []))) (sym is_rest) k)
          a.1)
  fill-Filled p [] (c ∷ cs) items os b e h a = absurd h
  fill-Filled p (some m ∷ d) [] items os b e h a = absurd h
  fill-Filled p (none ∷ d) [] items os b e h a = absurd h

all_filled-map : (ms : List Message) → all_filled (map some ms) ≡ some ms
all_filled-map [] = refl
all_filled-map (m ∷ ms) = rw (all_filled-map ms)

mark_role : (v : VerifyVerdict) (m : Message) (c : ToolCallReq) → Answers m c → Answers (mark v m) c
unfolding mark
mark_role v m c a = ground arith

module _ {W : Type 0} (x : Call W) (ctx : ToolContext) where
  -- The executor of the call answers each call by a tool message of its id.
  abbrev pub ExecutorAnswers : Type 0
  ExecutorAnswers =
      (c : ToolCallReq) (t : LoopTool W) (k : ToolContext) (h : Host W)
      → Answers (x.execute_one c t k h).0.message c

  module _ (law : ExecutorAnswers) where
    verified-Answers :
        (c : ToolCallReq) (t : LoopTool W) (o : ToolExecOutcome)
        → Answers o.message c
        → Answers (verified x ctx c t o).message c
    unfolding verified
    verified-Answers c t o a = ground (arith, mark_role (x.verify c t o ctx) o.message c)

    run_items-OutcomesAnswer :
        (items : Items W) (h : Host W) → OutcomesAnswer items (run_items x ctx items h).0
    unfolding run_items run_allow verified
    run_items-OutcomesAnswer [] h = tt
    run_items-OutcomesAnswer ((i, c, t) ∷ items) h =
        (verified-Answers c t _ (law c t ctx h), run_items-OutcomesAnswer items _)

    -- If the executor answers every call that it runs, then every slot of a batch is filled,
    -- and the messages answer the calls one for one and in their order, whatever the gate says
    -- of each: the assertions of the source on empty slots cannot fail.
    pub run_batch-AnswersAll :
        (failures : ℕ) (calls : List ToolCallReq) (h : Host W)
        → (ms : List Message) × (all_filled (run_batch x ctx failures calls h).0.results ≡ some ms)
          × AnswersAll ms calls
    unfolding run_batch
    run_batch-AnswersAll failures calls h =
        let start : Batch W = record {
          results = replicate (length calls) none;
          pending_batch = [];
          allow_items = [];
          failures = failures;
        } in
        let (d, s) =
          classify_calls-Sorted x ctx [] [] calls (start, h)
            (record { slots = refl; covers = refl }) in
        let (b, h') = classify_calls x ctx 0 calls (start, h) in
        let (ms, e, a) =
          fill-Filled [] d calls b.allow_items (run_items x ctx b.allow_items h').0 b
            (s.slots ∙ append-nil d) s.covers (run_items-OutcomesAnswer b.allow_items h') in
        (ms, rw e (all_filled-map ms), a)
