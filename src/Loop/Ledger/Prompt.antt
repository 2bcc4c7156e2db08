-- ===== src/Loop/Ledger/Prompt.antt =====
-- The first half of an iteration keeps the numbering, and conversation and log in step.
use park_smart_harness.Base.{
  ℕ, zero, suc, ◌≡◌, refl, sym, ap, ◌∙◌, Bool, true, Option, none, some, List, [], length,
  Bool-cases, inl, inr,
}
use mathlib.Core.List.{append-nil}
use park_smart_harness.Exec.{Exc, ok, raised, Exec, ◌>>=◌, ◌>>◌, pure}
use park_smart_harness.Exec.Triple.{
  Triple, Triple-bind, Triple-if, Triple-pure, Triple-weaken, Post,
}
use park_smart_harness.Message.{Message}
use park_smart_harness.Repair.{repair_messages}
use park_smart_harness.Repair.Append.{repair_messages-append}
use park_smart_harness.Budget.{use_grace}
use park_smart_harness.Tools.{Host, iteration, schemas}
use park_smart_harness.Loop.{ModelTurn, Call, Compactor, Machine, LoopResult, on_host, modify}
use park_smart_harness.Loop.Prompt.{
  Entry, stop, go, Assembly, thrashed, ready, repaired, check_entry, assembled, absorb_compaction,
  compact_loop, assemble_prompt, call_model_with_retry, compact_thrash_limit,
}
use park_smart_harness.Loop.Ledger.{Observer, IsLedger, IsSynced, Quiet, Ends}
use park_smart_harness.Loop.Ledger.Commit.{IsBusy, IsSound, commit_now-IsCommitted}
use park_smart_harness.Loop.Ledger.Turn.{quiet-IsSynced, quiet-IsBusy, extend-IsBusy}

module _ {W A : Type 0} (o : Observer W) where
  Post-quiet :
      (n : ℕ) (s : Machine W) (r : Exc A × Host W)
      → IsSynced o n s
      → Quiet o s.host.world r.1.world
      → Post (λ a. IsSynced o n) (IsSound o) (r.0, record s { host = r.1 })
  Post-quiet n s (ok a, h) i q = quiet-IsSynced o n s h i q
  Post-quiet n s (raised e, h) i q = record {
    numbered = (n, (quiet-IsSynced o n s h i q).numbered);
  }

  -- An action of a seam that leaves the store alone.
  pub on_host-IsSynced :
      (n : ℕ) (m : Exec (Host W) A)
      → ((h : Host W) → Quiet o h.world (m h).1.world)
      → Triple (IsSynced o n) (on_host m) (λ a. IsSynced o n) (IsSound o)
  unfolding on_host
  on_host-IsSynced n m q = record { at = λ s i. Post-quiet n s (m s.host) i (q s.host) }

module _ {W : Type 0} (o : Observer W) where
  -- At the start of an iteration nothing is pending.
  pub fresh : (n : ℕ) (s : Machine W) → IsSynced o n s → IsBusy o n (length s.messages) [] s
  fresh n s i = record {
    old = s.messages;
    old_length = refl;
    messages = sym (append-nil s.messages);
    idle = record { numbered = i.numbered; synced = i.synced };
  }

  abbrev pub EntryIn : ℕ → Entry → Machine W → Type 0
  EntryIn n (stop r) s = IsSynced o n s × Ends o r s
  EntryIn n (go g) s = IsSynced o n s

  abbrev pub AssemblyIn : Assembly → Machine W → Type 0
  AssemblyIn thrashed s = (n : ℕ) × IsSynced o n s
  AssemblyIn (ready n prompt) s = IsSynced o n s

  module _ (x : Call W) (law : IsLedger o x) where
    repair_twice :
        (ms : List Message) → (repair_messages (repair_messages ms).0).0 ≡ (repair_messages ms).0
    repair_twice ms =
        ap (λ l. (repair_messages l).0) (sym (append-nil (repair_messages ms).0))
        ∙ repair_messages-append ms []
        ∙ ap (λ l. (repair_messages l).0) (append-nil ms)

    pub repaired-IsSynced :
        (n : ℕ) → Triple (IsSynced o n) (repaired x) (λ u. IsSynced o n) (IsSound o)
    unfolding repaired modify
    repaired-IsSynced n = record {
      at = λ s i. record { numbered = i.numbered; synced = repair_twice s.messages ∙ i.synced };
    }

    stops :
        (n : ℕ) (h : Host W) (r : LoopResult)
        → ((s : Machine W) → Ends o r s)
        → Triple (λ s. IsSynced o n s × (s.host ≡ h)) (pure (stop r)) (EntryIn n) (IsSound o)
    stops n h r e = Triple-pure (stop r) (λ s i. (i.0, e s))

    goes :
        (n : ℕ) (h : Host W) (g : Bool)
        → Triple (λ s. IsSynced o n s × (s.host ≡ h)) (pure (go g)) (EntryIn n) (IsSound o)
    goes n h g = Triple-pure (go g) (λ s i. i.0)

    spends_grace :
        (n : ℕ) (h : Host W)
        → Triple
            (λ s. IsSynced o n s × (s.host ≡ h))
            (modify (λ s. record s { host = record h { budget = use_grace h.budget } })
              >> pure (go true))
            (EntryIn n)
            (IsSound o)
    unfolding modify ◌>>=◌
    spends_grace n h = record {
      at = λ s i.
          quiet-IsSynced o n s (record h { budget = use_grace h.budget }) i.0
            (ap (λ k. o.log k.world) (sym i.1), ap (λ k. o.boundaries k.world) (sym i.1));
    }

    pub check_entry-EntryIn :
        (n steps : ℕ) → Triple (IsSynced o n) (check_entry x steps) (EntryIn n) (IsSound o)
    unfolding check_entry
    check_entry-EntryIn n steps =
        Triple-bind {R = λ h s. IsSynced o n s × (s.host ≡ h)} (record { at = λ s i. (i, refl) })
          λ h. search (Triple-if, stops n h, goes n h, spends_grace n h, tt) depth 8

    assembled-IsSynced :
        (n : ℕ) → Triple (IsSynced o n) (assembled x) (λ p. IsSynced o n) (IsSound o)
    unfolding assembled
    assembled-IsSynced n =
        Triple-bind {R = λ c. IsSynced o n} (record { at = λ s i. i })
          λ c. on_host-IsSynced o n (x.assemble x.config c) (law.assembles c)

    absorb_compaction-IsSynced :
        (n : ℕ) (ms : List Message)
        → Triple
            (IsSynced o n)
            (absorb_compaction x (suc n) ms)
            (λ u. IsSynced o (suc n))
            (IsSound o)
    unfolding absorb_compaction modify
    absorb_compaction-IsSynced n ms = record {
      at = λ s i.
          (Triple-bind {R = λ u. IsBusy o n (length s.messages) ms}
              (record { at = λ t b. extend-IsBusy o n (length s.messages) [] ms t b })
              λ u.
                Triple-bind {R = λ u. IsBusy o n (length s.messages) ms}
                  (record {
                    at = λ t b. quiet-IsBusy o n (length s.messages) ms t _ b (refl, refl);
                  })
                  λ u.
                    Triple-weaken
                      (commit_now-IsCommitted o x law n (length s.messages) iteration none ms)
                      (λ t b. b) (λ a t c. c.0) (λ e t c. c)).at
            s (fresh n s i);
    }

    overflows : (n : ℕ) → Triple (IsSynced o n) (pure thrashed) AssemblyIn (IsSound o)
    overflows n = Triple-pure thrashed (λ s i. (n, i))

    fits :
        (n : ℕ) (prompt : List Message)
        → Triple (IsSynced o n) (pure (ready n prompt)) AssemblyIn (IsSound o)
    fits n prompt = Triple-pure (ready n prompt) (λ s i. i)

    on_pair :
        (rest : List Message → Exec (Machine W) Assembly) (n : ℕ) (prompt : List Message)
        (pair : Option (List Message))
        → ((p : List Message) → Triple (IsSynced o (suc n)) (rest p) AssemblyIn (IsSound o))
        → Triple
            (IsSynced o n)
            (elim pair as (λ p. Exec (Machine W) Assembly) [
              | none ↦ pure (ready n prompt)
              | some ms ↦ absorb_compaction x (suc n) ms >> (assembled x >>= rest)
            ])
            AssemblyIn
            (IsSound o)
    on_pair rest n prompt none k = fits n prompt
    on_pair rest n prompt (some ms) k =
        Triple-bind (absorb_compaction-IsSynced n ms)
          λ u. Triple-bind (assembled-IsSynced (suc n)) k

    compact_loop-AssemblyIn :
        (c : Compactor W)
        → x.compaction ≡ some c
        → (left n : ℕ) (prompt : List Message)
        → Triple (IsSynced o n) (compact_loop x c left n prompt) AssemblyIn (IsSound o)
    unfolding compact_loop
    compact_loop-AssemblyIn c e zero n prompt = search (Triple-if, overflows, fits)
    compact_loop-AssemblyIn c e (suc left) n prompt = elim (Bool-cases (c.should_compact prompt)) [
      | inr q ↦ rw q (fits n prompt)
      | inl q ↦ rw q (
          Triple-bind {R = λ conv. IsSynced o n} (record { at = λ s i. i })
            λ conv.
              Triple-bind
                (on_host-IsSynced o n (c.compact conv n x.config) (λ h. law.compacts c conv n h e))
                λ pair.
                  on_pair (compact_loop x c left (suc n)) n prompt pair
                    (compact_loop-AssemblyIn c e left (suc n)))
    ]

    assemble_with :
        (c : Option (Compactor W)) (n : ℕ) (prompt : List Message)
        → x.compaction ≡ c
        → Triple
            (IsSynced o n)
            (elim c as (λ c. Exec (Machine W) Assembly) [
              | none ↦ pure (ready n prompt)
              | some c ↦ compact_loop x c (suc compact_thrash_limit) n prompt
            ])
            AssemblyIn
            (IsSound o)
    assemble_with none n prompt e = fits n prompt
    assemble_with (some c) n prompt e =
        compact_loop-AssemblyIn c e (suc compact_thrash_limit) n prompt

    pub assemble_prompt-AssemblyIn :
        (n : ℕ) → Triple (IsSynced o n) (assemble_prompt x n) AssemblyIn (IsSound o)
    unfolding assemble_prompt
    assemble_prompt-AssemblyIn n =
        Triple-bind (assembled-IsSynced n) λ prompt. assemble_with x.compaction n prompt refl

    last_try :
        (n base : ℕ) (buffer : List Message) (s : Machine W) (r : Exc ModelTurn × Host W)
        → IsBusy o n base buffer s
        → Quiet o s.host.world r.1.world
        → Post
            (λ t. IsBusy o n base buffer)
            (IsSound o)
            (elim r.0 as (λ _. Exc (Option ModelTurn) × Machine W) [
              | ok t ↦ (ok (some t), record s { host = r.1 })
              | raised e ↦ (ok none, record s { host = r.1 })
            ])
    last_try n base buffer s (ok t, h) b q = quiet-IsBusy o n base buffer s h b q
    last_try n base buffer s (raised e, h) b q = quiet-IsBusy o n base buffer s h b q

    next_try :
        (n base : ℕ) (buffer : List Message) (rest : Exec (Machine W) (Option ModelTurn))
        (s : Machine W) (r : Exc ModelTurn × Host W)
        → Triple (IsBusy o n base buffer) rest (λ t. IsBusy o n base buffer) (IsSound o)
        → IsBusy o n base buffer s
        → Quiet o s.host.world r.1.world
        → Post
            (λ t. IsBusy o n base buffer)
            (IsSound o)
            (elim r.0 as (λ _. Exc (Option ModelTurn) × Machine W) [
              | ok t ↦ (ok (some t), record s { host = r.1 })
              | raised e ↦ rest (record s { host = r.1 })
            ])
    next_try n base buffer rest s (ok t, h) k b q = quiet-IsBusy o n base buffer s h b q
    next_try n base buffer rest s (raised e, h) k b q =
        k.at _ (quiet-IsBusy o n base buffer s h b q)

    pub call_model_with_retry-IsBusy :
        (left n base : ℕ) (buffer prompt : List Message)
        → Triple
            (IsBusy o n base buffer)
            (call_model_with_retry x left prompt)
            (λ t. IsBusy o n base buffer)
            (IsSound o)
    unfolding call_model_with_retry on_host
    call_model_with_retry-IsBusy zero n base buffer prompt = record {
      at = λ s b.
          last_try n base buffer s _ b
            (law.asks prompt (schemas x.registry x.config.toolset) s.host);
    }
    call_model_with_retry-IsBusy (suc left) n base buffer prompt = record {
      at = λ s b.
          next_try n base buffer (call_model_with_retry x left prompt) s _
            (call_model_with_retry-IsBusy left n base buffer prompt) b
            (law.asks prompt (schemas x.registry x.config.toolset) s.host);
    }
