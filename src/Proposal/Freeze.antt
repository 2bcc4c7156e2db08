-- ===== src/Proposal/Freeze.antt =====
-- What is frozen is a proposal of the session, with its own action and parameters.
use mathlib.Core.Option.{some-injective}
use park_smart_harness.Base.{
  String, ◌≡◌, ◌≢◌, refl, sym, ap, ◌∙◌, ◌⊎◌, inl, inr, ◌==◌, false, Option, none, some, [], ◌∷◌,
  nonempty, arith, eq_iff, Bool-cases, if◌then◌else◌,
}
use park_smart_harness.Base.Assoc.{lookup}
use park_smart_harness.Message.{ToolCallReq, PendingAction}
use park_smart_harness.Proposal.{ControlProposal, Proposals, find, latest_for, latest_of}
use park_smart_harness.Proposal.Backend.{arg_text}
use park_smart_harness.Proposal.Capability.{
  Wiring, invalid, own, named, with_handle, or_latest, chosen, frozen, freeze,
}

-- The store has the proposal under the handle.
abbrev pub Holds : String → ControlProposal → Proposals → Type 0
Holds h p [] = ⊥
Holds h p (e ∷ s) = (e ≡ (h, p)) ⊎ Holds h p s

-- A proposal that a session may execute: its own, or one that no session owns.
abbrev pub IsOpenTo : String → ControlProposal → Type 0
IsOpenTo thread_id p = (p.thread_id ≡ thread_id) ⊎ (p.thread_id ≡ "")

find-Holds : (h : String) (p : ControlProposal) (s : Proposals) → find s h ≡ some p → Holds h p s
unfolding find lookup
find-Holds h p [] e = cc
find-Holds h p ((k, q) ∷ s) e = elim (Bool-cases (h == k)) [
  | inl b ↦ inl (ground (arith, eq_iff h k))
  | inr b ↦ inr (find-Holds h p s (rw b at e))
]

-- What the latest of a session is: one of it, or there is none.
abbrev IsLatest : String → Proposals → Option (String × ControlProposal) → Type 0
IsLatest t s none = (h : String) (p : ControlProposal) → Holds h p s → p.thread_id ≢ t
IsLatest t s (some e) = Holds e.0 e.1 s × (e.1.thread_id ≡ t)

latest_of-IsLatest :
    (t : String) (e : String × ControlProposal) (s : Proposals)
    (o : Option (String × ControlProposal))
    → IsLatest t s o
    → IsLatest t (e ∷ s) (latest_of t e o)
latest_of-IsLatest t e s (some l) i = (inr i.0, i.1)
latest_of-IsLatest t e s none i = elim (Bool-cases (e.1.thread_id == t)) [
  | inl b ↦ rw b (inl refl, (eq_iff e.1.thread_id t).0 b)
  | inr b ↦ rw b (λ h p m. elim m [
    | inl q ↦ λ same. ground (arith, eq_iff e.1.thread_id t, ap (λ k. k.1.thread_id) q)
    | inr m ↦ i h p m
  ])
]

latest_for-IsLatest : (t : String) (s : Proposals) → IsLatest t s (latest_for t s)
unfolding latest_for
latest_for-IsLatest t [] = λ h p m. absurd m
latest_for-IsLatest t (e ∷ s) = latest_of-IsLatest t e s (latest_for t s) (latest_for-IsLatest t s)

-- What `chosen` gives.
abbrev IsChoice : String → Proposals → Option (String × ControlProposal) → Type 0
IsChoice t s none = (h : String) (p : ControlProposal) → Holds h p s → p.thread_id ≢ t
IsChoice t s (some e) = Holds e.0 e.1 s × IsOpenTo t e.1

empty_eq : (s : String) → nonempty s ≡ false → s ≡ ""
empty_eq String.[] h = refl
empty_eq (String.◌∷◌ c s) h = cc

own-IsOpenTo :
    (t : String) (o : Option ControlProposal) (p : ControlProposal)
    → own t o ≡ some p
    → (o ≡ some p) × IsOpenTo t p
own-IsOpenTo t none p e = cc
own-IsOpenTo t (some q) p e = elim (Bool-cases (nonempty q.thread_id)) [
  | inr n ↦
      let same : q ≡ p = some-injective _ _ (rw n at e) in
      (ap some same, inr (ap (λ k. k.thread_id) (sym same) ∙ empty_eq q.thread_id n))
  | inl n ↦ elim (Bool-cases (q.thread_id == t)) [
    | inl b ↦
        let same : q ≡ p = some-injective _ _ (rw (n, b) at e) in
        (ap some same, inl (ap (λ k. k.thread_id) (sym same) ∙ (eq_iff q.thread_id t).0 b))
    | inr b ↦ let no : none ≡ some p = rw (n, b) at e in cc
  ]
]

named-Holds :
    (t h : String) (p : ControlProposal) (s : Proposals)
    → named t h s ≡ some p
    → Holds h p s × IsOpenTo t p
named-Holds t h p s e =
    let (f, o) = own-IsOpenTo t (if nonempty h then find s h else none) p e in
    elim (Bool-cases (nonempty h)) [
      | inl b ↦ (find-Holds h p s (rw b at f), o)
      | inr b ↦ let no : none ≡ some p = rw b at f in cc
    ]

latest-IsChoice :
    (t : String) (s : Proposals) (o : Option (String × ControlProposal))
    → IsLatest t s o
    → IsChoice t s o
latest-IsChoice t s none i = i
latest-IsChoice t s (some e) i = (i.0, inl i.1)

chosen-IsChoice : (t h : String) (s : Proposals) → IsChoice t s (chosen t h s)
unfolding chosen
chosen-IsChoice t h s = by_name (named t h s) (λ p. named-Holds t h p s)
  where
    by_name :
        (o : Option ControlProposal)
        → ((p : ControlProposal) → o ≡ some p → Holds h p s × IsOpenTo t p)
        → IsChoice t s (or_latest (with_handle h o) (latest_for t s))
    by_name none k = latest-IsChoice t s (latest_for t s) (latest_for-IsLatest t s)
    by_name (some p) k = k p refl

module _ {B : Type 0} (w : Wiring B) (fresh : String) (call : ToolCallReq) (t : String)
    (s : Proposals) where
  -- The action is the proposal's own.
  abbrev Carries : PendingAction → String → ControlProposal → Type 0
  Carries a h p =
      (a.tool_call_id ≡ call.id)
      × (a.handle ≡ some h)
      × (a.action_name ≡ p.action)
      × (a.action_arguments ≡ p.params)
      × (a.idem_key ≡ w.idem_key h p.action p.params)

  abbrev pub IsOwn : PendingAction → Type 0
  IsOwn a =
      ((h : String) × (p : ControlProposal) × Holds h p s × IsOpenTo t p × Carries a h p)
      ⊎ ((a.action_name ≡ invalid)
          × ((h : String) (p : ControlProposal) → Holds h p s → p.thread_id ≢ t))

  frozen-IsOwn :
      (handle : String) (o : Option (String × ControlProposal))
      → IsChoice t s o
      → IsOwn (frozen w fresh call handle o)
  frozen-IsOwn handle none i = inr (refl, i)
  frozen-IsOwn handle (some e) i = inl (e.0, e.1, i.0, i.1, (refl, refl, refl, refl, refl))

  -- Whatever handle the model writes, `freeze` takes action, parameters and ledger key from a
  -- stored proposal that is the session's own or no session's, and never from the call; it falls
  -- back to the sentinel only if the session has no proposal.
  pub freeze-IsOwn : IsOwn (freeze w fresh call t s)
  unfolding freeze
  freeze-IsOwn = frozen-IsOwn _ _ (chosen-IsChoice t (arg_text w.printer "handle" call.arguments) s)
