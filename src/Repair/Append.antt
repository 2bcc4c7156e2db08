-- ===== src/Repair/Append.antt =====
-- Repairing a prefix first changes nothing: a conversation that is repaired in every iteration and
-- a log that never is agree once both are repaired.
use park_smart_harness.Base.{
  String, ◌≡◌, refl, ap, ◌∙◌, true, false, List, [], ◌∷◌, ◌++◌, ◌&&◌, arith, Bool-cases, inl, inr,
  sym,
}
use park_smart_harness.Message.{Message, Role, user}
use park_smart_harness.Repair.{
  known_after, is_user, join_contents, drop_orphans, merge_from, merge_users, repair_messages,
}
use park_smart_harness.Repair.Laws.{
  dropped_known, drop_orphans-AllKept, drop_orphans_of_AllKept, merge_from-head,
  merge_users-AllKept, passes, repair_messages-passes,
}

-- The ids that are known after the messages.
abbrev known_at : List String → List Message → List String
known_at known [] = known
known_at known (m ∷ ms) = known_at (known_after m.role m known) ms

abbrev pub kept : List String → List Message → List Message
kept known ms = (drop_orphans known ms).0

abbrev pub merged : List Message → List Message
merged ms = (merge_users ms).0

kept-append :
    (known : List String) (a b : List Message)
    → kept known (a ++ b) ≡ kept known a ++ kept (known_at known a) b
unfolding drop_orphans
kept-append known [] b = refl
kept-append known (m ∷ a) b = ground (arith, kept-append (known_after m.role m known) a b)

known_at-kept :
    (known : List String) (a : List Message) → known_at known (kept known a) ≡ known_at known a
unfolding drop_orphans
known_at-kept known [] = refl
known_at-kept known (m ∷ a) =
    ground (arith, dropped_known m.role m known, known_at-kept (known_after m.role m known) a)

joined_after :
    (r q : Role) (m prev joined : Message) (known : List String)
    → (is_user q && is_user r) ≡ true
    → known_after r joined known ≡ known_after q m (known_after r prev known)
joined_after user user m prev joined known e = refl
joined_after user _ m prev joined known e = cc
joined_after _ user m prev joined known e = cc
joined_after _ _ m prev joined known e = cc

known_at-merge_from :
    (known : List String) (prev : Message) (a : List Message)
    → known_at known (merge_from prev a).0 ≡ known_at known (prev ∷ a)
unfolding merge_from
known_at-merge_from known prev [] = refl
known_at-merge_from known prev (m ∷ a) = elim (Bool-cases (is_user m.role && is_user prev.role)) [
  | inl e ↦ rw e (
      known_at-merge_from known (record prev { content = join_contents prev.content m.content }) a
      ∙ ap (λ k. known_at k a) (joined_after prev.role m.role m prev _ known e))
  | inr e ↦ rw e (known_at-merge_from (known_after prev.role prev known) m a)
]

known_at-merged : (a : List Message) → known_at [] (merged a) ≡ known_at [] a
unfolding merge_users
known_at-merged [] = refl
known_at-merged (m ∷ a) = known_at-merge_from [] m a

-- Where the head of the list is no second user message, merging leaves `prev` alone.
merge_from-past :
    (prev m h : Message) (t l c : List Message)
    → l ≡ h ∷ t
    → h.role ≡ m.role
    → (is_user m.role && is_user prev.role) ≡ false
    → (merge_from prev (l ++ c)).0 ≡ prev ∷ merged (l ++ c)
unfolding merge_from merge_users
merge_from-past prev m h t l c e r n = ground arith

merged-merge_from :
    (prev : Message) (a c : List Message)
    → merged ((merge_from prev a).0 ++ c) ≡ (merge_from prev (a ++ c)).0
unfolding merge_from merge_users
merged-merge_from prev [] c = refl
merged-merge_from prev (m ∷ a) c = elim (Bool-cases (is_user m.role && is_user prev.role)) [
  | inl e ↦
      rw e (merged-merge_from (record prev { content = join_contents prev.content m.content }) a c)
  | inr e ↦
      let (h, t, q, r) = merge_from-head m a in
      rw e (
        merge_from-past prev m h t (merge_from m a).0 c q r e
        ∙ ap (λ l. prev ∷ l) (merged-merge_from m a c))
]

merged-append : (a c : List Message) → merged (merged a ++ c) ≡ merged (a ++ c)
unfolding merge_users
merged-append [] c = refl
merged-append (m ∷ a) c = merged-merge_from m a c

passes-append : (a b : List Message) → (passes ((passes a).0 ++ b)).0 ≡ (passes (a ++ b)).0
passes-append a b =
    let first = merged (kept [] a) in
    ap merged (kept-append [] first b)
    ∙ ap (λ l. merged (l ++ kept (known_at [] first) b))
        (ap (λ p. p.0)
          (drop_orphans_of_AllKept [] first (merge_users-AllKept _ (drop_orphans-AllKept [] a))))
    ∙ ap (λ k. merged (first ++ kept k b)) (known_at-merged (kept [] a) ∙ known_at-kept [] a)
    ∙ merged-append (kept [] a) (kept (known_at [] a) b)
    ∙ ap merged (sym (kept-append [] a b))

-- Repairing a prefix first does not change the repaired whole.
pub repair_messages-append :
    (a b : List Message)
    → (repair_messages ((repair_messages a).0 ++ b)).0 ≡ (repair_messages (a ++ b)).0
repair_messages-append a b =
    rw
      (
        repair_messages-passes a,
        repair_messages-passes (a ++ b),
        repair_messages-passes ((passes a).0 ++ b),
      )
      (passes-append a b)
