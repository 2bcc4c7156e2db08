-- ===== src/Repair/Laws.antt =====
-- `repair_messages` yields a legal sequence, leaves a legal one alone and loses no user's words.
use park_smart_harness.Base.{
  ℕ, zero, suc, ◌+◌, String, ◌≡◌, refl, ap, ◌∙◌, subst, ◌↔◌, true, false, List, [], ◌∷◌, ◌&&◌,
  arith, length, Bool-cases, inl, inr,
}
use park_smart_harness.Message.{Message, Role, system, user, assistant, tool, other}
use park_smart_harness.Repair.{
  known_after, is_kept, is_user, rewrite_if, join_contents, drop_orphans, merge_from, merge_users,
  repair_messages,
}
use park_smart_harness.Repair.Legal.{
  Alternates, IsLegal, AllKept, AllKept-IsPaired, IsPaired-AllKept,
}

pub dropped_known :
    (r : Role) (m : Message) (known : List String)
    → is_kept r m known ≡ false
    → known_after r m known ≡ known
dropped_known tool m known h = refl
dropped_known _ m known h = cc

pub drop_orphans-AllKept :
    (known : List String) (ms : List Message) → AllKept known (drop_orphans known ms).0
unfolding drop_orphans
drop_orphans-AllKept known [] = tt
drop_orphans-AllKept known (m ∷ ms) = elim (Bool-cases (is_kept m.role m known)) [
  | inl e ↦ rw e (e, drop_orphans-AllKept (known_after m.role m known) ms)
  | inr e ↦ rw e (
      subst (λ k. AllKept k (drop_orphans (known_after m.role m known) ms).0)
        (dropped_known m.role m known e) (drop_orphans-AllKept (known_after m.role m known) ms))
]

pub drop_orphans_of_AllKept :
    (known : List String) (ms : List Message) → AllKept known ms → drop_orphans known ms ≡ (ms, 0)
unfolding drop_orphans
drop_orphans_of_AllKept known [] h = refl
drop_orphans_of_AllKept known (m ∷ ms) h =
    ground (arith, drop_orphans_of_AllKept (known_after m.role m known) ms h.1)

count-AllKept :
    (known : List String) (ms : List Message) → (drop_orphans known ms).1 ≡ 0 → AllKept known ms
unfolding drop_orphans
count-AllKept known [] h = tt
count-AllKept known (m ∷ ms) h = ground (arith, count-AllKept (known_after m.role m known) ms)

length-drop_orphans :
    (known : List String) (ms : List Message)
    → length (drop_orphans known ms).0 + (drop_orphans known ms).1 ≡ length ms
unfolding drop_orphans
length-drop_orphans known [] = omega arith
length-drop_orphans known (m ∷ ms) =
    ground (arith, length-drop_orphans (known_after m.role m known) ms)

-- Pass 2 answers with a list whose head speaks for `prev`.
pub merge_from-head :
    (prev : Message) (ms : List Message)
    → (h : Message) × (t : List Message) × ((merge_from prev ms).0 ≡ h ∷ t) × (h.role ≡ prev.role)
unfolding merge_from
merge_from-head prev [] = (prev, [], refl, refl)
merge_from-head prev (m ∷ ms) = elim (Bool-cases (is_user m.role && is_user prev.role)) [
  | inl e ↦
      rw (e) (merge_from-head (record prev { content = join_contents prev.content m.content }) ms)
  | inr e ↦ rw (e) (prev, (merge_from m ms).0, refl, refl)
]

is_user-eq : (r : Role) → is_user r ≡ true → r ≡ user
is_user-eq user h = refl
is_user-eq system h = cc
is_user-eq assistant h = cc
is_user-eq tool h = cc
is_user-eq (other t) h = cc

not_both : (a b : Role) → (is_user b && is_user a) ≡ false → ¬ ((a ≡ user) × (b ≡ user))
not_both a b h p = ground arith

Alternates-cons :
    (prev h : Message) (t l : List Message)
    → l ≡ h ∷ t
    → ¬ ((prev.role ≡ user) × (h.role ≡ user))
    → Alternates l
    → Alternates (prev ∷ l)
Alternates-cons prev h t l e n a = rw e (n, rw e at a)

merge_from-Alternates : (prev : Message) (ms : List Message) → Alternates (merge_from prev ms).0
unfolding merge_from
merge_from-Alternates prev [] = tt
merge_from-Alternates prev (m ∷ ms) = elim (Bool-cases (is_user m.role && is_user prev.role)) [
  | inl e ↦
      rw (e)
        (merge_from-Alternates (record prev { content = join_contents prev.content m.content }) ms)
  | inr e ↦ rw (e) (
      let (h, t, eq, r) = merge_from-head m ms in
      Alternates-cons prev h t (merge_from m ms).0 eq (rw r (not_both prev.role m.role e))
        (merge_from-Alternates m ms))
]

merge_from_of_Alternates :
    (prev : Message) (ms : List Message)
    → Alternates (prev ∷ ms)
    → merge_from prev ms ≡ (prev ∷ ms, 0)
unfolding merge_from
merge_from_of_Alternates prev [] h = refl
merge_from_of_Alternates prev (m ∷ ms) h = ground (arith, merge_from_of_Alternates m ms h.1)

count-Alternates :
    (prev : Message) (ms : List Message) → (merge_from prev ms).1 ≡ 0 → Alternates (prev ∷ ms)
unfolding merge_from
count-Alternates prev [] h = tt
count-Alternates prev (m ∷ ms) h = ground (arith, count-Alternates m ms)

length-merge_from :
    (prev : Message) (ms : List Message)
    → length (merge_from prev ms).0 + (merge_from prev ms).1 ≡ suc (length ms)
unfolding merge_from
length-merge_from prev [] = omega arith
length-merge_from prev (m ∷ ms) = ground (
  arith,
  length-merge_from m ms,
  length-merge_from (record prev { content = join_contents prev.content m.content }) ms,
)

-- A user message leaves nothing open, so merging two of them leaves the rest paired.
joined_known :
    (r q : Role) (m prev joined : Message) (known : List String) (ms : List Message)
    → (is_user q && is_user r) ≡ true
    → AllKept (known_after q m (known_after r prev known)) ms
    → (is_kept r joined known ≡ true) × AllKept (known_after r joined known) ms
joined_known user user m prev joined known ms e h = (refl, h)
joined_known user _ m prev joined known ms e h = cc
joined_known _ user m prev joined known ms e h = cc
joined_known _ _ m prev joined known ms e h = cc

merge_from-AllKept :
    (known : List String) (prev : Message) (ms : List Message)
    → AllKept known (prev ∷ ms)
    → AllKept known (merge_from prev ms).0
unfolding merge_from
merge_from-AllKept known prev [] h = h
merge_from-AllKept known prev (m ∷ ms) h = elim (Bool-cases (is_user m.role && is_user prev.role)) [
  | inl e ↦ rw e (
      merge_from-AllKept known (record prev { content = join_contents prev.content m.content }) ms
        (joined_known prev.role m.role m prev _ known ms e h.1.1))
  | inr e ↦ rw e (h.0, merge_from-AllKept (known_after prev.role prev known) m ms h.1)
]

merge_users_of_count : (ms : List Message) → (merge_users ms).1 ≡ 0 → Alternates ms
unfolding merge_users
merge_users_of_count [] h = tt
merge_users_of_count (m ∷ ms) h = count-Alternates m ms h

merge_users_of_Alternates : (ms : List Message) → Alternates ms → merge_users ms ≡ (ms, 0)
unfolding merge_users
merge_users_of_Alternates [] h = refl
merge_users_of_Alternates (m ∷ ms) h = merge_from_of_Alternates m ms h

merge_users-Alternates : (ms : List Message) → Alternates (merge_users ms).0
unfolding merge_users
merge_users-Alternates [] = tt
merge_users-Alternates (m ∷ ms) = merge_from-Alternates m ms

pub merge_users-AllKept : (ms : List Message) → AllKept [] ms → AllKept [] (merge_users ms).0
unfolding merge_users
merge_users-AllKept [] h = tt
merge_users-AllKept (m ∷ ms) h = merge_from-AllKept [] m ms h

length-merge_users :
    (ms : List Message) → length (merge_users ms).0 + (merge_users ms).1 ≡ length ms
unfolding merge_users
length-merge_users [] = omega arith
length-merge_users (m ∷ ms) = length-merge_from m ms

abbrev pub passes : List Message → List Message × ℕ
passes ms =
    let filtered = drop_orphans [] ms in
    let merged = merge_users filtered.0 in (merged.0, filtered.1 + merged.1)

passes_of_IsLegal : (ms : List Message) → AllKept [] ms → Alternates ms → passes ms ≡ (ms, 0)
passes_of_IsLegal ms k a =
    rw (drop_orphans_of_AllKept [] ms k, merge_users_of_Alternates ms a) (ground arith)

rewritten :
    (n : ℕ) (ms merged : List Message)
    → (n ≡ 0 → merged ≡ ms)
    → rewrite_if n ms merged ≡ (merged, n)
rewritten zero ms merged h = rw (h refl)
rewritten (suc k) ms merged h = refl

-- The list is rewritten only after a repair; without one both passes return it as it was.
pub repair_messages-passes : (ms : List Message) → repair_messages ms ≡ passes ms
unfolding repair_messages
repair_messages-passes ms = rewritten (passes ms).1 ms (passes ms).0 λ none_left.
    ap (λ p. p.0)
      (passes_of_IsLegal ms (count-AllKept [] ms (omega arith)) (
        let k = drop_orphans_of_AllKept [] ms (count-AllKept [] ms (omega arith)) in
        merge_users_of_count ms
          (subst (λ (l : List Message). (merge_users l).1 ≡ 0) (ap (λ p. p.0) k) (omega arith))))

-- The repaired sequence is legal: every tool message answers an open call of the assistant
-- message before it, and no user message follows a user message directly.
pub repair_messages-IsLegal : (ms : List Message) → IsLegal (repair_messages ms).0
repair_messages-IsLegal ms = rw (repair_messages-passes ms) (record {
  paired = AllKept-IsPaired [] _ (merge_users-AllKept _ (drop_orphans-AllKept [] ms));
  alternates = merge_users-Alternates (drop_orphans [] ms).0;
})

-- A sequence is left alone, with no repair counted, exactly if it is legal.
pub repair_messages-eq-self_iff : (ms : List Message) → (repair_messages ms ≡ (ms, 0)) ↔ IsLegal ms
repair_messages-eq-self_iff ms = (
  λ e. subst (λ (p : List Message × ℕ). IsLegal p.0) e (repair_messages-IsLegal ms),
  λ l.
      repair_messages-passes ms
      ∙ passes_of_IsLegal ms (IsPaired-AllKept [] ms l.paired) l.alternates,
)

-- Every repair takes exactly one message away: the dropped and merged messages are counted.
pub length-repair_messages :
    (ms : List Message) → length (repair_messages ms).0 + (repair_messages ms).1 ≡ length ms
length-repair_messages ms =
    rw (repair_messages-passes ms)
      (omega (arith, length-drop_orphans [] ms, length-merge_users (drop_orphans [] ms).0))
