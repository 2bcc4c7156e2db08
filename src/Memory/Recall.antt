-- ===== src/Memory/Recall.antt =====
-- What a recall may bring back: the user's own entries that are alive, none after they are forgotten.
use park_smart_harness.Base.{
  ℕ, zero, suc, ◌≡◌, refl, ap, String, Bool, true, some, List, [], ◌∷◌, All, arith, not, leb,
  filter, take, Bool-cases, inl, inr,
}
use park_smart_harness.Tools.{Principal}
use park_smart_harness.Memory.{
  MemoryEntry, is_active, insert_newest, newest_first, Query, Entries, values, belongs, matches,
  search_entries, forget_user, tenant_of, other_thread, is_anonymous, query_of, recall,
}

module _ (P : MemoryEntry → Type 0) where
  insert_newest-All :
      (e : MemoryEntry) (es : List MemoryEntry) → P e → All P es → All P (insert_newest e es)
  unfolding insert_newest
  insert_newest-All e [] p h = (p, tt)
  insert_newest-All e (f ∷ fs) p h = elim (Bool-cases (leb f.created_at e.created_at)) [
    | inl q ↦ rw q (p, h)
    | inr q ↦ rw q (h.0, insert_newest-All e fs p h.1)
  ]

  newest_first-All : (es : List MemoryEntry) → All P es → All P (newest_first es)
  unfolding newest_first
  newest_first-All [] h = tt
  newest_first-All (e ∷ es) h = insert_newest-All e (newest_first es) h.0 (newest_first-All es h.1)

  take-All : (n : ℕ) (es : List MemoryEntry) → All P es → All P (take n es)
  take-All zero es h = tt
  take-All (suc n) [] h = tt
  take-All (suc n) (e ∷ es) h = (h.0, take-All n es h.1)

  filter-All : (p : MemoryEntry → Bool) (es : List MemoryEntry) → All P es → All P (filter p es)
  filter-All p [] h = tt
  filter-All p (e ∷ es) h = elim (Bool-cases (p e)) [
    | inl q ↦ rw q (h.0, filter-All p es h.1)
    | inr q ↦ rw q (filter-All p es h.1)
  ]

filter-Passes :
    (p : MemoryEntry → Bool) (es : List MemoryEntry) → All (λ e. p e ≡ true) (filter p es)
filter-Passes p [] = tt
filter-Passes p (e ∷ es) = elim (Bool-cases (p e)) [
  | inl q ↦ rw q (q, filter-Passes p es)
  | inr q ↦ rw q (filter-Passes p es)
]

All-weaken :
    (P Q : MemoryEntry → Type 0) (es : List MemoryEntry)
    → ((e : MemoryEntry) → P e → Q e)
    → All P es
    → All Q es
All-weaken P Q [] f h = tt
All-weaken P Q (e ∷ es) f h = (f e h.0, All-weaken P Q es f h.1)

All-three :
    (P Q R : MemoryEntry → Type 0) (es : List MemoryEntry)
    → All P es
    → All Q es
    → All R es
    → All (λ e. P e × Q e × R e) es
All-three P Q R [] h k l = tt
All-three P Q R (e ∷ es) h k l = ((h.0, k.0, l.0), All-three P Q R es h.1 k.1 l.1)

-- `forget_user` deletes the entries of the user and no others.
forget_user_lem :
    (tenant user : String) (es : Entries)
    → values (forget_user tenant user es).0 ≡ filter (λ e. not (belongs tenant user e)) (values es)
unfolding forget_user
forget_user_lem tenant user [] = refl
forget_user_lem tenant user ((k, e) ∷ es) = elim (Bool-cases (belongs tenant user e)) [
  | inl q ↦ rw q (forget_user_lem tenant user es)
  | inr q ↦ rw q (ap (◌∷◌ e) (forget_user_lem tenant user es))
]

module _ (lower : String → String) (now : ℕ) where
  nothing_left :
      (q : Query) (es : List MemoryEntry)
      → filter (matches lower now q) (filter (λ e. not (belongs q.tenant_id q.user_id e)) es) ≡ []
  nothing_left q [] = refl
  nothing_left q (e ∷ es) = elim (Bool-cases (belongs q.tenant_id q.user_id e)) [
    | inl h ↦ rw h (nothing_left q es)
    | inr h ↦ rw (h, h) (nothing_left q es)
  ]

  forgotten :
      (q : Query) (es : Entries)
      → search_entries lower now q (forget_user q.tenant_id q.user_id es).0 ≡ []
  unfolding search_entries newest_first
  forgotten q es =
      rw (forget_user_lem q.tenant_id q.user_id es, nothing_left q (values es)) (take_none q.top_k)
    where
      take_none : (n : ℕ) → ◌≡◌ {A = List MemoryEntry} (take n []) []
      take_none zero = refl
      take_none (suc n) = refl

  search-IsOwn :
      (q : Query) (es : Entries)
      → All (λ e. belongs q.tenant_id q.user_id e ≡ true) (search_entries lower now q es)
  unfolding search_entries
  search-IsOwn q es =
      let own : MemoryEntry → Type 0 = λ e. belongs q.tenant_id q.user_id e ≡ true in
      let found = filter (matches lower now q) (values es) in
      take-All own q.top_k (newest_first found) (
        newest_first-All own found (
          All-weaken (λ e. matches lower now q e ≡ true) own found (λ e h. ground (arith, h))
            (filter-Passes (matches lower now q) (values es))))

  -- A recall from the store in memory brings back only entries of the user's own tenant and id, that
  -- are neither deleted nor expired and not of the thread that asks; a user without an id or an
  -- anonymous one gets none, and so does everyone once their entries are forgotten.
  pub recall_is_isolated :
      (es : Entries) (top_k later : ℕ) (p : Principal) (q thread : String)
      → All
          (λ e.
            (belongs (tenant_of p) p.id e ≡ true)
            × (is_active later e ≡ true)
            × (other_thread thread e ≡ true))
          (recall lower (λ u. search_entries lower now u es) later top_k (some p) q thread)
        × (recall lower
              (λ u. search_entries lower now u (forget_user (tenant_of p) p.id es).0)
              later
              top_k
              (some p)
              q
              thread
            ≡ [])
        × (is_anonymous lower (λ u. search_entries lower now u es) p ≡ true
            → recall lower (λ u. search_entries lower now u es) later top_k (some p) q thread ≡ [])
  unfolding recall newest_first
  recall_is_isolated es top_k later p q thread =
      let u = query_of lower (λ u. search_entries lower now u es) top_k p q in
      let own : MemoryEntry → Type 0 = λ e. belongs (tenant_of p) p.id e ≡ true in
      let alive : MemoryEntry → Type 0 = λ e. is_active later e ≡ true in
      let elsewhere : MemoryEntry → Type 0 = λ e. other_thread thread e ≡ true in
      let found = search_entries lower now u es in
      let active = filter (is_active later) found in
      let good =
        All-three own alive elsewhere (filter (other_thread thread) active)
          (filter-All own (other_thread thread) active
            (filter-All own (is_active later) found (search-IsOwn u es)))
          (filter-All alive (other_thread thread) active (filter-Passes (is_active later) found))
          (filter-Passes (other_thread thread) active) in
      let none = forgotten u es in
      (
        elim (Bool-cases (is_anonymous lower (λ u. search_entries lower now u es) p)) [
          | inl a ↦ rw a tt
          | inr a ↦ rw a (
              newest_first-All (λ e. own e × alive e × elsewhere e)
                (filter (other_thread thread) active) good)
        ],
        elim (Bool-cases (is_anonymous lower (λ u. search_entries lower now u es) p)) [
          | inl a ↦ rw a refl
          | inr a ↦ rw (a, none) refl
        ],
        λ a. rw a refl,
      )
