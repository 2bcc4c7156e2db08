-- ===== src/Store/Laws.antt =====
-- The in-memory store is a log with boundaries for each thread, and threads do not meet.
use park_smart_harness.Base.{
  String, ◌≡◌, ◌≢◌, refl, sym, ap, ◌∙◌, Option, none, some, List, [], ◌∷◌, ◌++◌, last?, arith,
  subst, inl, inr, Bool-cases, eq_iff, eq_refl, ◌==◌, if◌then◌else◌,
}
use park_smart_harness.Base.Assoc.{lookup, insert, lookup-insert}
use park_smart_harness.Message.{Message}
use park_smart_harness.Plan.{derive_plan}
use park_smart_harness.Tools.{Boundary, Conversation}
use park_smart_harness.Store.{
  ThreadState, Threads, get_or_create, or_new, load, commit, commit_thread, latest_boundary,
  Resolved, replace_placeholders, resolve_thread, resolve_pending, append_uncommitted,
  conversation_of,
}

-- What is durable of a thread.
abbrev pub log : String → Threads → List Message
log id ts = (get_or_create ts id).committed_messages

abbrev pub boundaries : String → Threads → List Boundary
boundaries id ts = (get_or_create ts id).boundaries

get_or_create-insert :
    (id other : String) (t : ThreadState) (ts : Threads)
    → get_or_create (insert id t ts) other ≡ (if other == id then t else get_or_create ts other)
unfolding get_or_create
get_or_create-insert id other t ts = ground (arith, lookup-insert id t ts other)

here : (id : String) (t : ThreadState) (ts : Threads) → get_or_create (insert id t ts) id ≡ t
here id t ts = ground (arith, get_or_create-insert id id t ts, eq_refl id)

elsewhere :
    (id other : String) (t : ThreadState) (ts : Threads)
    → other ≢ id
    → get_or_create (insert id t ts) other ≡ get_or_create ts other
elsewhere id other t ts n = ground (arith, get_or_create-insert id other t ts, eq_iff other id)

-- A thread keeps what is durable of it.
abbrev pub Same : String → Threads → Threads → Type 0
Same id ts us = (log id us ≡ log id ts) × (boundaries id us ≡ boundaries id ts)

-- `commit` appends the messages and the boundary of one thread, `resolve_pending` replaces the
-- placeholders of one thread and appends the boundary, and both keep every other thread.
pub commit_lem :
    (id : String) (ms : List Message) (b : Boundary) (ts : Threads)
    → (log id (commit id ms b ts) ≡ log id ts ++ ms)
      × (boundaries id (commit id ms b ts) ≡ boundaries id ts ++ b ∷ [])
      × ((other : String) → other ≢ id → Same other ts (commit id ms b ts))
unfolding commit commit_thread
commit_lem id ms b ts = (
  ap (λ t. t.committed_messages) (here id _ ts),
  ap (λ t. t.boundaries) (here id _ ts),
  λ other n. (
    ap (λ t. t.committed_messages) (elsewhere id other _ ts n),
    ap (λ t. t.boundaries) (elsewhere id other _ ts n),
  ),
)

pub resolve_pending_lem :
    (id : String) (r : Resolved) (b : Boundary) (ts : Threads)
    → (log id (resolve_pending id r b ts) ≡ replace_placeholders r (log id ts))
      × (boundaries id (resolve_pending id r b ts) ≡ boundaries id ts ++ b ∷ [])
      × ((other : String) → other ≢ id → Same other ts (resolve_pending id r b ts))
unfolding resolve_pending resolve_thread
resolve_pending_lem id r b ts = (
  ap (λ t. t.committed_messages) (here id _ ts),
  ap (λ t. t.boundaries) (here id _ ts),
  λ other n. (
    ap (λ t. t.committed_messages) (elsewhere id other _ ts n),
    ap (λ t. t.boundaries) (elsewhere id other _ ts n),
  ),
)

-- A torn tail changes nothing durable, of any thread.
append_uncommitted_lem :
    (id : String) (ms : List Message) (ts : Threads) (other : String)
    → Same other ts (append_uncommitted id ms ts)
unfolding append_uncommitted
append_uncommitted_lem id ms ts other = elim (Bool-cases (other == id)) [
  | inl q ↦
      subst (λ k. Same k ts (append_uncommitted id ms ts)) (sym ((eq_iff other id).0 q))
        (ap (λ t. t.committed_messages) (here id _ ts), ap (λ t. t.boundaries) (here id _ ts))
  | inr q ↦
      let n : other ≢ id = ground (arith, eq_iff other id) in
      (
        ap (λ t. t.committed_messages) (elsewhere id other _ ts n),
        ap (λ t. t.boundaries) (elsewhere id other _ ts n),
      )
]

-- A new thread has nothing.
pub latest_boundary_lem :
    (id : String) (ts : Threads) → latest_boundary ts id ≡ last? (boundaries id ts)
unfolding latest_boundary get_or_create
latest_boundary_lem id ts = go (lookup id ts)
  where
    go :
        (o : Option ThreadState)
        → (elim o as (λ o. Option Boundary) [ none ↦ none | some t ↦ last? t.boundaries ])
          ≡ last? (or_new o).boundaries
    go none = refl
    go (some t) = refl

-- The conversation that the log gives, if its plan can be derived.
abbrev pub loaded : String → List Message → Option Conversation
loaded id ms = conversation_of id ms (derive_plan ms)

pub load_lem : (id : String) (ts : Threads) → load ts id ≡ loaded id (log id ts)
unfolding load get_or_create derive_plan
load_lem id ts = go id (lookup id ts)
  where
    go :
        (id : String) (o : Option ThreadState)
        → (elim o as (λ o. Option Conversation) [
          | none ↦ some (record { thread_id = id; messages = []; plan = []; principal = none })
          | some t ↦ conversation_of id t.committed_messages (derive_plan t.committed_messages)
        ])
          ≡ loaded id (or_new o).committed_messages
    go id none = refl
    go id (some t) = refl

last?-snoc : (bs : List Boundary) (b : Boundary) → last? (bs ++ b ∷ []) ≡ some b
last?-snoc [] b = refl
last?-snoc (c ∷ []) b = refl
last?-snoc (c ∷ d ∷ bs) b = last?-snoc (d ∷ bs) b

module _ (id : String) (before after ms : List Message) (b : Boundary) (ts : Threads) where
  -- The threads after a torn write, a commit, and another torn write.
  abbrev pub torn_commit : Threads
  torn_commit = append_uncommitted id after (commit id ms b (append_uncommitted id before ts))

  -- A commit is durable whatever was written without a boundary before it and after it: `load`
  -- gives the messages committed so far and the new ones, `latest_boundary` the new boundary, and
  -- every other thread loads as it did.
  pub commit_is_durable :
      (load torn_commit id ≡ loaded id (log id ts ++ ms))
      × (latest_boundary torn_commit id ≡ some b)
      × ((other : String)
          → other ≢ id
          → (load torn_commit other ≡ load ts other)
            × (latest_boundary torn_commit other ≡ latest_boundary ts other))
  commit_is_durable =
      let first = append_uncommitted id before ts in
      let second = commit id ms b first in
      let c = commit_lem id ms b first in
      let same_first = append_uncommitted_lem id before ts in
      let same_last = append_uncommitted_lem id after second in
      (
        load_lem id torn_commit
            ∙ ap (loaded id) ((same_last id).0 ∙ c.0 ∙ ap (λ l. l ++ ms) (same_first id).0),
        latest_boundary_lem id torn_commit
            ∙ ap last? ((same_last id).1 ∙ c.1)
            ∙ last?-snoc (boundaries id first) b,
        λ other n.
            let d = c.2 other n in
            (
              load_lem other torn_commit
                  ∙ ap (loaded other) ((same_last other).0 ∙ d.0 ∙ (same_first other).0)
                  ∙ sym (load_lem other ts),
              latest_boundary_lem other torn_commit
                  ∙ ap last? ((same_last other).1 ∙ d.1 ∙ (same_first other).1)
                  ∙ sym (latest_boundary_lem other ts),
            ),
      )
