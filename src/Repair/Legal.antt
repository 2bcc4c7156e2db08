-- ===== src/Repair/Legal.antt =====
-- What a legal message sequence is, described without the repair's rolling set of ids.
use park_smart_harness.Base.{
  String, Option, none, ◌≡◌, ◌≢◌, refl, true, some, List, [], ◌∷◌, any, ◌==◌, arith, eq_iff,
  Bool-cases, ◌⊎◌, inl, inr,
}
use park_smart_harness.Message.{Message, ToolCallReq, Role, system, user, assistant, tool, other}
use park_smart_harness.Repair.{is_known, ids_of, known_after, is_kept}

pub data Makes (i : String) : List ToolCallReq → Type 0 where
  this : {c : ToolCallReq} {cs : List ToolCallReq} → c.id ≡ i → Makes i (c ∷ cs)
  later : {c : ToolCallReq} {cs : List ToolCallReq} → Makes i cs → Makes i (c ∷ cs)

-- The call `i` is open after the messages, newest first: an assistant made it, and since then no
-- assistant and no user has spoken.
pub data Opens (i : String) : List Message → Type 0 where
  made :
      {m : Message} {before : List Message}
      → m.role ≡ assistant
      → Makes i m.tool_calls
      → Opens i (m ∷ before)
  since :
      {m : Message} {before : List Message}
      → m.role ≢ assistant
      → m.role ≢ user
      → Opens i before
      → Opens i (m ∷ before)

-- A tool message names a call that is open; a message of another role is free.
abbrev pub IsAnswer : List Message → Message → Type 0
IsAnswer before m =
    m.role ≡ tool → (i : String) × (m.tool_call_id ≡ some i) × (i ≢ "") × Opens i before

abbrev pub IsPaired : List Message → List Message → Type 0
IsPaired before [] = Unit {0}
IsPaired before (m ∷ ms) = IsAnswer before m × IsPaired (m ∷ before) ms

-- No user message directly follows a user message.
abbrev pub Alternates : List Message → Type 0
Alternates [] = Unit {0}
Alternates (m ∷ []) = Unit {0}
Alternates (m ∷ n ∷ ms) = (¬ ((m.role ≡ user) × (n.role ≡ user))) × Alternates (n ∷ ms)

pub record IsLegal (ms : List Message) : Type 0 where
  pub paired : IsPaired [] ms
  pub alternates : Alternates ms

-- The rolling set of pass 1, computed from the messages before.
abbrev pub known_of : List Message → List String
known_of [] = []
known_of (m ∷ before) = known_after m.role m (known_of before)

-- Pass 1 keeps every message of the list.
abbrev pub AllKept : List String → List Message → Type 0
AllKept known [] = Unit {0}
AllKept known (m ∷ ms) = (is_kept m.role m known ≡ true) × AllKept (known_after m.role m known) ms

Makes-known :
    (i : String) (cs : List ToolCallReq) → Makes i cs → any (λ k. k == i) (ids_of cs) ≡ true
Makes-known i [] h = elim h [ ]
Makes-known i (c ∷ cs) (this e) = ground (arith, eq_iff c.id i)
Makes-known i (c ∷ cs) (later h) = ground (arith, Makes-known i cs h)

known-Makes :
    (i : String) (cs : List ToolCallReq) → any (λ k. k == i) (ids_of cs) ≡ true → Makes i cs
known-Makes i [] h = cc
known-Makes i (c ∷ cs) h = elim (Bool-cases (c.id == i)) [
  | inl e ↦ this ((eq_iff c.id i).0 e)
  | inr e ↦ later (known-Makes i cs (ground arith))
]

Opens-known :
    (i : String) (before : List Message)
    → Opens i before
    → any (λ k. k == i) (known_of before) ≡ true
Opens-known i [] h = elim h [ ]
Opens-known i (m ∷ before) (made r h) = ground (arith, Makes-known i m.tool_calls h)
Opens-known i (m ∷ before) (since a u h) = ground (arith, Opens-known i before h)

Role-cases : (r : Role) → (r ≡ assistant) ⊎ ((r ≡ user) ⊎ ((r ≢ assistant) × (r ≢ user)))
Role-cases assistant = inl refl
Role-cases user = inr (inl refl)
Role-cases system = inr (inr (λ e. cc, λ e. cc))
Role-cases tool = inr (inr (λ e. cc, λ e. cc))
Role-cases (other t) = inr (inr (λ e. cc, λ e. cc))

known-Opens :
    (i : String) (before : List Message)
    → any (λ k. k == i) (known_of before) ≡ true
    → Opens i before
known-Opens i [] h = cc
known-Opens i (m ∷ before) h = elim (Role-cases m.role) [
  | inl a ↦ made a (known-Makes i m.tool_calls (ground arith))
  | inr (inl u) ↦ absurd (ground arith)
  | inr (inr o) ↦ since o.0 o.1 (known-Opens i before (ground arith))
]

known_id :
    (known : List String) (o : Option String)
    → is_known known o ≡ true
    → (i : String) × (o ≡ some i) × (i ≢ "") × (any (λ k. k == i) known ≡ true)
known_id known none h = cc
known_id known (some String.[]) h = cc
known_id known (some (String.◌∷◌ c s)) h = (String.◌∷◌ c s, refl, λ e. cc, h)

id_known :
    (known : List String) (i : String)
    → i ≢ ""
    → any (λ k. k == i) known ≡ true
    → is_known known (some i) ≡ true
id_known known String.[] ne h = absurd (ne refl)
id_known known (String.◌∷◌ c s) ne h = h

kept_of :
    (r : Role) (m : Message) (known : List String)
    → (r ≡ tool → is_known known m.tool_call_id ≡ true)
    → is_kept r m known ≡ true
kept_of tool m known h = h refl
kept_of _ m known h = refl

kept_tool :
    (r : Role) (m : Message) (known : List String)
    → is_kept r m known ≡ true
    → r ≡ tool
    → is_known known m.tool_call_id ≡ true
kept_tool tool m known h e = h
kept_tool _ m known h e = cc

kept-IsAnswer :
    (before : List Message) (m : Message)
    → is_kept m.role m (known_of before) ≡ true
    → IsAnswer before m
kept-IsAnswer before m h t =
    let (i, e, ne, k) =
      known_id (known_of before) m.tool_call_id (kept_tool m.role m (known_of before) h t) in
    (i, e, ne, known-Opens i before k)

pub AllKept-IsPaired :
    (before ms : List Message) → AllKept (known_of before) ms → IsPaired before ms
AllKept-IsPaired before [] h = tt
AllKept-IsPaired before (m ∷ ms) h =
    (kept-IsAnswer before m h.0, AllKept-IsPaired (m ∷ before) ms h.1)

IsAnswer-kept :
    (before : List Message) (m : Message)
    → IsAnswer before m
    → is_kept m.role m (known_of before) ≡ true
IsAnswer-kept before m h =
    kept_of m.role m (known_of before) λ t.
      let (i, e, ne, o) = h t in rw e (id_known (known_of before) i ne (Opens-known i before o))

pub IsPaired-AllKept :
    (before ms : List Message) → IsPaired before ms → AllKept (known_of before) ms
IsPaired-AllKept before [] h = tt
IsPaired-AllKept before (m ∷ ms) h =
    (IsAnswer-kept before m h.0, IsPaired-AllKept (m ∷ before) ms h.1)
