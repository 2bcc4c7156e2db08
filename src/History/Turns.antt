-- ===== src/History/Turns.antt =====
-- The cut of old turns loses no message that carries a call, orphans no result and bounds the turns.
use text.Mathlib.Text.{starts_with}
use text.Mathlib.TextPositions.{starts_with-append}
use park_smart_harness.Base.{
  ℕ, ◌+◌, ◌-◌, ◌≤◌, ◌<◌, ◌≡◌, refl, sym, ap, ◌∙◌, subst, String, Bool, true, false, Option, some,
  List, [], ◌∷◌, ◌++◌, any, arith, ◌==◌, ◌&&◌, ◌||◌, leb, leb→le, leb→lt, length, filter, count,
  filter-append, filter-filter, Bool-cases, inl, inr, none, not, eq_iff, show, ◌<>◌,
}
use park_smart_harness.Store.{is_tool}
use park_smart_harness.Plan.{is_assistant}
use park_smart_harness.Loop.Turn.{is_empty}
use park_smart_harness.Message.{Message, ToolCallReq, Role, system, user, assistant, tool, other}
use park_smart_harness.Repair.{is_user, is_known, ids_of, known_after, is_kept}
use park_smart_harness.Repair.Legal.{AllKept}
use park_smart_harness.History.{
  pending_mark, must_keep, opens_turn, starts_of, turn_starts, elision, trim_dialogue_turns,
}
use park_smart_harness.History.Trim.{Parts, parts, count-append, length-starts}

few_turns :
    (recent first : ℕ) (ms : List Message)
    → count opens_turn ms ≤ first + recent
    → trim_dialogue_turns recent first ms ≡ some ms
unfolding trim_dialogue_turns
few_turns recent first ms h =
    let turns = length-starts opens_turn 0 ms in
    let test : leb (length (starts_of opens_turn 0 ms)) (first + recent) ≡ true =
      ground (arith, turns) in
    rw test refl

elision_goes : (n : ℕ) → must_keep (elision n) ≡ false
elision_goes n = elim (Bool-cases ((elision n).content == pending_mark)) [
  | inl e ↦
      let same : (elision n).content ≡ pending_mark = (eq_iff _ _).0 e in
      let no : true ≡ false =
        sym (starts_with-append "[旧对话 " (show n <> " 轮已省略]"))
        ∙ ap (λ c. starts_with c "[旧对话 ") same in
      cc
  | inr e ↦ rw e refl
]

elided :
    (n : ℕ) (head mid rest : List Message)
    → filter must_keep (head ++ elision n ∷ (filter must_keep mid ++ rest))
      ≡ filter must_keep (head ++ (mid ++ rest))
elided n head mid rest =
    filter-append must_keep head (elision n ∷ (filter must_keep mid ++ rest))
    ∙ ap (λ l. filter must_keep head ++ l)
        (gone (filter must_keep mid ++ rest)
          ∙ filter-append must_keep (filter must_keep mid) rest
          ∙ ap (λ l. l ++ filter must_keep rest) (filter-filter must_keep mid)
          ∙ sym (filter-append must_keep mid rest))
    ∙ sym (filter-append must_keep head (mid ++ rest))
  where
    gone : (l : List Message) → filter must_keep (elision n ∷ l) ≡ filter must_keep l
    gone l = rw (elision_goes n) refl

-- A wider set of known ids.
abbrev Within : List String → List String → Type 0
Within known wider = (i : String) → any (λ k. k == i) known ≡ true → any (λ k. k == i) wider ≡ true

is_known-Within :
    (known wider : List String) (o : Option String)
    → Within known wider
    → is_known known o ≡ true
    → is_known wider o ≡ true
is_known-Within known wider none w h = cc
is_known-Within known wider (some i) w h = ground (arith, w i)

is_kept-Within :
    (r : Role) (m : Message) (known wider : List String)
    → Within known wider
    → is_kept r m known ≡ true
    → is_kept r m wider ≡ true
is_kept-Within tool m known wider w h = is_known-Within known wider m.tool_call_id w h
is_kept-Within system m known wider w h = refl
is_kept-Within user m known wider w h = refl
is_kept-Within assistant m known wider w h = refl
is_kept-Within (other t) m known wider w h = refl

known_after-Within :
    (r : Role) (m : Message) (known wider : List String)
    → Within known wider
    → Within (known_after r m known) (known_after r m wider)
known_after-Within assistant m known wider w i h = h
known_after-Within user m known wider w i h = h
known_after-Within tool m known wider w i h = w i h
known_after-Within system m known wider w i h = w i h
known_after-Within (other t) m known wider w i h = w i h

AllKept-Within :
    (known wider : List String) (ms : List Message)
    → Within known wider
    → AllKept known ms
    → AllKept wider ms
AllKept-Within known wider [] w h = tt
AllKept-Within known wider (m ∷ ms) w h = (
  is_kept-Within m.role m known wider w h.0,
  AllKept-Within (known_after m.role m known) (known_after m.role m wider) ms
      (known_after-Within m.role m known wider w) h.1,
)

no_ids : (cs : List ToolCallReq) → is_empty cs ≡ true → ids_of cs ≡ []
no_ids [] h = refl
no_ids (c ∷ cs) h = cc

-- A message that is cut opens no call and answers none.
cut-Within :
    (r : Role) (m : Message) (known wider : List String)
    → (is_tool r || (is_assistant r && not (is_empty m.tool_calls))) ≡ false
    → Within known wider
    → Within (known_after r m known) wider
cut-Within assistant m known wider e w i h =
    let none_open = no_ids m.tool_calls (ground arith) in
    let no : any (λ k. k == i) [] ≡ true = rw none_open at h in cc
cut-Within user m known wider e w i h = cc
cut-Within tool m known wider e w i h = cc
cut-Within system m known wider e w i h = w i h
cut-Within (other t) m known wider e w i h = w i h

cut-AllKept :
    (known wider : List String) (mid : List Message) (next : Message) (rest : List Message)
    → Within known wider
    → next.role ≡ user
    → AllKept known (mid ++ (next ∷ rest))
    → AllKept wider (filter must_keep mid ++ (next ∷ rest))
cut-AllKept known wider [] next rest w u h = AllKept-Within known wider (next ∷ rest) w h
cut-AllKept known wider (m ∷ mid) next rest w u h = elim (Bool-cases (must_keep m)) [
  | inl e ↦ rw e (
    is_kept-Within m.role m known wider w h.0,
    cut-AllKept (known_after m.role m known) (known_after m.role m wider) mid next rest
        (known_after-Within m.role m known wider w) u h.1,
  )
  | inr e ↦ rw e (
      cut-AllKept (known_after m.role m known) wider mid next rest
        (cut-Within m.role m known wider (ground arith) w) u h.1)
]

role_of_opener : (r : Role) → is_user r ≡ true → r ≡ user
role_of_opener user h = refl
role_of_opener system h = cc
role_of_opener assistant h = cc
role_of_opener tool h = cc
role_of_opener (other t) h = cc

user_resets :
    (m : Message) (known : List String) (ms : List Message)
    → m.role ≡ user
    → AllKept known (m ∷ ms)
    → AllKept [] (m ∷ ms)
user_resets m known ms e h = (subst (λ r. is_kept r m [] ≡ true) (sym e) refl, rw e (rw e at h).1)

AllKept-tail :
    (known : List String) (head xs ys : List Message)
    → ((k : List String) → AllKept k xs → AllKept k ys)
    → AllKept known (head ++ xs)
    → AllKept known (head ++ ys)
AllKept-tail known [] xs ys f h = f known h
AllKept-tail known (m ∷ head) xs ys f h =
    (h.0, AllKept-tail (known_after m.role m known) head xs ys f h.1)

abbrev pub waits_in_turn : Message → Bool
waits_in_turn m = opens_turn m && must_keep m

count-filter : (ms : List Message) → count opens_turn (filter must_keep ms) ≡ count waits_in_turn ms
count-filter [] = refl
count-filter (m ∷ ms) = elim (Bool-cases (must_keep m)) [
  | inl e ↦ rw e (ground (arith, count-filter ms, e))
  | inr e ↦ rw e (ground (arith, count-filter ms, e))
]

cut_turns :
    (n : ℕ) (head mid rest : List Message)
    → count opens_turn (head ++ elision n ∷ (filter must_keep mid ++ rest))
      ≤ count opens_turn head
        + 1
        + count opens_turn rest
        + count waits_in_turn (head ++ (mid ++ rest))
cut_turns n head mid rest = omega (
  arith,
  count-append opens_turn head (elision n ∷ (filter must_keep mid ++ rest)),
  count-append opens_turn (filter must_keep mid) rest,
  count-filter mid,
  count-append waits_in_turn head (mid ++ rest),
  count-append waits_in_turn mid rest,
)

-- What the cut returns: the messages that must stay, the turns that may be left, and its pairs.
pub record IsTrimmed (recent first : ℕ) (ms out : List Message) : Type 0 where
  pub keeps : filter must_keep out ≡ filter must_keep ms
  pub turns : count opens_turn out ≤ first + 1 + recent + count waits_in_turn ms
  pub paired : (known : List String) → AllKept known ms → AllKept known out

module _ (recent first : ℕ) (ms : List Message) (p : Parts recent first ms) where
  open p use {head, opener, middle, next, rest}

  abbrev trimmed : List Message
  trimmed =
      head
      ++ elision (length (turn_starts ms) - recent - first)
        ∷ (filter must_keep (opener ∷ middle) ++ (next ∷ rest))

  trimmed-IsTrimmed : IsTrimmed recent first ms trimmed
  trimmed-IsTrimmed = record {
    keeps =
        elided (length (turn_starts ms) - recent - first) head (opener ∷ middle) (next ∷ rest)
        ∙ ap (filter must_keep) (sym p.whole);
    turns =
        rw (p.head_turns, p.rest_turns, sym p.whole) at
          (cut_turns (length (turn_starts ms) - recent - first) head (opener ∷ middle)
            (next ∷ rest));
    paired = λ known h.
        AllKept-tail known head ((opener ∷ middle) ++ (next ∷ rest)) _
          (λ k g. (
            refl,
            cut-AllKept [] [] (opener ∷ middle) next rest (λ i e. e)
                (role_of_opener next.role p.next_is)
                (user_resets opener k (middle ++ (next ∷ rest))
                  (role_of_opener opener.role p.opener_is) g),
          ))
          (subst (AllKept known) p.whole h);
  }

same-IsTrimmed :
    (recent first : ℕ) (ms : List Message)
    → count opens_turn ms ≤ first + recent
    → IsTrimmed recent first ms ms
same-IsTrimmed recent first ms h = record {
  keeps = refl;
  turns = omega arith;
  paired = λ known g. g;
}

-- With at least one recent turn to keep, the cut of old turns succeeds. Every message that must stay
-- is left, in its order: a placeholder, a system message, a tool result, a turn with calls. No
-- result that had its call loses it. The user messages that are left are at most the first and the
-- recent turns that are kept, one for what was cut, and the placeholders among them.
pub trim_dialogue_turns-IsTrimmed :
    (recent first : ℕ) (ms : List Message)
    → 0 < recent
    → (out : List Message) × (trim_dialogue_turns recent first ms ≡ some out)
      × IsTrimmed recent first ms out
trim_dialogue_turns-IsTrimmed recent first ms pos =
    elim (Bool-cases (leb (count opens_turn ms) (first + recent))) [
      | inl e ↦
          let few = leb→le (count opens_turn ms) (first + recent) e in
          (ms, few_turns recent first ms few, same-IsTrimmed recent first ms few)
      | inr e ↦
          let p = parts recent first ms pos (leb→lt (count opens_turn ms) (first + recent) e) in
          (trimmed recent first ms p, p.left, trimmed-IsTrimmed recent first ms p)
    ]
