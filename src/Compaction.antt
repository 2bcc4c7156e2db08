-- ===== src/Compaction.antt =====
-- agent_context/history.py, the parts on compaction: the newest summary in the log, the span that is
-- to be summarised, and the view with the summary in its place; agent_context/tokens.py.
pub mod Compactor
pub mod Laws
pub mod View
use Prim.Native.Nat.{◌/◌}
use park_smart_harness.Base.{
  ℕ, zero, suc, ◌+◌, ◌-◌, String, Bool, true, false, Option, none, some, List, [], ◌∷◌, ◌++◌, ◌==◌,
  ◌&&◌, ◌||◌, not, leb, any, if◌then◌else◌, length, filter, take, drop, get_elem?, chars,
}
use park_smart_harness.Json.{Json, Dict, pos, bool, int, get}
use park_smart_harness.Message.{Message, ToolCallReq, Role, plain, system, tool}
use park_smart_harness.Plan.{is_assistant}
use park_smart_harness.Store.{is_tool}
use park_smart_harness.History.{compaction_name, pending_mark, name_or, step_starts}

pub record Compaction : Type 0 where
  pub summary : String
  pub covers_through_seq : ℕ
  pub head_keep : ℕ
  pub recent_turns : ℕ

abbrev pub is_compaction : ToolCallReq → Bool
is_compaction c = c.name == compaction_name

-- `_is_compaction_call`
abbrev pub is_compaction_call : Message → Bool
is_compaction_call m = is_assistant m.role && any is_compaction m.tool_calls

-- `_is_compaction_msg`: either half of the pair.
abbrev pub is_compaction_msg : Message → Bool
is_compaction_msg m =
    is_compaction_call m || (is_tool m.role && name_or "" m.name == compaction_name)

abbrev pub find : {A : Type 0} → (A → Bool) → List A → Option A
find p [] = none
find p (x ∷ xs) = if p x then some x else find p xs

-- The log before and after the newest compaction call, and that call's message.
pub record Split : Type 0 where
  pub pre : List Message
  pub call : Message
  pub post : List Message

abbrev pub split_at : Message → List Message → Option Split → Option Split
split_at m ms none =
    if is_compaction_call m then some (record { pre = []; call = m; post = ms }) else none
split_at m ms (some s) = some (record s { pre = m ∷ s.pre })

unfoldable pub split_last : List Message → Option Split
split_last [] = none
split_last (m ∷ ms) = split_at m ms (split_last ms)

abbrev pub same_id : String → Option String → Bool
same_id i none = false
same_id i (some j) = j == i

abbrev pub content_or_empty : Option Message → String
content_or_empty none = ""
content_or_empty (some m) = m.content

-- The content of the first result after the call.
abbrev pub summary_of : String → List Message → String
summary_of i ms = content_or_empty (find (λ r. is_tool r.role && same_id i r.tool_call_id) ms)

-- `int(v)`, for the numbers that a compactor writes. Of a text, a float or a negative number the
-- source would make an int or raise; here the result is `none`.
abbrev pub number_or : ℕ → Option Json → Option ℕ
number_or d none = some d
number_or d (some (int (pos n))) = some n
number_or d (some (bool true)) = some 1
number_or d (some (bool false)) = some 0
number_or d (some _) = none

abbrev pub with_numbers : String → Option ℕ → Option ℕ → Option ℕ → Option Compaction
with_numbers s (some c) (some h) (some r) =
    some (record { summary = s; covers_through_seq = c; head_keep = h; recent_turns = r })
with_numbers s _ _ _ = none

abbrev pub compaction_at : List Message → Option ToolCallReq → Option Compaction
compaction_at later none = none
compaction_at later (some c) =
    with_numbers (summary_of c.id later) (number_or 0 (get "covers_through_seq" c.arguments))
      (number_or 1 (get "head_keep" c.arguments)) (number_or 0 (get "recent_turns" c.arguments))

abbrev pub newest_of : Option Split → Option (Option Compaction)
newest_of none = none
newest_of (some s) = some (compaction_at s.post (find is_compaction s.call.tool_calls))

-- `derive_compaction`: there is none, or it is that of the newest call; the inner `none` is an
-- argument that is no number.
unfoldable pub derive_compaction : List Message → Option (Option Compaction)
unfolding split_last
derive_compaction ms = newest_of (split_last ms)

-- `starts[i]`, or the end of the list
abbrev pub at_or : ℕ → Option ℕ → ℕ
at_or end none = end
at_or end (some j) = j

abbrev pub index_or : ℕ → List ℕ → ℕ → ℕ
index_or end starts i = at_or end (get_elem? starts i)

module _ (estimate : List Message → ℕ) (ms : List Message) where
  abbrev pub step_tokens : ℕ → ℕ
  step_tokens i =
      let start = index_or (length ms) (step_starts ms) i in
      estimate (drop start (take (index_or (length ms) (step_starts ms) (suc i)) ms))

  -- Steps are taken from the end until they hold the budget; `left` are those that may be taken.
  unfoldable pub recent_steps : ℕ → ℕ → ℕ → ℕ → ℕ → ℕ
  recent_steps budget first zero acc taken = taken
  recent_steps budget first (suc left) acc taken =
      let total = acc + step_tokens (first + left) in
      let more = recent_steps budget first left total (suc taken) in
      if leb budget total then suc taken else more

pub record Span : Type 0 where
  pub head : List Message
  pub middle : List Message
  pub recent_turns : ℕ

abbrev pub unless_pending : Span → Option Span
unless_pending s = if any (λ m. m.content == pending_mark) s.middle then none else some s

abbrev pub span_between : List Message → ℕ → ℕ → ℕ → Span
span_between ms lo hi recent = record {
  head = take lo ms;
  middle = drop lo (take hi ms);
  recent_turns = recent;
}

-- `select_compaction_span`
unfoldable pub select_compaction_span : (List Message → ℕ) → ℕ → ℕ → List Message → Option Span
unfolding recent_steps
select_compaction_span estimate first budget ms =
    let starts = step_starts ms in
    let n = length starts in
    let recent = recent_steps estimate ms budget first (n - first) 0 0 in
    if leb n (first + 1)
    then none
    else if leb (n - recent) first
    then none
    else unless_pending (
        span_between ms (index_or (length ms) starts first)
          (index_or (length ms) starts (n - recent)) recent)

abbrev pub without_pairs : List Message → List Message
without_pairs = filter (λ m. not (is_compaction_msg m))

-- The result of the call is skipped with it.
abbrev pub after_pair : List Message → List Message
after_pair [] = []
after_pair (m ∷ ms) = if is_tool m.role then ms else m ∷ ms

abbrev pub smaller : ℕ → ℕ → ℕ
smaller a b = if leb a b then a else b

abbrev pub larger : ℕ → ℕ → ℕ
larger a b = if leb a b then b else a

abbrev pub note_of : Compaction → Message
note_of c = plain system c.summary

abbrev pub view_of : Compaction → List Message → List Message → List Message
view_of c pre future =
    let starts = step_starts pre in
    let n = length starts in
    let kept = smaller c.head_keep n in
    let recent = larger kept (n - c.recent_turns) in
    if leb n 0
    then note_of c ∷ future
    else without_pairs (take (index_or (length pre) starts kept) pre)
      ++ (note_of c
          ∷ (without_pairs (drop (index_or (length pre) starts recent) pre)
              ++ without_pairs future))

abbrev pub view_from : Compaction → List Message → Option Split → List Message
view_from c ms none = ms
view_from c ms (some s) = view_of c s.pre (after_pair s.post)

-- `apply_compaction_view`
unfoldable pub apply_compaction_view : Compaction → List Message → List Message
unfolding split_last
apply_compaction_view c ms = view_from c ms (split_last ms)

abbrev pub sum_over : {A : Type 0} → (A → ℕ) → List A → ℕ
sum_over f [] = 0
sum_over f (x ∷ xs) = f x + sum_over f xs

-- `estimate_tokens`; `repr` prints the arguments of a call.
abbrev pub message_chars : (Dict → String) → Message → ℕ
message_chars repr m =
    chars m.content
    + chars m.reasoning
    + sum_over (λ c. chars c.name + chars (repr c.arguments)) m.tool_calls

unfoldable pub estimate_tokens : (Dict → String) → List Message → ℕ
estimate_tokens repr ms = sum_over (message_chars repr) ms / 2 + 1
