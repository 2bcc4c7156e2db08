-- ===== src/History.antt =====
-- agent_context/history.py: what a view of the log leaves out. Tool results of answered tasks are
-- shortened, and old turns of dialogue are cut; the parts on compaction are in Compaction.
pub mod Drop
pub mod Trim
pub mod Turns
use park_smart_harness.Base.{
  ℕ, suc, ◌+◌, ◌-◌, String, ◌<>◌, show, Bool, true, false, Option, none, some, List, [], ◌∷◌, ◌++◌,
  ◌==◌, ◌&&◌, ◌||◌, not, ltb, leb, nonempty, has_text, ends_with, if◌then◌else◌, length, filter,
  take, drop, get_elem?,
}
use park_smart_harness.Message.{Message, ToolCallReq, Role, plain, user, assistant, tool, system}
use park_smart_harness.Plan.{is_assistant}
use park_smart_harness.Repair.{is_user}
use park_smart_harness.Store.{is_tool}
use park_smart_harness.Loop.Turn.{is_empty}

abbrev pub compaction_name : String
compaction_name = "__compaction__"

abbrev pub pending_mark : String
pending_mark = "[pending_confirmation]"

abbrev pub dropped_suffix : String
dropped_suffix = "旧结果已省略]"

-- `m.name or default`
abbrev pub name_or : String → Option String → String
name_or default none = default
name_or default (some n) = if nonempty n then n else default

unfoldable pub is_dropped_result : String → Bool
is_dropped_result content = ends_with content dropped_suffix

abbrev pub is_exempt : String → Bool
is_exempt n = n == "plan" || n == compaction_name || n == "propose_control"

-- `_is_ordinary_tool_result`
abbrev pub is_ordinary : Message → Bool
is_ordinary m = is_tool m.role && not (is_exempt (name_or "" m.name))

-- `_is_text_answer`
abbrev pub is_text_answer : Message → Bool
is_text_answer m = is_assistant m.role && has_text m.content && is_empty m.tool_calls

abbrev pub or_else {ℓ} : {A : Type ℓ} → Option A → Option A → Option A
or_else none o = o
or_else (some a) o = some a

abbrev pub some_if : Bool → ℕ → Option ℕ
some_if true i = some i
some_if false i = none

-- The index of the last text answer; `none` is -1.
unfoldable pub last_answer : ℕ → List Message → Option ℕ
last_answer i [] = none
last_answer i (m ∷ ms) = or_else (last_answer (suc i) ms) (some_if (is_text_answer m) i)

abbrev pub shorten : Message → Message
shorten m = record m { content = "[" <> name_or "工具" m.name <> "·" <> dropped_suffix }

-- A result that may be shortened: ordinary, and no placeholder of a pending action.
abbrev pub is_droppable : Message → Bool
is_droppable m = is_ordinary m && not (m.content == pending_mark)

-- The second loop, from index `i` on.
unfoldable pub drop_before : ℕ → ℕ → List Message → List Message
drop_before last i [] = []
drop_before last i (m ∷ ms) =
    (if is_droppable m && ltb i last then shorten m else m) ∷ drop_before last (suc i) ms

abbrev pub drop_up_to : Option ℕ → List Message → List Message
drop_up_to none ms = ms
drop_up_to (some last) ms = drop_before last 0 ms

unfoldable pub drop_answered_tool_results : List Message → List Message
unfolding last_answer drop_before
drop_answered_tool_results ms = drop_up_to (last_answer 0 ms) ms

abbrev pub cons_if : Bool → ℕ → List ℕ → List ℕ
cons_if true i is = i ∷ is
cons_if false i is = is

-- The indices, from `i` on, of the messages that pass a test.
unfoldable pub starts_of : (Message → Bool) → ℕ → List Message → List ℕ
starts_of p i [] = []
starts_of p i (m ∷ ms) = cons_if (p m) i (starts_of p (suc i) ms)

abbrev pub opens_turn : Message → Bool
opens_turn m = is_user m.role

abbrev pub opens_step : Message → Bool
opens_step m = is_user m.role || is_assistant m.role

-- `_turn_starts`
abbrev pub turn_starts : List Message → List ℕ
turn_starts ms = starts_of opens_turn 0 ms

-- `_step_starts`
abbrev pub step_starts : List Message → List ℕ
step_starts ms = starts_of opens_step 0 ms

abbrev is_system : Role → Bool
is_system system = true
is_system _ = false

-- `_must_keep_in_trim`
abbrev pub must_keep : Message → Bool
must_keep m =
    m.content == pending_mark
    || is_system m.role
    || is_tool m.role
    || (is_assistant m.role && not (is_empty m.tool_calls))

-- The user message that stands for `n` turns.
abbrev pub elision : ℕ → Message
elision n = plain user ("[旧对话 " <> show n <> " 轮已省略]")

-- The messages of `[lo, hi)` are cut to those that must stay.
abbrev pub cut : ℕ → ℕ → ℕ → List Message → List Message
cut n lo hi ms = take lo ms ++ (elision n ∷ (filter must_keep (drop lo (take hi ms)) ++ drop hi ms))

abbrev pub cut_between : ℕ → Option ℕ → Option ℕ → List Message → Option (List Message)
cut_between n (some lo) (some hi) ms = some (cut n lo hi ms)
cut_between n _ _ ms = none

-- `none` is the IndexError of a `keep_recent_turns` of zero.
unfoldable pub trim_dialogue_turns : ℕ → ℕ → List Message → Option (List Message)
unfolding starts_of
trim_dialogue_turns recent first ms =
    let starts = turn_starts ms in
    let turns = length starts in
    if leb turns (first + recent)
    then some ms
    else cut_between (turns - recent - first) (get_elem? starts first)
        (get_elem? starts (turns - recent)) ms
