-- ===== src/Examples/Views.antt =====
-- The theorems on compaction, memory and streams at concrete inputs.
use park_smart_harness.Base.{
  arith, ℕ, ◌≡◌, ◌≤◌, ◌<◌, refl, String, Bool, true, false, none, some, List, [], ◌∷◌, ◌++◌, All,
  count, map, chars, if◌then◌else◌,
}
use park_smart_harness.Message.{Message, plain, user, assistant, system}
use park_smart_harness.Tools.{Conversation}
use park_smart_harness.Exec.{pure, ok, ◌>>=◌}
use park_smart_harness.History.{opens_step, starts_of}
use park_smart_harness.Compaction.{
  Compaction, derive_compaction, select_compaction_span, without_pairs, apply_compaction_view,
  estimate_tokens,
}
use park_smart_harness.Compaction.Compactor.{
  CompactorSettings, frame_summary, summary_pair, compact, summarized, join_with,
}
use park_smart_harness.Compaction.View.{compaction_takes_the_span}
use park_smart_harness.Memory.{
  MemoryEntry, Entries, is_active, belongs, tenant_of, other_thread, is_anonymous, search_entries,
  forget_user, recall, entry_line, fitting,
}
use park_smart_harness.Memory.Recall.{recall_is_isolated}
use park_smart_harness.Memory.Render.{memory_within_budget}
use park_smart_harness.Memory.Scrubber.{Text, codes, same_code, tag_of, fresh, feed_all}
use park_smart_harness.Memory.Scrubber.Laws.{scrub}
use park_smart_harness.Memory.Scrubber.Stream.{
  concat, streamed, feed_all-eq-scrub, fenced_is_hidden,
}
use park_smart_harness.Examples.{host, someone}
use park_smart_harness.Examples.Engine.{the_call}

-- Four steps of talk, of which the second is summarised.
abbrev old_talk : List Message
old_talk = plain user "a" ∷ plain assistant "one" ∷ plain user "b" ∷ plain assistant "two" ∷ []

abbrev talk : Conversation
talk = record { thread_id = "t"; messages = old_talk; plan = []; principal = none }

abbrev compactor : CompactorSettings ℕ
compactor = record {
  summarize = λ head middle prior config. pure "short";
  hard_token_cap = 10;
  tail_token_budget = 3;
  keep_first = 1;
  repr = λ d. "";
  uuid = λ w. "u";
}

abbrev pair : List Message
pair = summary_pair "cmp-u" 7 1 2 (frame_summary "short")

compacted : compact compactor talk 7 the_call.config (host 0) ≡ (ok (some pair), host 0)
unfolding compact summarized select_compaction_span derive_compaction estimate_tokens chars
    starts_of ◌>>=◌
compacted = refl

compaction_takes_the_span_example :
    (head middle rest : List Message) × (body : String) × (recent : ℕ) × (old_talk
      ≡ head ++ (middle ++ rest))
    × (count opens_step head ≡ 1)
    × (0 < count opens_step middle)
    × (let comp : Compaction = record {
      summary = frame_summary body;
      covers_through_seq = 7;
      head_keep = 1;
      recent_turns = recent;
    } in
        (derive_compaction (old_talk ++ (pair ++ (plain user "c" ∷ []))) ≡ some (some comp))
        × (apply_compaction_view comp (old_talk ++ (pair ++ (plain user "c" ∷ [])))
            ≡ without_pairs head
              ++ (plain system (frame_summary body)
                  ∷ (without_pairs rest ++ without_pairs (plain user "c" ∷ [])))))
compaction_takes_the_span_example =
    compaction_takes_the_span compactor talk 7 the_call.config (host 0) (host 0) pair compacted
      (plain user "c" ∷ []) refl

abbrev same : String → String
same s = s

abbrev note : String → String → MemoryEntry
note i owner = record {
  entry_id = i;
  tenant_id = "_default";
  user_id = owner;
  kind = "fact";
  content = "likes tea";
  created_at = 1;
  source_thread_id = some "old";
  expires_at = none;
  deleted_at = none;
}

abbrev notes : Entries
notes = ("n1", note "n1" "u1") ∷ ("n2", note "n2" "u2") ∷ []

recall_is_isolated_example :
    All
      (λ e.
        (belongs (tenant_of (someone [])) "u1" e ≡ true)
        × (is_active 5 e ≡ true)
        × (other_thread "t" e ≡ true))
      (recall same (λ u. search_entries same 4 u notes) 5 3 (some (someone [])) "" "t")
    × (recall same
          (λ u. search_entries same 4 u (forget_user (tenant_of (someone [])) "u1" notes).0)
          5
          3
          (some (someone []))
          ""
          "t"
        ≡ [])
    × (is_anonymous same (λ u. search_entries same 4 u notes) (someone []) ≡ true
        → recall same (λ u. search_entries same 4 u notes) 5 3 (some (someone [])) "" "t" ≡ [])
recall_is_isolated_example = recall_is_isolated same 4 notes 3 5 (someone []) "" "t"

memory_within_budget_example :
    (chars (join_with "\n" (fitting same 20 0 (note "n1" "u1" ∷ note "n2" "u2" ∷ []))) ≤ 20)
    × ((rest : List String) × (map (entry_line same) (note "n1" "u1" ∷ note "n2" "u2" ∷ [])
          ≡ fitting same 20 0 (note "n1" "u1" ∷ note "n2" "u2" ∷ []) ++ rest))
memory_within_budget_example = memory_within_budget same 20 (note "n1" "u1" ∷ note "n2" "u2" ∷ [])

-- The lower case of `M`, the one capital of the stream.
abbrev low : ℕ → ℕ
low c = if same_code c 77 then 109 else c

abbrev lowered : Text → Text
lowered s = map low s

tags_are_low : (span : Bool) → lowered (tag_of span) ≡ tag_of span
unfolding tag_of
tags_are_low true = refl
tags_are_low false = refl

abbrev chunks : List Text
chunks = codes "ab<me" ∷ codes "mory-context>x</Memory-" ∷ codes "context>c" ∷ []

feed_all-eq-scrub_example : feed_all lowered fresh chunks ≡ scrub low 0 false (concat chunks)
feed_all-eq-scrub_example = feed_all-eq-scrub low lowered (λ s. refl) tags_are_low chunks

fenced_is_hidden_example : streamed lowered chunks ≡ codes "abc"
unfolding tag_of
fenced_is_hidden_example =
    fenced_is_hidden low lowered (λ s. refl) tags_are_low chunks (codes "ab")
      (codes "<memory-context>") (codes "x") (codes "</Memory-context>") (codes "c") refl refl refl
      (omega arith) (omega arith) (omega arith)
