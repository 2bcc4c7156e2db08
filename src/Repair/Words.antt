-- ===== src/Repair/Words.antt =====
-- What the repair keeps of the contents.
use text.Mathlib.TextLemmas.{append_assoc, cons-append}
use park_smart_harness.Base.{
  String, ◌<>◌, ◌≡◌, refl, ◌∙◌, sym, ap, inl, inr, All, Bool-cases, ◌&&◌, true, false, List, [],
  ◌∷◌, ◌||◌, nonempty, arith, if◌then◌else◌,
}
use park_smart_harness.Message.{Message}
use park_smart_harness.Repair.{
  known_after, is_user, join_contents, drop_orphans, merge_from, merge_users, repair_messages,
}
use park_smart_harness.Repair.Laws.{repair_messages-passes}

-- What users said: their contents that are not empty, in order.
abbrev pub user_texts : List Message → List String
user_texts [] = []
user_texts (m ∷ ms) =
    let rest = user_texts ms in
    if is_user m.role && nonempty m.content then m.content ∷ rest else rest

-- Texts with a blank line between each and the next.
abbrev pub paragraphs : List String → String
paragraphs [] = ""
paragraphs (t ∷ []) = t
paragraphs (t ∷ u ∷ ts) = t <> "\n\n" <> paragraphs (u ∷ ts)

abbrev pub user_words : List Message → String
user_words ms = paragraphs (user_texts ms)

-- The same by the program's way of joining two contents.
abbrev joined_words : List Message → String
joined_words [] = ""
joined_words (m ∷ ms) =
    if is_user m.role then join_contents m.content (joined_words ms) else joined_words ms

-- The messages that no user sent.
abbrev pub of_others : List Message → List Message
of_others [] = []
of_others (m ∷ ms) = let rest = of_others ms in if is_user m.role then rest else m ∷ rest

nonempty-append : (a b : String) → nonempty a ≡ true → nonempty (a <> b) ≡ true
nonempty-append String.[] b h = cc
nonempty-append (String.◌∷◌ x a) b h = rw cons-append

nonempty-join : (a b : String) → nonempty (join_contents a b) ≡ (nonempty a || nonempty b)
unfolding join_contents
nonempty-join a b = ground (arith, nonempty-append a ("\n\n" <> b))

eq_of_blank : (a : String) → nonempty a ≡ false → a ≡ ""
eq_of_blank String.[] h = refl
eq_of_blank (String.◌∷◌ x a) h = cc

join_assoc_full :
    (a b c : String) → (a <> "\n\n" <> b) <> "\n\n" <> c ≡ a <> "\n\n" <> (b <> "\n\n" <> c)
join_assoc_full a b c = simp append_assoc

pub join_contents_assoc :
    (a b c : String) → join_contents (join_contents a b) c ≡ join_contents a (join_contents b c)
unfolding join_contents
join_contents_assoc a b c =
    ground (arith, nonempty-join a b, nonempty-join b c, join_assoc_full a b c)

join_contents-blank : (a : String) → join_contents a "" ≡ a
unfolding join_contents
join_contents-blank a = ground (arith, eq_of_blank a)

joined_words-drop_orphans :
    (known : List String) (ms : List Message)
    → joined_words (drop_orphans known ms).0 ≡ joined_words ms
unfolding drop_orphans
joined_words-drop_orphans known [] = refl
joined_words-drop_orphans known (m ∷ ms) =
    ground (arith, joined_words-drop_orphans (known_after m.role m known) ms)

joined_words-merge_from :
    (prev : Message) (ms : List Message)
    → joined_words (merge_from prev ms).0 ≡ joined_words (prev ∷ ms)
unfolding merge_from
joined_words-merge_from prev [] = refl
joined_words-merge_from prev (m ∷ ms) = ground (
  arith,
  joined_words-merge_from m ms,
  joined_words-merge_from (record prev { content = join_contents prev.content m.content }) ms,
  join_contents_assoc prev.content m.content (joined_words ms),
)

of_others-merge_from :
    (prev : Message) (ms : List Message) → of_others (merge_from prev ms).0 ≡ of_others (prev ∷ ms)
unfolding merge_from
of_others-merge_from prev [] = refl
of_others-merge_from prev (m ∷ ms) = ground (
  arith,
  of_others-merge_from m ms,
  of_others-merge_from (record prev { content = join_contents prev.content m.content }) ms,
)

merged_words : (ms : List Message) → joined_words (merge_users ms).0 ≡ joined_words ms
unfolding merge_users
merged_words [] = refl
merged_words (m ∷ ms) = joined_words-merge_from m ms

merged_others : (ms : List Message) → of_others (merge_users ms).0 ≡ of_others ms
unfolding merge_users
merged_others [] = refl
merged_others (m ∷ ms) = of_others-merge_from m ms

blank_first : (a b : String) → nonempty a ≡ false → join_contents a b ≡ b
unfolding join_contents
blank_first a b h = ground (arith, h)

paragraphs-first :
    (t : String) (ts : List String) → nonempty t ≡ true → nonempty (paragraphs (t ∷ ts)) ≡ true
paragraphs-first t [] h = h
paragraphs-first t (u ∷ ts) h = nonempty-append t _ h

AreWords : List String → Type 0
AreWords = All (λ t. nonempty t ≡ true)

user_texts-AreWords : (ms : List Message) → AreWords (user_texts ms)
unfolding AreWords
user_texts-AreWords [] = tt
user_texts-AreWords (m ∷ ms) = elim (Bool-cases (is_user m.role && nonempty m.content)) [
  | inl e ↦ rw e (ground (arith, e), user_texts-AreWords ms)
  | inr e ↦ rw e (user_texts-AreWords ms)
]

paragraphs-join :
    (t : String) (ts : List String)
    → nonempty t ≡ true
    → AreWords ts
    → paragraphs (t ∷ ts) ≡ join_contents t (paragraphs ts)
unfolding AreWords join_contents
paragraphs-join t [] h w = ground (arith, h)
paragraphs-join t (u ∷ ts) h w = ground (arith, h, paragraphs-first u ts w.0)

joined_words-eq-user_words : (ms : List Message) → joined_words ms ≡ user_words ms
joined_words-eq-user_words [] = refl
joined_words-eq-user_words (m ∷ ms) = elim (Bool-cases (is_user m.role)) [
  | inr e ↦ rw e (joined_words-eq-user_words ms)
  | inl e ↦ elim (Bool-cases (nonempty m.content)) [
    | inl f ↦
        rw (e, f)
          (ap (join_contents m.content) (joined_words-eq-user_words ms)
            ∙ sym (paragraphs-join m.content (user_texts ms) f (user_texts-AreWords ms)))
    | inr f ↦ rw (e, f) (blank_first m.content (joined_words ms) f ∙ joined_words-eq-user_words ms)
  ]
]

-- Merging loses no word of a user: the contents of the user messages that are not empty, in their
-- order and with a blank line between each and the next, are one text, and it is the same before
-- and after. The messages of other roles are those that pass 1 keeps.
pub repair_messages_keeps_words :
    (ms : List Message)
    → (user_words (repair_messages ms).0 ≡ user_words ms)
      × (of_others (repair_messages ms).0 ≡ of_others (drop_orphans [] ms).0)
repair_messages_keeps_words ms = rw (repair_messages-passes ms) (
  sym (joined_words-eq-user_words (merge_users (drop_orphans [] ms).0).0)
      ∙ merged_words (drop_orphans [] ms).0
      ∙ joined_words-drop_orphans [] ms
      ∙ joined_words-eq-user_words ms,
  merged_others (drop_orphans [] ms).0,
)
