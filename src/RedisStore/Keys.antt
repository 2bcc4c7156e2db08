-- ===== src/RedisStore/Keys.antt =====
-- No two lists of the Redis store share a key.
use Prim.Native.String.{count}
use text.Mathlib.TextLemmas.{
  append_cancel_left, append_cancel_right, append_assoc, append_inj, length-append,
}
use park_smart_harness.Base.{
  ◌≡◌, ◌≢◌, sym, ap, ◌∙◌, String, ◌<>◌, true, false, ◌==◌, eq_iff, arith, Bool-cases, inl, inr,
}
use park_smart_harness.RedisStore.{RedisStore, messages_key, boundaries_key}

apart : (s t : String) → s <> ":messages" ≢ t <> ":boundaries"
apart s t e =
    let longer : s <> ":messages" ≡ (t <> ":b") <> "oundaries" =
      e ∙ sym (append_assoc t ":b" "oundaries") in
    let sizes = ap count longer in
    let parts =
      append_inj longer (
        omega (arith, sizes, length-append s ":messages", length-append (t <> ":b") "oundaries")) in
    let no : ◌==◌ ":messages" "oundaries" ≡ true = (eq_iff ":messages" "oundaries").1 parts.1 in cc

eq_of_iff : (a b c d : String) → (a ≡ b → c ≡ d) → (c ≡ d → a ≡ b) → (a == b) ≡ (c == d)
eq_of_iff a b c d f g = elim (Bool-cases (c == d)) [
  | inl e ↦ (eq_iff a b).1 (g ((eq_iff c d).0 e)) ∙ sym e
  | inr e ↦ elim (Bool-cases (a == b)) [
    | inl h ↦ let same = (eq_iff c d).1 (f ((eq_iff a b).0 h)) in absurd (cc)
    | inr h ↦ h ∙ sym e
  ]
]

ne_of_apart : (a b : String) → a ≢ b → (a == b) ≡ false
ne_of_apart a b n = elim (Bool-cases (a == b)) [ inl e ↦ absurd (n ((eq_iff a b).0 e)) | inr e ↦ e ]

module _ {T R : Type 0} (k : RedisStore T R) where
  same_thread :
      (a b suffix : String)
      → k.key_prefix <> (":" <> (a <> suffix)) ≡ k.key_prefix <> (":" <> (b <> suffix))
      → a ≡ b
  same_thread a b suffix e = append_cancel_right a b suffix (
      append_cancel_left ":" (a <> suffix) (b <> suffix)
        (append_cancel_left k.key_prefix (":" <> (a <> suffix)) (":" <> (b <> suffix)) e))

  pub messages_key-eq : (a b : String) → (messages_key k a == messages_key k b) ≡ (a == b)
  unfolding messages_key
  messages_key-eq a b =
      eq_of_iff (messages_key k a) (messages_key k b) a b (same_thread a b ":messages")
        (ap (messages_key k))

  pub boundaries_key-eq : (a b : String) → (boundaries_key k a == boundaries_key k b) ≡ (a == b)
  unfolding boundaries_key
  boundaries_key-eq a b =
      eq_of_iff (boundaries_key k a) (boundaries_key k b) a b (same_thread a b ":boundaries")
        (ap (boundaries_key k))

  keys_apart : (a b : String) → messages_key k a ≢ boundaries_key k b
  unfolding messages_key boundaries_key
  keys_apart a b e = apart a b (
      append_cancel_left ":" (a <> ":messages") (b <> ":boundaries") (
        append_cancel_left k.key_prefix (":" <> (a <> ":messages")) (":" <> (b <> ":boundaries"))
          e))

  pub messages_boundaries-eq : (a b : String) → (messages_key k a == boundaries_key k b) ≡ false
  messages_boundaries-eq a b = ne_of_apart _ _ (keys_apart a b)

  pub boundaries_messages-eq : (a b : String) → (boundaries_key k a == messages_key k b) ≡ false
  boundaries_messages-eq a b = ne_of_apart _ _ (λ e. keys_apart b a (sym e))
