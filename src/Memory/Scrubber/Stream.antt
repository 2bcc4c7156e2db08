-- ===== src/Memory/Scrubber/Stream.antt =====
-- A streamed text: what is shown does not depend on where the stream was cut.
use mathlib.Core.List.{append-nil, append_assoc}
use park_smart_harness.Base.{
  ℕ, zero, suc, ◌-◌, ◌≤◌, ◌≡◌, refl, sym, ap, ◌∙◌, subst, Bool, true, false, List, [], ◌∷◌, ◌++◌,
  ◌≢◌, All, drop, drop-append, not, length, map, arith, Bool-cases, inl, inr,
}
use park_smart_harness.Memory.Scrubber.{
  Text, starts, tag_of, Scrubber, fresh, outside, after, feed, feed_all, flush,
}
use park_smart_harness.Memory.Scrubber.Laws.{
  starts-length, starts-append, starts_of_append, starts-split, length-map, map-append, at_tag,
  in_tag, scrub, scrub-at_tag, scrub-in_tag, scrub_past, starts_refl,
}
use park_smart_harness.Memory.Scrubber.Feed.{outside-cons, feed_loop-scrub}

module _ (low : ℕ → ℕ) where
  at_tag-append :
      (span : Bool) (s r : Text) → at_tag low span s ≡ true → at_tag low span (s ++ r) ≡ true
  at_tag-append span s r h =
      rw (map-append low s r) (starts-append (tag_of span) (map low s) (map low r) h)

  in_tag_of_append :
      (span : Bool) (s r : Text) → in_tag low span (s ++ r) ≡ true → in_tag low span s ≡ true
  in_tag_of_append span s r h =
      starts_of_append (map low s) (map low r) (tag_of span) (rw (map-append low s r) at h)

  at_tag-split :
      (span : Bool) (s r : Text)
      → at_tag low span s ≡ false
      → in_tag low span s ≡ false
      → at_tag low span (s ++ r) ≡ false
  at_tag-split span s r h g = elim (Bool-cases (at_tag low span (s ++ r))) [
    | inl e ↦
        let begun =
          starts-split (tag_of span) (map low s) (map low r) (rw (map-append low s r) at e) h in
        absurd (cc)
    | inr e ↦ e
  ]

  in_tag-split :
      (span : Bool) (s r : Text) → in_tag low span s ≡ false → in_tag low span (s ++ r) ≡ false
  in_tag-split span s r g = elim (Bool-cases (in_tag low span (s ++ r))) [
    | inl e ↦ let begun = in_tag_of_append span s r e in absurd (cc)
    | inr e ↦ e
  ]

  -- The rest of a text, read after what was held of the first part.
  abbrev pub read_on : Text → Scrubber × Text → Scrubber × Text
  read_on r first = after first.1 (scrub low 0 first.0.in_span (first.0.buf ++ r))

  after-after : (a b : Text) (r : Scrubber × Text) → after a (after b r) ≡ after (a ++ b) r
  after-after a b r = ap (λ t. (r.0, t)) (sym (append_assoc a b r.1))

  scrub-append :
      (skip : ℕ) (span : Bool) (s r : Text)
      → skip ≤ length s
      → scrub low skip span (s ++ r) ≡ read_on r (scrub low skip span s)
  unfolding scrub
  scrub-append zero span [] r h = refl
  scrub-append (suc skip) span [] r h = absurd (omega arith)
  scrub-append (suc skip) span (c ∷ s) r h = scrub-append skip span s r (omega arith)
  scrub-append zero span (c ∷ s) r h = elim (Bool-cases (at_tag low span (c ∷ s))) [
    | inl e ↦
        let long = starts-length (tag_of span) (map low (c ∷ s)) e in
        rw (e, at_tag-append span (c ∷ s) r e)
          (scrub-append (length (tag_of span) - 1) (not span) s r
            (omega (arith, long, length-map low s)))
    | inr e ↦ elim (Bool-cases (in_tag low span (c ∷ s))) [
      | inl g ↦ rw (e, g) refl
      | inr g ↦
          rw (e, g, at_tag-split span (c ∷ s) r e g, in_tag-split span (c ∷ s) r g)
            (ap (after (outside span (c ∷ []))) (scrub-append zero span s r (omega arith))
              ∙ after-after (outside span (c ∷ [])) (scrub low 0 span s).1 _)
    ]
  ]

  -- A scrubber between two texts: what it holds may be the start of a tag, and it would hold it again.
  abbrev pub Resting : Scrubber → Type 0
  Resting st = scrub low 0 st.in_span st.buf ≡ (st, [])

  scrub-Resting : (skip : ℕ) (span : Bool) (s : Text) → Resting (scrub low skip span s).0
  unfolding scrub
  scrub-Resting skip span [] = refl
  scrub-Resting (suc skip) span (c ∷ s) = scrub-Resting skip span s
  scrub-Resting zero span (c ∷ s) = elim (Bool-cases (at_tag low span (c ∷ s))) [
    | inl e ↦ rw e (scrub-Resting (length (tag_of span) - 1) (not span) s)
    | inr e ↦ elim (Bool-cases (in_tag low span (c ∷ s))) [
      | inl g ↦
          let same = scrub-in_tag low span (c ∷ s) e g in
          subst (λ (r : Scrubber × Text). Resting r.0) (sym same) same
      | inr g ↦ rw (e, g) (scrub-Resting zero span s)
    ]
  ]

abbrev pub concat : List Text → Text
concat [] = []
concat (t ∷ ts) = t ++ concat ts

-- What the reader of a stream has seen when it is over.
abbrev pub streamed : (Text → Text) → List Text → Text
streamed lower ts = let fed = feed_all lower fresh ts in fed.1 ++ (flush fed.0).1

-- A text that starts no tag: no character is the bracket of one.
abbrev pub Plain : (ℕ → ℕ) → Text → Type 0
Plain low s = All (λ c. low c ≢ 60) s

module _ (low : ℕ → ℕ) where
  plain_at_tag :
      (span : Bool) (c : ℕ) (s : Text)
      → low c ≢ 60
      → (at_tag low span (c ∷ s) ≡ false) × (in_tag low span (c ∷ s) ≡ false)
  unfolding tag_of starts
  plain_at_tag true c s h = (ground arith, ground arith)
  plain_at_tag false c s h = (ground arith, ground arith)

  scrub-Plain :
      (span : Bool) (s r : Text)
      → Plain low s
      → scrub low 0 span (s ++ r) ≡ after (outside span s) (scrub low 0 span r)
  scrub-Plain true [] r h = refl
  scrub-Plain false [] r h = refl
  scrub-Plain span (c ∷ s) r h =
      let tests = plain_at_tag span c (s ++ r) h.0 in
      scrub_past low span c (s ++ r) tests.0 tests.1
      ∙ ap (after (outside span (c ∷ []))) (scrub-Plain span s r h.1)
      ∙ outside-cons span c s (scrub low 0 span r)

  -- A tag in any spelling of its letters.
  scrub_tag :
      (span : Bool) (o r : Text)
      → map low o ≡ tag_of span
      → scrub low 0 span (o ++ r) ≡ scrub low 0 (not span) r
  scrub_tag span o r h =
      let whole : at_tag low span o ≡ true = rw h (starts_refl (tag_of span)) in
      let size : length (tag_of span) ≡ length o = sym (ap length h) ∙ length-map low o in
      scrub-at_tag low span (o ++ r) (at_tag-append low span o r whole)
      ∙ ap (scrub low 0 (not span)) (ap (λ n. drop n (o ++ r)) size ∙ drop-append o r)

module _ (low : ℕ → ℕ) (lower : Text → Text) (charwise : (s : Text) → lower s ≡ map low s)
    (tags : (span : Bool) → lower (tag_of span) ≡ tag_of span) where
  feed-scrub :
      (st : Scrubber) (t : Text)
      → Resting low st
      → feed lower st t ≡ scrub low 0 st.in_span (st.buf ++ t)
  unfolding feed
  feed-scrub st [] h = sym (ap (scrub low 0 st.in_span) (append-nil st.buf) ∙ h)
  feed-scrub st (c ∷ s) h =
      feed_loop-scrub low lower charwise tags (length (st.buf ++ (c ∷ s))) st.in_span
        (st.buf ++ (c ∷ s)) (omega arith)

  feed_all-scrub :
      (st : Scrubber) (ts : List Text)
      → Resting low st
      → feed_all lower st ts ≡ scrub low 0 st.in_span (st.buf ++ concat ts)
  unfolding feed_all
  feed_all-scrub st [] h = sym (ap (scrub low 0 st.in_span) (append-nil st.buf) ∙ h)
  feed_all-scrub st (t ∷ ts) h =
      let first = scrub low 0 st.in_span (st.buf ++ t) in
      let fed = feed-scrub st t h in
      ap (λ (f : Scrubber × Text). after f.1 (feed_all lower f.0 ts)) fed
      ∙ ap (after first.1)
          (feed_all-scrub first.0 ts (scrub-Resting low 0 st.in_span (st.buf ++ t)))
      ∙ sym (scrub-append low 0 st.in_span (st.buf ++ t) (concat ts) (omega arith))
      ∙ ap (scrub low 0 st.in_span) (append_assoc st.buf t (concat ts))

  -- Where the lower case of a text is that of its characters one by one, the scrubber does not see
  -- where a stream is cut: after any sequence of texts its state, and what it has shown, are those of
  -- reading the whole text once from left to right, span by span.
  pub feed_all-eq-scrub : (ts : List Text) → feed_all lower fresh ts ≡ scrub low 0 false (concat ts)
  unfolding scrub
  feed_all-eq-scrub ts = feed_all-scrub fresh ts refl

  -- A fenced span is never shown, however the stream is cut: of a text with one pair of tags, in any
  -- spelling of their letters, between parts without a bracket, the reader sees the part before the
  -- pair and the part after it.
  pub fenced_is_hidden :
      (ts : List Text) (before opening hidden closing rest : Text)
      → concat ts ≡ before ++ (opening ++ (hidden ++ (closing ++ rest)))
      → map low opening ≡ tag_of false
      → map low closing ≡ tag_of true
      → Plain low before
      → Plain low hidden
      → Plain low rest
      → streamed lower ts ≡ before ++ rest
  unfolding scrub flush
  fenced_is_hidden ts before opening hidden closing rest e o c b h r =
      let read =
        feed_all-eq-scrub ts
        ∙ ap (scrub low 0 false) e
        ∙ scrub-Plain low false before _ b
        ∙ ap (after before) (
            scrub_tag low false opening _ o
            ∙ scrub-Plain low true hidden _ h
            ∙ scrub_tag low true closing rest c
            ∙ ap (scrub low 0 false) (sym (append-nil rest))
            ∙ scrub-Plain low false rest [] r) in
      ap (λ (f : Scrubber × Text). f.1 ++ (flush f.0).1) read
      ∙ append-nil (before ++ (rest ++ []))
      ∙ ap (λ s. before ++ s) (append-nil rest)
