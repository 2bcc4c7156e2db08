-- ===== src/Memory/Scrubber/Feed.antt =====
-- The loop of `feed`, which searches a lowered text for whole tags and for a held suffix, reads the
-- text as from left to right.
use mathlib.Core.Option.{some-injective}
use park_smart_harness.Base.{
  ℕ, zero, suc, ◌+◌, ◌-◌, ◌≤◌, ◌<◌, ◌≡◌, refl, sym, ap, ◌∙◌, subst, Bool, true, false, Option, none,
  some, [], ◌∷◌, not, leb, length, take, drop, map, arith, Bool-cases, Option-cases, inl, inr,
  if◌then◌else◌,
}
use park_smart_harness.Memory.Scrubber.{
  Text, starts, find_text, tag_of, Scrubber, partial_from, smaller, outside, after,
  max_partial_suffix, hold, feed_loop,
}
use park_smart_harness.Memory.Scrubber.Laws.{
  starts-length, starts-full, partial_from-bound, drop-cons, partial_from-cons, length-tag_of,
  length-map, at_tag, in_tag, held, scrub, scrub-at_tag, scrub-in_tag, scrub_past,
}

pub outside-cons :
    (span : Bool) (c : ℕ) (s : Text) (r : Scrubber × Text)
    → after (outside span (c ∷ [])) (after (outside span s) r) ≡ after (outside span (c ∷ s)) r
outside-cons true c s r = refl
outside-cons false c s r = refl

find-length : (t s : Text) (i : ℕ) → find_text t s ≡ some i → i + length t ≤ length s
unfolding find_text
find-length t [] i h = elim (Bool-cases (starts t [])) [
  | inl e ↦ let z : 0 ≡ i = some-injective _ _ (rw e at h) in omega (arith, starts-length t [] e)
  | inr e ↦ let no : none ≡ some i = rw e at h in absurd (cc)
]
find-length t (c ∷ s) i h = elim (Bool-cases (starts t (c ∷ s))) [
  | inl e ↦
      let z : 0 ≡ i = some-injective _ _ (rw e at h) in omega (arith, starts-length t (c ∷ s) e)
  | inr e ↦ elim (Option-cases (find_text t s)) [
    | inl n ↦ let no : none ≡ some i = rw (e, n) at h in absurd (cc)
    | inr f ↦
        let (j, q) = f in
        let z : suc j ≡ i = some-injective _ _ (rw (e, q) at h) in
        omega (arith, find-length t s j q)
  ]
]

module _ (low : ℕ → ℕ) where
  abbrev seek : Bool → Text → Option ℕ
  seek span s = find_text (tag_of span) (map low s)

  too_long_to_start :
      (span : Bool) (s : Text) → length (tag_of span) < length s → in_tag low span s ≡ false
  too_long_to_start span s h = elim (Bool-cases (in_tag low span s)) [
    | inl e ↦ absurd (omega (arith, starts-length (map low s) (tag_of span) e, length-map low s))
    | inr e ↦ e
  ]

  scrub_to_tag :
      (span : Bool) (s : Text) (i : ℕ)
      → seek span s ≡ some i
      → scrub low 0 span s
        ≡ after
            (outside span (take i s))
            (scrub low 0 (not span) (drop (i + length (tag_of span)) s))
  unfolding find_text
  scrub_to_tag span [] i h =
      absurd (omega (arith, find-length (tag_of span) [] i h, length-tag_of span))
  scrub_to_tag span (c ∷ s) i h = elim (Bool-cases (at_tag low span (c ∷ s))) [
    | inl e ↦
        let z : 0 ≡ i = some-injective _ _ (rw e at h) in
        subst
          (λ k.
            scrub low 0 span (c ∷ s)
            ≡ after (outside span (take k (c ∷ s)))
                (scrub low 0 (not span) (drop (k + length (tag_of span)) (c ∷ s))))
          z (scrub-at_tag low span (c ∷ s) e ∙ blank span c s)
    | inr e ↦ elim (Option-cases (seek span s)) [
      | inl n ↦ let no : none ≡ some i = rw (e, n) at h in absurd (cc)
      | inr f ↦
          let (j, q) = f in
          let z : suc j ≡ i = some-injective _ _ (rw (e, q) at h) in
          let far = find-length (tag_of span) (map low s) j q in
          let long = too_long_to_start span (c ∷ s) (omega (arith, far, length-map low s)) in
          subst
            (λ k.
              scrub low 0 span (c ∷ s)
              ≡ after (outside span (take k (c ∷ s)))
                  (scrub low 0 (not span) (drop (k + length (tag_of span)) (c ∷ s))))
            z
            (scrub_past low span c s e long
              ∙ ap (after (outside span (c ∷ []))) (scrub_to_tag span s j q)
              ∙ outside-cons span c (take j s) _
              ∙ ap (λ n. after (outside span (take (suc j) (c ∷ s))) (scrub low 0 (not span) n))
                  (sym (
                    drop-cons (suc j + length (tag_of span)) c s (omega arith)
                    ∙ ap (λ n. drop n s) (omega arith))))
    ]
  ]
    where
      blank :
          (span : Bool) (c : ℕ) (s : Text)
          → scrub low 0 (not span) (drop (length (tag_of span)) (c ∷ s))
            ≡ after
                (outside span (take 0 (c ∷ s)))
                (scrub low 0 (not span) (drop (0 + length (tag_of span)) (c ∷ s)))
      blank true c s = ap (λ n. scrub low 0 false (drop n (c ∷ s))) (omega arith)
      blank false c s = ap (λ n. scrub low 0 true (drop n (c ∷ s))) (omega arith)

test_whole :
    (t : Text) (c : ℕ) (s : Text)
    → partial_from t (c ∷ s) (suc (length s))
      ≡ (if starts (c ∷ s) t then suc (length s) else partial_from t (c ∷ s) (length s))
unfolding partial_from
test_whole t c s =
    let none_cut : suc (length s) - suc (length s) ≡ 0 = omega arith in
    ap
      (λ n. if starts (drop n (c ∷ s)) t then suc (length s) else partial_from t (c ∷ s) (length s))
      none_cut

whole_is_held :
    (t : Text) (c : ℕ) (s : Text) (m : ℕ)
    → starts (c ∷ s) t ≡ true
    → suc (length s) ≤ m
    → partial_from t (c ∷ s) (smaller (suc (length s)) m) ≡ suc (length s)
whole_is_held t c s m h l =
    let same : smaller (suc (length s)) m ≡ suc (length s) = ground arith in
    ap (partial_from t (c ∷ s)) same ∙ test_whole t c s ∙ rw h refl

first_not_held :
    (t : Text) (c : ℕ) (s : Text) (m : ℕ)
    → starts (c ∷ s) t ≡ false
    → partial_from t (c ∷ s) (smaller (suc (length s)) m) ≡ partial_from t s (smaller (length s) m)
first_not_held t c s m h = elim (Bool-cases (leb (suc (length s)) m)) [
  | inl e ↦
      let this : smaller (suc (length s)) m ≡ suc (length s) = rw e refl in
      let less : smaller (length s) m ≡ length s = ground (arith, e) in
      ap (partial_from t (c ∷ s)) this
      ∙ test_whole t c s
      ∙ rw h (partial_from-cons t c s (length s) (omega arith))
      ∙ ap (partial_from t s) (sym less)
  | inr e ↦
      let this : smaller (suc (length s)) m ≡ m = rw e refl in
      let less : smaller (length s) m ≡ m = ground (arith, e) in
      ap (partial_from t (c ∷ s)) this
      ∙ partial_from-cons t c s m (ground (arith, e))
      ∙ ap (partial_from t s) (sym less)
]

smaller-le : (n m : ℕ) → smaller n m ≤ n
smaller-le n m = ground arith

find-none :
    (t : Text) (c : ℕ) (s : Text)
    → find_text t (c ∷ s) ≡ none
    → (starts t (c ∷ s) ≡ false) × (find_text t s ≡ none)
unfolding find_text
find-none t c s h = elim (Bool-cases (starts t (c ∷ s))) [
  | inl e ↦ let no : ◌≡◌ {A = Option ℕ} (some 0) none = rw e at h in absurd (cc)
  | inr e ↦ elim (Option-cases (find_text t s)) [
    | inl n ↦ (e, n)
    | inr f ↦
        let (j, q) = f in
        let no : ◌≡◌ {A = Option ℕ} (some (suc j)) none = rw (e, q) at h in absurd (cc)
  ]
]

abbrev pub cut_off : Bool → Text → ℕ → Scrubber × Text
cut_off span s n = (held span (drop n s), outside span (take n s))

cut_none : (span : Bool) (s : Text) → cut_off span s 0 ≡ (held span s, [])
cut_none true s = refl
cut_none false s = refl

cut_cons :
    (span : Bool) (c : ℕ) (s : Text) (n : ℕ)
    → after (outside span (c ∷ [])) (cut_off span s n) ≡ cut_off span (c ∷ s) (suc n)
cut_cons true c s n = refl
cut_cons false c s n = refl

module _ (low : ℕ → ℕ) where
  -- How much of a text without a whole tag is held.
  abbrev pub held_length : Bool → Text → ℕ
  held_length span s =
      partial_from (tag_of span) (map low s)
        (smaller (length (map low s)) (length (tag_of span) - 1))

  held_all :
      (span : Bool) (c : ℕ) (s : Text)
      → at_tag low span (c ∷ s) ≡ false
      → in_tag low span (c ∷ s) ≡ true
      → held_length span (c ∷ s) ≡ length (c ∷ s)
  held_all span c s h g = elim (Bool-cases (leb (length (tag_of span)) (length (c ∷ s)))) [
    | inl e ↦
        let full =
          starts-full (map low (c ∷ s)) (tag_of span) g (ground (arith, e, length-map low s)) in
        absurd (cc)
    | inr e ↦
        whole_is_held (tag_of span) (low c) (map low s) (length (tag_of span) - 1) g
          (ground (arith, e, length-map low s))
        ∙ ap suc (length-map low s)
  ]

  held_within : (span : Bool) (s : Text) → held_length span s ≤ length s
  held_within span s = omega (
    arith,
    partial_from-bound (tag_of span) (map low s)
        (smaller (length (map low s)) (length (tag_of span) - 1)),
    smaller-le (length (map low s)) (length (tag_of span) - 1),
    length-map low s,
  )

  scrub_no_tag :
      (span : Bool) (s : Text)
      → seek low span s ≡ none
      → scrub low 0 span s ≡ cut_off span s (length s - held_length span s)
  unfolding scrub
  scrub_no_tag span [] h =
      let nothing_shown : 0 ≡ 0 - held_length span [] = omega arith in
      sym (cut_none span []) ∙ ap (cut_off span []) nothing_shown
  scrub_no_tag span (c ∷ s) h =
      let here = find-none (tag_of span) (low c) (map low s) h in
      elim (Bool-cases (in_tag low span (c ∷ s))) [
        | inl e ↦
            let all_held : 0 ≡ length (c ∷ s) - held_length span (c ∷ s) =
              omega (arith, held_all span c s here.0 e) in
            scrub-in_tag low span (c ∷ s) here.0 e
            ∙ sym (cut_none span (c ∷ s))
            ∙ ap (cut_off span (c ∷ s)) all_held
        | inr e ↦
            let less =
              first_not_held (tag_of span) (low c) (map low s) (length (tag_of span) - 1) e in
            let one_more : suc (length s - held_length span s)
                ≡ length (c ∷ s) - held_length span (c ∷ s) =
              omega (arith, less, held_within span s) in
            scrub_past low span c s here.0 e
            ∙ ap (after (outside span (c ∷ []))) (scrub_no_tag span s here.1)
            ∙ cut_cons span c s (length s - held_length span s)
            ∙ ap (cut_off span (c ∷ s)) one_more
      ]

module _ (low : ℕ → ℕ) (lower : Text → Text) (charwise : (s : Text) → lower s ≡ map low s)
    (tags : (span : Bool) → lower (tag_of span) ≡ tag_of span) where
  max_partial_suffix-eq :
      (span : Bool) (s : Text) → max_partial_suffix lower s (tag_of span) ≡ held_length low span s
  unfolding max_partial_suffix
  max_partial_suffix-eq span s = rw (tags span, charwise s) refl

  hold-eq :
      (span : Bool) (s : Text)
      → hold lower span s ≡ cut_off span s (length s - held_length low span s)
  hold-eq span s = ap (λ k. cut_off span s (length s - k)) (max_partial_suffix-eq span s)

  length-drop : (n : ℕ) (s : Text) → length (drop n s) ≡ length s - n
  length-drop zero s = omega arith
  length-drop (suc n) [] = omega arith
  length-drop (suc n) (c ∷ s) = omega (arith, length-drop n s)

  pub feed_loop-scrub :
      (fuel : ℕ) (span : Bool) (s : Text)
      → length s ≤ fuel
      → feed_loop lower fuel span s ≡ scrub low 0 span s
  unfolding feed_loop scrub
  feed_loop-scrub zero span [] h = refl
  feed_loop-scrub zero span (c ∷ s) h = absurd (omega arith)
  feed_loop-scrub (suc fuel) span [] h = refl
  feed_loop-scrub (suc fuel) span (c ∷ s) h =
      let next = λ (o : Option ℕ). elim o as (λ _. Scrubber × Text) [
        | none ↦ hold lower span (c ∷ s)
        | some i ↦
            after (outside span (take i (c ∷ s)))
              (feed_loop lower fuel (not span) (drop (i + length (tag_of span)) (c ∷ s)))
      ] in
      let lowered = ap (find_text (tag_of span)) (charwise (c ∷ s)) in
      elim (Option-cases (seek low span (c ∷ s))) [
        | inl n ↦
            ap next (lowered ∙ n) ∙ hold-eq span (c ∷ s) ∙ sym (scrub_no_tag low span (c ∷ s) n)
        | inr f ↦
            let (i, q) = f in
            let rest = drop (i + length (tag_of span)) (c ∷ s) in
            let short = length-drop (i + length (tag_of span)) (c ∷ s) in
            ap next (lowered ∙ q)
            ∙ ap (after (outside span (take i (c ∷ s))))
                (feed_loop-scrub fuel (not span) rest (omega (arith, short, length-tag_of span)))
            ∙ sym (scrub_to_tag low span (c ∷ s) i q)
      ]
