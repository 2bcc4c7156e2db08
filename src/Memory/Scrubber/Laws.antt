-- ===== src/Memory/Scrubber/Laws.antt =====
-- One text, scrubbed from its start: the search for tags and held suffixes, against a reading of the
-- text from left to right.
use park_smart_harness.Base.{
  ℕ, zero, suc, ◌-◌, ◌≤◌, ◌<◌, ◌≡◌, refl, sym, ap, ◌∙◌, Bool, true, false, [], ◌∷◌, ◌++◌, not,
  length, take, drop, map, arith, if◌then◌else◌,
}
use park_smart_harness.Memory.Scrubber.{
  Text, starts, tag_of, Scrubber, partial_from, outside, after,
}

pub starts-length : (t s : Text) → starts t s ≡ true → length t ≤ length s
unfolding starts
starts-length [] s h = omega arith
starts-length (x ∷ t) [] h = cc
starts-length (x ∷ t) (y ∷ s) h = ground (arith, starts-length t s)

-- A prefix as long as the whole is the whole.
pub starts-full : (t s : Text) → starts t s ≡ true → length s ≤ length t → starts s t ≡ true
unfolding starts
starts-full [] [] h l = refl
starts-full [] (y ∷ s) h l = absurd (omega arith)
starts-full (x ∷ t) [] h l = cc
starts-full (x ∷ t) (y ∷ s) h l = ground (arith, starts-full t s)

pub starts_refl : (t : Text) → starts t t ≡ true
unfolding starts
starts_refl [] = refl
starts_refl (x ∷ t) = ground (arith, starts_refl t)

pub starts-append : (t s r : Text) → starts t s ≡ true → starts t (s ++ r) ≡ true
unfolding starts
starts-append [] s r h = refl
starts-append (x ∷ t) [] r h = cc
starts-append (x ∷ t) (y ∷ s) r h = ground (arith, starts-append t s r)

pub starts_of_append : (s r t : Text) → starts (s ++ r) t ≡ true → starts s t ≡ true
unfolding starts
starts_of_append [] r t h = refl
starts_of_append (x ∷ s) r [] h = cc
starts_of_append (x ∷ s) r (y ∷ t) h = ground (arith, starts_of_append s r t)

-- A prefix of a longer text is a prefix of the text, or goes beyond it.
pub starts-split :
    (t s r : Text) → starts t (s ++ r) ≡ true → starts t s ≡ false → starts s t ≡ true
unfolding starts
starts-split [] s r h n = cc
starts-split (x ∷ t) [] r h n = refl
starts-split (x ∷ t) (y ∷ s) r h n = ground (arith, starts-split t s r)

pub partial_from-bound : (t b : Text) (i : ℕ) → partial_from t b i ≤ i
unfolding partial_from
partial_from-bound t b zero = omega arith
partial_from-bound t b (suc i) = ground (arith, partial_from-bound t b i)

pub drop-cons : (n : ℕ) (c : ℕ) (s : Text) → 0 < n → drop n (c ∷ s) ≡ drop (n - 1) s
drop-cons zero c s h = absurd (omega arith)
drop-cons (suc n) c s h = ap (λ k. drop k s) (omega arith)

pub take-cons : (n : ℕ) (c : ℕ) (s : Text) → 0 < n → take n (c ∷ s) ≡ c ∷ take (n - 1) s
take-cons zero c s h = absurd (omega arith)
take-cons (suc n) c s h = ap (λ k. c ∷ take k s) (omega arith)

suffix_of_cons :
    (i : ℕ) (c : ℕ) (s : Text)
    → i ≤ length s
    → drop (length (c ∷ s) - i) (c ∷ s) ≡ drop (length s - i) s
suffix_of_cons i c s h =
    drop-cons (suc (length s) - i) c s (omega arith) ∙ ap (λ n. drop n s) (omega arith)

pub partial_from-cons :
    (t : Text) (c : ℕ) (s : Text) (i : ℕ)
    → i ≤ length s
    → partial_from t (c ∷ s) i ≡ partial_from t s i
unfolding partial_from
partial_from-cons t c s zero h = refl
partial_from-cons t c s (suc i) h =
    rw (suffix_of_cons (suc i) c s h, partial_from-cons t c s i (omega arith)) refl

pub length-tag_of : (span : Bool) → 0 < length (tag_of span)
unfolding tag_of
length-tag_of true = omega arith
length-tag_of false = omega arith

pub length-map : (f : ℕ → ℕ) (s : Text) → length (map f s) ≡ length s
length-map f [] = refl
length-map f (c ∷ s) = ap suc (length-map f s)

pub map-append : (f : ℕ → ℕ) (s r : Text) → map f (s ++ r) ≡ map f s ++ map f r
map-append f [] r = refl
map-append f (c ∷ s) r = ap (◌∷◌ (f c)) (map-append f s r)

pub map-drop : (f : ℕ → ℕ) (n : ℕ) (s : Text) → drop n (map f s) ≡ map f (drop n s)
map-drop f zero s = refl
map-drop f (suc n) [] = refl
map-drop f (suc n) (c ∷ s) = map-drop f n s

abbrev pub held : Bool → Text → Scrubber
held span s = record { in_span = span; buf = s }

-- `low` is the lower case of one character.
module _ (low : ℕ → ℕ) where
  abbrev pub at_tag : Bool → Text → Bool
  at_tag span s = starts (tag_of span) (map low s)

  -- The whole of `s` may be the start of a tag.
  abbrev pub in_tag : Bool → Text → Bool
  in_tag span s = starts (map low s) (tag_of span)

  -- The text read from left to right, the first `skip` characters being the rest of a tag: at a whole
  -- tag a span starts or ends, a rest that may become a tag is held, and another character is shown
  -- unless it is in a span.
  unfoldable pub scrub : ℕ → Bool → Text → Scrubber × Text
  scrub skip span [] = (held span [], [])
  scrub (suc skip) span (c ∷ s) = scrub skip span s
  scrub zero span (c ∷ s) =
      let past = scrub (length (tag_of span) - 1) (not span) s in
      let later = after (outside span (c ∷ [])) (scrub 0 span s) in
      if at_tag span (c ∷ s)
      then past
      else if in_tag span (c ∷ s)
      then (held span (c ∷ s), [])
      else later

  pub scrub-skip : (n : ℕ) (span : Bool) (s : Text) → scrub n span s ≡ scrub 0 span (drop n s)
  unfolding scrub
  scrub-skip zero span s = refl
  scrub-skip (suc n) span [] = refl
  scrub-skip (suc n) span (c ∷ s) = scrub-skip n span s

  pub scrub-at_tag :
      (span : Bool) (s : Text)
      → at_tag span s ≡ true
      → scrub 0 span s ≡ scrub 0 (not span) (drop (length (tag_of span)) s)
  unfolding scrub
  scrub-at_tag span [] h =
      absurd (omega (arith, starts-length (tag_of span) [] h, length-tag_of span))
  scrub-at_tag span (c ∷ s) h = rw h (
      scrub-skip (length (tag_of span) - 1) (not span) s
      ∙ ap (scrub 0 (not span)) (sym (drop-cons (length (tag_of span)) c s (length-tag_of span))))

  pub scrub-in_tag :
      (span : Bool) (s : Text)
      → at_tag span s ≡ false
      → in_tag span s ≡ true
      → scrub 0 span s ≡ (held span s, [])
  unfolding scrub
  scrub-in_tag span [] h g = refl
  scrub-in_tag span (c ∷ s) h g = rw (h, g) refl

  pub scrub_past :
      (span : Bool) (c : ℕ) (s : Text)
      → at_tag span (c ∷ s) ≡ false
      → in_tag span (c ∷ s) ≡ false
      → scrub 0 span (c ∷ s) ≡ after (outside span (c ∷ [])) (scrub 0 span s)
  unfolding scrub
  scrub_past span c s h g = rw (h, g) refl
