-- ===== src/History/Trim.antt =====
-- The cut of old turns: it succeeds, keeps every message that carries a call, and bounds the turns.
use mathlib.Core.Option.{some-injective}
use park_smart_harness.Base.{
  ℕ, zero, suc, ◌+◌, ◌-◌, ◌≤◌, ◌<◌, ◌≡◌, refl, sym, ap, ◌∙◌, Bool, true, false, some, List, [], ◌∷◌,
  ◌++◌, arith, leb, leb→lt, leb→le, length, length-append, filter, count, filter-append, take, drop,
  take-drop, get_elem?, Bool-cases, inl, inr,
}
use park_smart_harness.Message.{Message}
use park_smart_harness.History.{
  must_keep, opens_turn, starts_of, turn_starts, elision, trim_dialogue_turns,
}

in_range {ℓ} :
    {A : Type ℓ} (xs : List A) (k : ℕ) → k < length xs → (x : A) × (get_elem? xs k ≡ some x)
in_range [] k h = absurd (omega arith)
in_range (x ∷ xs) zero h = (x, refl)
in_range (x ∷ xs) (suc k) h = in_range xs k (omega arith)

module _ (p : Message → Bool) where
  -- The `k`-th start is a message that passes the test, with `k` such messages before it.
  pub start_split :
      (i k j : ℕ) (ms : List Message)
      → get_elem? (starts_of p i ms) k ≡ some j
      → (n : ℕ) × (m : Message) × (later : List Message) × (j ≡ i + n)
        × (drop n ms ≡ m ∷ later)
        × (p m ≡ true)
        × (count p (take n ms) ≡ k)
  unfolding starts_of
  start_split i k j [] h = cc
  start_split i zero j (m ∷ ms) h = elim (Bool-cases (p m)) [
    | inl e ↦
        let here : some i ≡ some j = rw e at h in
        (0, m, ms, sym (some-injective _ _ here) ∙ omega arith, refl, e, refl)
    | inr e ↦
        let (n, u, later, a, b, c, d) = start_split (suc i) zero j ms (rw e at h) in
        (suc n, u, later, omega arith, b, c, rw e d)
  ]
  start_split i (suc k) j (m ∷ ms) h = elim (Bool-cases (p m)) [
    | inl e ↦
        let (n, u, later, a, b, c, d) = start_split (suc i) k j ms (rw e at h) in
        (suc n, u, later, omega arith, b, c, rw e (ap suc d))
    | inr e ↦
        let (n, u, later, a, b, c, d) = start_split (suc i) (suc k) j ms (rw e at h) in
        (suc n, u, later, omega arith, b, c, rw e d)
  ]

  pub get_elem?-starts :
      (i k : ℕ) (ms : List Message)
      → k < length (starts_of p i ms)
      → (j : ℕ) × (get_elem? (starts_of p i ms) k ≡ some j)
  get_elem?-starts i k ms h = in_range (starts_of p i ms) k h

  pub length-starts : (i : ℕ) (ms : List Message) → length (starts_of p i ms) ≡ count p ms
  unfolding starts_of
  length-starts i [] = refl
  length-starts i (m ∷ ms) = ground (arith, length-starts (suc i) ms)

module _ {ℓ} {A : Type ℓ} where
  take-nil : (n : ℕ) → ◌≡◌ {A = List A} (take n []) []
  take-nil zero = refl
  take-nil (suc n) = refl

  drop-take : (lo hi d : ℕ) (xs : List A) → hi ≡ lo + d → drop lo (take hi xs) ≡ take d (drop lo xs)
  drop-take zero hi d xs h = let same : hi ≡ d = omega arith in ap (λ (n : ℕ). take n xs) same
  drop-take (suc lo) zero d xs h = absurd (omega arith)
  drop-take (suc lo) (suc hi) d [] h = sym (take-nil d)
  drop-take (suc lo) (suc hi) d (x ∷ xs) h = drop-take lo hi d xs (omega arith)

  pub slices :
      (lo hi : ℕ) (xs : List A) → lo ≤ hi → take lo xs ++ (drop lo (take hi xs) ++ drop hi xs) ≡ xs
  slices zero hi xs h = take-drop hi xs
  slices (suc lo) zero xs h = absurd (omega arith)
  slices (suc lo) (suc hi) [] h = refl
  slices (suc lo) (suc hi) (x ∷ xs) h = ap (◌∷◌ x) (slices lo hi xs (omega arith))

  pub count-take_mono :
      (p : A → Bool) (m n : ℕ) (xs : List A) → m ≤ n → count p (take m xs) ≤ count p (take n xs)
  count-take_mono p zero n xs h = omega arith
  count-take_mono p (suc m) zero xs h = absurd (omega arith)
  count-take_mono p (suc m) (suc n) [] h = omega arith
  count-take_mono p (suc m) (suc n) (x ∷ xs) h =
      ground (arith, count-take_mono p m n xs (omega arith))

  pub count-append : (p : A → Bool) (xs ys : List A) → count p (xs ++ ys) ≡ count p xs + count p ys
  count-append p xs ys =
      ap length (filter-append p xs ys) ∙ length-append (filter p xs) (filter p ys)

-- A sequence with more turns than are kept: the parts of it, and what the cut leaves.
pub record Parts (recent first : ℕ) (ms : List Message) : Type 0 where
  pub head : List Message
  pub opener : Message
  pub middle : List Message
  pub next : Message
  pub rest : List Message
  pub whole : ms ≡ head ++ ((opener ∷ middle) ++ (next ∷ rest))
  pub opener_is : opens_turn opener ≡ true
  pub next_is : opens_turn next ≡ true
  pub head_turns : count opens_turn head ≡ first
  pub rest_turns : count opens_turn (next ∷ rest) ≡ recent
  pub left :
      trim_dialogue_turns recent first ms
      ≡ some (
          head
          ++ elision (length (turn_starts ms) - recent - first)
            ∷ (filter must_keep (opener ∷ middle) ++ (next ∷ rest)))

no_later :
    (n n' recent first : ℕ) (ms : List Message)
    → count opens_turn (take n ms) ≡ first
    → count opens_turn (take n' ms) ≡ length (turn_starts ms) - recent
    → length (turn_starts ms) ≡ count opens_turn ms
    → 0 < recent
    → first + recent < count opens_turn ms
    → n < n'
no_later n n' recent first ms d d' turns pos more = elim (Bool-cases (leb n' n)) [
  | inl e ↦ let below = count-take_mono opens_turn n' n ms (leb→le n' n e) in absurd (omega arith)
  | inr e ↦ leb→lt n' n e
]

module _ (recent first : ℕ) (ms : List Message) (pos : 0 < recent)
    (more : first + recent < count opens_turn ms) where
  Parts-at :
      (n n' : ℕ) (u v : Message) (us vs : List Message)
      → get_elem? (turn_starts ms) first ≡ some n
      → get_elem? (turn_starts ms) (length (turn_starts ms) - recent) ≡ some n'
      → drop n ms ≡ u ∷ us
      → drop n' ms ≡ v ∷ vs
      → opens_turn u ≡ true
      → opens_turn v ≡ true
      → count opens_turn (take n ms) ≡ first
      → count opens_turn (take n' ms) ≡ length (turn_starts ms) - recent
      → Parts recent first ms
  unfolding trim_dialogue_turns
  Parts-at n n' u v us vs elo ehi b b' c c' d d' =
      let turns = length-starts opens_turn 0 ms in
      let later = no_later n n' recent first ms d d' turns pos more in
      let gap : n' ≡ n + suc (n' - n - 1) = omega arith in
      let mid : drop n (take n' ms) ≡ u ∷ take (n' - n - 1) us =
        drop-take n n' (suc (n' - n - 1)) ms gap ∙ ap (take (suc (n' - n - 1))) b in
      let test : leb (length (turn_starts ms)) (first + recent) ≡ false = ground (arith, turns) in
      record {
        head = take n ms;
        opener = u;
        middle = take (n' - n - 1) us;
        next = v;
        rest = vs;
        whole = sym (rw (mid, b') at (slices n n' ms (omega arith)));
        opener_is = c;
        next_is = c';
        head_turns = d;
        rest_turns = omega (
          arith,
          count-append opens_turn (take n' ms) (drop n' ms),
          ap (count opens_turn) (take-drop n' ms),
          ap (count opens_turn) b',
        );
        left = rw (test, elo, ehi, mid, b') refl;
      }

  pub parts : Parts recent first ms
  parts =
      let turns = length-starts opens_turn 0 ms in
      let (lo, elo) = get_elem?-starts opens_turn 0 first ms (omega arith) in
      let (hi, ehi) =
        get_elem?-starts opens_turn 0 (length (turn_starts ms) - recent) ms (omega arith) in
      let (n, u, us, a, b, c, d) = start_split opens_turn 0 first lo ms elo in
      let (n', v, vs, a', b', c', d') =
        start_split opens_turn 0 (length (turn_starts ms) - recent) hi ms ehi in
      let lo_is : lo ≡ n = omega arith in
      let hi_is : hi ≡ n' = omega arith in
      Parts-at n n' u v us vs (elo ∙ ap some lo_is) (ehi ∙ ap some hi_is) b b' c c' d d'
