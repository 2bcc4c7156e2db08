-- ===== src/Ground/Safe.antt =====
-- What a grounded control guarantees: it is a fixed door action, or a write that the dictionary allows.
use mathlib.Core.List.{Memᴰ}
use mathlib.Core.Option.{some-injective}
use park_smart_harness.Base.{
  ◌≡◌, inl, inr, refl, sym, ◌∙◌, subst, String, Bool, true, false, Option, none, some, List, [],
  ◌∷◌, filter, nonempty, strip, contains, Bool-cases, Option-cases,
}
use park_smart_harness.Json.{Json, Dict}
use park_smart_harness.Loop.Turn.{is_empty}
use park_smart_harness.Compaction.{find}
use park_smart_harness.Ground.{
  ParamType, text_at, match_param, match_name, is_choice, or_first, by_number, by_status,
}
use park_smart_harness.Ground.Control.{
  Texts, Resolved, value_of, unresolved, value_from, below, above, in_range, has_range,
  resolve_value,
}

find-Mem :
    {A : Type 0} (p : A → Bool) (xs : List A) (x : A)
    → find p xs ≡ some x
    → Memᴰ x xs × (p x ≡ true)
find-Mem p [] x h = cc
find-Mem p (y ∷ ys) x h = elim (Bool-cases (p y)) [
  | inl e ↦
      let same : y ≡ x = some-injective _ _ (rw e at h) in
      (Memᴰ.head (sym same), subst (λ z. p z ≡ true) same e)
  | inr e ↦ let later = find-Mem p ys x (rw e at h) in (Memᴰ.tail later.0, later.1)
]

still_there :
    {A : Type 0} (x y : A) (ys zs : List A)
    → (Memᴰ x ys → Memᴰ x zs)
    → Memᴰ x (y ∷ ys)
    → Memᴰ x (y ∷ zs)
still_there x y ys zs f (Memᴰ.head e) = Memᴰ.head e
still_there x y ys zs f (Memᴰ.tail m) = Memᴰ.tail (f m)

filter-Mem : {A : Type 0} (p : A → Bool) (xs : List A) (x : A) → Memᴰ x (filter p xs) → Memᴰ x xs
filter-Mem p [] x h = h
filter-Mem p (y ∷ ys) x h = elim (Bool-cases (p y)) [
  | inl e ↦ still_there x y (filter p ys) ys (filter-Mem p ys x) (rw e at h)
  | inr e ↦ Memᴰ.tail (filter-Mem p ys x (rw e at h))
]

module _ (repr : Json → String) (z : String → Bool) where
  or_first-Mem :
      (hits : List ParamType) (o : Option ParamType) (p : ParamType)
      → ((q : ParamType) → o ≡ some q → Memᴰ q hits)
      → or_first repr z hits o ≡ some p
      → Memᴰ p hits
  or_first-Mem hits (some q) p f h = f p h
  or_first-Mem [] none p f h = cc
  or_first-Mem (q ∷ qs) none p f h = Memᴰ.head (sym (some-injective _ _ h))

  match_name-Mem :
      (key : String) (ps : List ParamType) (p : ParamType)
      → match_name repr z key ps ≡ some p
      → Memᴰ p ps
  match_name-Mem key ps p h =
      let hits = filter (λ q. contains q.param_type_name key) ps in
      elim (Bool-cases (is_empty hits)) [
        | inl e ↦ (find-Mem (by_status repr z key) ps p (rw e at h)).0
        | inr e ↦
            filter-Mem (λ q. contains q.param_type_name key) ps p
              (or_first-Mem hits (find (λ q. q.is_ctrl) hits) p
                (λ q g. (find-Mem (λ r. r.is_ctrl) hits q g).0) (rw e at h))
      ]

  pub match_param-Mem :
      (ps : List ParamType) (key : String) (p : ParamType)
      → match_param repr z ps key ≡ some p
      → Memᴰ p ps
  unfolding match_param
  match_param-Mem ps key p h = elim (Bool-cases (nonempty (strip key))) [
    | inl e ↦ elim (Option-cases (find (by_number repr z (strip key)) ps)) [
      | inl n ↦ match_name-Mem (strip key) ps p (rw (e, n) at h)
      | inr f ↦
          let (q, g) = f in
          let same : some q ≡ some p = rw (e, g) at h in
          (find-Mem (by_number repr z (strip key)) ps p (g ∙ same)).0
    ]
    | inr e ↦ let no : none ≡ some p = rw e at h in absurd (cc)
  ]

module _ {Num : Type 0} (texts : Texts Num) where
  -- The value of a write is one that the dictionary allows: a listed state that is able, or a number
  -- that is not under the least and not over the greatest, where there is one of the two.
  pub data Allowed (p : ParamType) (wanted value status : String) : Type 0 where
    listed :
        (d : Dict)
        → Memᴰ d p.param_statuses
        → is_choice texts.repr texts.is_zero_float wanted d ≡ true
        → value ≡ text_at texts.repr texts.is_zero_float "paramValue" d
        → status ≡ text_at texts.repr texts.is_zero_float "status" d
        → Allowed p wanted value status
    ranged :
        (v : Num)
        → texts.num (strip wanted) ≡ some v
        → has_range texts p ≡ true
        → below texts (texts.num (strip p.min_value)) v ≡ false
        → above texts (texts.num (strip p.max_value)) v ≡ false
        → value ≡ wanted
        → status ≡ wanted
        → Allowed p wanted value status

  abbrev pub WhenValue : (String → String → Type 0) → Resolved → Type 0
  WhenValue P (value_of value status) = P value status
  WhenValue P (unresolved r) = Unit {0}

  in_range-Allowed :
      (p : ParamType) (wanted : String)
      → has_range texts p ≡ true
      → WhenValue (Allowed p wanted) (in_range texts p wanted (texts.num (strip wanted)))
  in_range-Allowed p wanted r = elim (Option-cases (texts.num (strip wanted))) [
    | inl e ↦ rw e tt
    | inr f ↦
        let (v, e) = f in
        rw e (elim (Bool-cases (below texts (texts.num (strip p.min_value)) v)) [
          | inl u ↦ rw u tt
          | inr u ↦ elim (Bool-cases (above texts (texts.num (strip p.max_value)) v)) [
            | inl o ↦ rw (u, o) tt
            | inr o ↦ rw (u, o) (ranged v e r u o refl refl)
          ]
        ])
  ]

  value_from-Allowed :
      (p : ParamType) (wanted : String)
      → WhenValue (Allowed p wanted) (
          value_from texts wanted
            (find (is_choice texts.repr texts.is_zero_float wanted) p.param_statuses))
  value_from-Allowed p wanted =
      elim (Option-cases
        (find (is_choice texts.repr texts.is_zero_float wanted) p.param_statuses)) [
          | inl e ↦ rw e tt
          | inr f ↦
              let (d, e) = f in
              let found =
                find-Mem (is_choice texts.repr texts.is_zero_float wanted) p.param_statuses d e in
              rw e (listed d found.0 found.1 refl refl)
        ]

  pub resolve_value-Allowed :
      (p : ParamType) (value : String)
      → WhenValue (Allowed p (strip value)) (resolve_value texts p value)
  unfolding resolve_value
  resolve_value-Allowed p value = elim (Bool-cases (is_empty p.param_statuses)) [
    | inr e ↦ rw e (value_from-Allowed p (strip value))
    | inl e ↦ elim (Bool-cases (has_range texts p)) [
      | inl r ↦ rw (e, r) (in_range-Allowed p (strip value) r)
      | inr r ↦ rw (e, r) tt
    ]
  ]
