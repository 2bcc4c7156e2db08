-- ===== src/PlanView/Render.antt =====
-- The plan as text: for which plans the rendering raises.
use park_smart_harness.Base.{
  ℕ, ◌≡◌, ◌↔◌, refl, sym, ◌∙◌, String, Bool, true, false, Option, none, some, List, [], ◌∷◌, any,
  arith, ◌||◌, not, ltb, leb, length, if◌then◌else◌,
}
use park_smart_harness.Json.{Json, null, bool, int, float, str, arr, obj, list_of, entries}
use park_smart_harness.Plan.{PlanItem, PlanState}
use park_smart_harness.Loop.Turn.{is_empty}
use park_smart_harness.PlanView.{
  is_zero, symbol, Shown, nothing, shown, type_error, shown_if, shown_result, line_of, item_line,
  cons_line, item_lines, shown_items, laid_out, render_plan, text_of_json,
}

-- A status that is no key.
abbrev pub no_key : Json → Bool
no_key (arr vs) = true
no_key (obj d) = true
no_key _ = false

module _ (is_zero_float : String → Bool) where
  -- A result that the rendering cannot measure: a number other than zero, `true`, or a list or a
  -- dict with more than `max` elements.
  abbrev pub no_length : ℕ → Json → Bool
  no_length max null = false
  no_length max (bool b) = b
  no_length max (int z) = not (is_zero z)
  no_length max (float l) = not (is_zero_float l)
  no_length max (str s) = false
  no_length max (arr vs) = ltb max (length (list_of vs))
  no_length max (obj d) = ltb max (length (entries d))

  abbrev pub unreadable : ℕ → PlanItem → Bool
  unreadable max it = no_key it.status || no_length max it.result

module _ (repr : Json → String) (z : String → Bool) where
  abbrev fails : Shown → Bool
  fails type_error = true
  fails _ = false

  sized :
      {A : Type 0} (max : ℕ) (xs : List A) (r : String)
      → fails (if is_empty xs then nothing else shown_if (leb (length xs) max) r)
        ≡ ltb max (length xs)
  sized max [] r = ground arith
  sized max (x ∷ xs) r = ground arith

  fails-shown_result : (max : ℕ) (v : Json) → fails (shown_result repr z max v) ≡ no_length z max v
  unfolding shown_result
  fails-shown_result max null = refl
  fails-shown_result max (bool true) = refl
  fails-shown_result max (bool false) = refl
  fails-shown_result max (int n) = ground arith
  fails-shown_result max (float l) = ground arith
  fails-shown_result max (str s) = ground arith
  fails-shown_result max (arr vs) = sized max (list_of vs) (repr (arr vs))
  fails-shown_result max (obj d) = sized max (entries d) (repr (obj d))

  abbrev is_none {ℓ} : {A : Type ℓ} → Option A → Bool
  is_none none = true
  is_none (some a) = false

  no_symbol : (v : Json) → is_none (symbol v) ≡ no_key v
  no_symbol null = refl
  no_symbol (bool b) = refl
  no_symbol (int n) = refl
  no_symbol (float l) = refl
  no_symbol (str s) = refl
  no_symbol (arr vs) = refl
  no_symbol (obj d) = refl

  line_fails :
      (c : String) (o : Option String) (r : Shown)
      → is_none (line_of repr z c o r) ≡ (is_none o || fails r)
  line_fails c none r = refl
  line_fails c (some s) nothing = refl
  line_fails c (some s) (shown t) = refl
  line_fails c (some s) type_error = refl

  item_line_fails :
      (max : ℕ) (it : PlanItem) → is_none (item_line repr z max it) ≡ unreadable z max it
  unfolding item_line
  item_line_fails max it = ground (
    arith,
    line_fails (text_of_json repr it.content) (symbol it.status)
        (shown_result repr z max it.result),
    no_symbol it.status,
    fails-shown_result max it.result,
  )

  lines_fail :
      (o : Option String) (later : Option (List String))
      → is_none (cons_line repr z o later) ≡ (is_none o || is_none later)
  lines_fail none later = refl
  lines_fail (some l) none = refl
  lines_fail (some l) (some ls) = refl

  item_lines_fail :
      (max : ℕ) (its : PlanState) → is_none (item_lines repr z max its) ≡ any (unreadable z max) its
  unfolding item_lines
  item_lines_fail max [] = refl
  item_lines_fail max (it ∷ its) = ground (
    arith,
    lines_fail (item_line repr z max it) (item_lines repr z max its),
    item_line_fails max it,
    item_lines_fail max its,
  )

  laid_out_fails :
      (n : ℕ) (its : PlanState) (ls : Option (List String))
      → is_none (laid_out repr z n its ls) ≡ is_none ls
  laid_out_fails n its none = refl
  laid_out_fails n its (some ls) = refl

  of_none : {A : Type 0} (o : Option A) → (o ≡ none) ↔ (is_none o ≡ true)
  of_none none = (λ e. refl, λ e. refl)
  of_none (some a) = (λ e. cc, λ e. cc)

  none_shown : (n max : ℕ) → any (unreadable z max) (shown_items repr z n []) ≡ false
  unfolding shown_items
  none_shown n max = ground arith

  -- The rendering of a plan raises exactly if a shown item has a list or a dict for its status, or a
  -- result that is a number other than zero, `true`, or a list or dict of too many elements.
  pub render_plan_raises_iff :
      (max_items max_chars : ℕ) (its : PlanState)
      → (render_plan repr z max_items max_chars its ≡ none)
        ↔ (any (unreadable z max_chars) (shown_items repr z max_items its) ≡ true)
  unfolding render_plan
  render_plan_raises_iff n max [] = (λ e. cc, λ e. let no = none_shown n max in cc)
  render_plan_raises_iff n max (it ∷ its) =
      let ls = item_lines repr z max (shown_items repr z n (it ∷ its)) in
      let same =
        laid_out_fails n (it ∷ its) ls ∙ item_lines_fail max (shown_items repr z n (it ∷ its)) in
      (
        λ e. sym same ∙ (of_none (laid_out repr z n (it ∷ its) ls)).0 e,
        λ e. (of_none (laid_out repr z n (it ∷ its) ls)).1 (same ∙ e),
      )
