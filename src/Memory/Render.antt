-- ===== src/Memory/Render.antt =====
-- The rendered memory stays within its budget and takes the entries in their order.
use park_smart_harness.Base.{
  ℕ, ◌+◌, ◌≤◌, ◌≡◌, refl, ap, String, ◌<>◌, List, [], ◌∷◌, ◌++◌, map, arith, chars, ltb, Bool-cases,
  inl, inr, nil-append, cons-append,
}
use park_smart_harness.Compaction.Compactor.{join_with}
use park_smart_harness.Memory.{MemoryEntry, entry_line, fitting}

chars-append : (s t : String) → chars (s <> t) ≡ chars s + chars t
unfolding chars
chars-append String.[] t = rw (nil-append t) (omega arith)
chars-append (String.◌∷◌ c s) t = rw (cons-append c s t) (omega (arith, chars-append s t))

abbrev sizes : List String → ℕ
sizes [] = 0
sizes (l ∷ ls) = chars l + 1 + sizes ls

join_sizes : (ls : List String) → chars (join_with "\n" ls) ≤ sizes ls
unfolding chars
join_sizes [] = omega arith
join_sizes (l ∷ []) = omega arith
join_sizes (l ∷ k ∷ ls) = omega (
  arith,
  chars-append l ("\n" <> join_with "\n" (k ∷ ls)),
  chars-append "\n" (join_with "\n" (k ∷ ls)),
  join_sizes (k ∷ ls),
)

module _ (strip_fence : String → String) (max : ℕ) where
  fitting-sizes :
      (used : ℕ) (es : List MemoryEntry)
      → used ≤ max
      → used + sizes (fitting strip_fence max used es) ≤ max
  unfolding fitting
  fitting-sizes used [] h = omega arith
  fitting-sizes used (e ∷ es) h =
      ground (arith, fitting-sizes (used + chars (entry_line strip_fence e) + 1) es)

  fitting_prefix :
      (used : ℕ) (es : List MemoryEntry)
      → (rest : List String) × (map (entry_line strip_fence) es
          ≡ fitting strip_fence max used es ++ rest)
  unfolding fitting
  fitting_prefix used [] = ([], refl)
  fitting_prefix used (e ∷ es) =
      elim (Bool-cases (ltb max (used + chars (entry_line strip_fence e) + 1))) [
        | inl q ↦ rw q (map (entry_line strip_fence) (e ∷ es), refl)
        | inr q ↦
            let (rest, p) = fitting_prefix (used + chars (entry_line strip_fence e) + 1) es in
            rw q (rest, ap (◌∷◌ (entry_line strip_fence e)) p)
      ]

  -- The lines of memory that are rendered are the first ones, in their order, and they and the line
  -- breaks between them have at most `max` characters.
  pub memory_within_budget :
      (es : List MemoryEntry)
      → (chars (join_with "\n" (fitting strip_fence max 0 es)) ≤ max)
        × ((rest : List String) × (map (entry_line strip_fence) es
              ≡ fitting strip_fence max 0 es ++ rest))
  memory_within_budget es = (
    omega (arith, join_sizes (fitting strip_fence max 0 es), fitting-sizes 0 es),
    fitting_prefix 0 es,
  )
