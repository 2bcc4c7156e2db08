-- ===== src/Gate/Laws.antt =====
-- The verdicts of the two gates, and what the loader shows the model.
use park_smart_harness.Base.{
  String, ◌≡◌, ◌≢◌, refl, ◌↔◌, true, false, Option, none, some, List, [], ◌∷◌, ◌==◌, arith, eq_iff,
  subst, Bool-cases, inl, inr,
}
use park_smart_harness.Message.{ToolCallReq}
use park_smart_harness.Tools.{LoopTool, ToolContext}
use park_smart_harness.Gate.{
  allow, ask, deny, ToolSpec, Catalog, permissions_of, member, find_spec, verdict_on,
  catalog_classify, selects, select_toolset,
}

module _ {W : Type 0} where
  allow_inv :
      (o : Option (ToolSpec W)) (tool : LoopTool W) (perms : List String)
      → verdict_on o tool perms ≡ allow
      → (s : ToolSpec W) × (o ≡ some s)
        × (member s.capability_code perms ≡ true)
        × (tool.is_control ≡ false)
  allow_inv none tool perms h = cc
  allow_inv (some s) tool perms h = (s, refl, ground arith, ground arith)

  ask_inv :
      (o : Option (ToolSpec W)) (tool : LoopTool W) (perms : List String)
      → verdict_on o tool perms ≡ ask
      → (s : ToolSpec W) × (o ≡ some s)
        × (member s.capability_code perms ≡ true)
        × (tool.is_control ≡ true)
  ask_inv none tool perms h = cc
  ask_inv (some s) tool perms h = (s, refl, ground arith, ground arith)

  permitted_or_deny :
      (o : Option (ToolSpec W)) (tool : LoopTool W) (perms : List String)
      → ((s : ToolSpec W) → o ≡ some s → member s.capability_code perms ≡ true → ⊥)
      → verdict_on o tool perms ≡ deny
  permitted_or_deny none tool perms h = refl
  permitted_or_deny (some s) tool perms h = ground (arith, h s refl)

module _ {W : Type 0} (c : Catalog W) where
  -- A registered tool whose capability is among the permissions.
  abbrev pub IsPermitted : String → List String → Type 0
  IsPermitted name perms =
      (s : ToolSpec W) × (find_spec c name ≡ some s) × (member s.capability_code perms ≡ true)

  module _ (call : ToolCallReq) (tool : LoopTool W) (ctx : ToolContext) where
    -- The catalog's gate is deny-first. A call is allowed exactly if its tool is registered, the
    -- caller holds its capability and it is no control; it waits for a confirmation exactly if
    -- the same holds of a control; it is denied exactly if it is not permitted, so a missing
    -- permission outweighs the confirmation.
    pub catalog_classify_iff :
        ((catalog_classify c call tool ctx ≡ allow)
          ↔ (IsPermitted call.name (permissions_of ctx.principal) × (tool.is_control ≡ false)))
        × ((catalog_classify c call tool ctx ≡ ask)
            ↔ (IsPermitted call.name (permissions_of ctx.principal) × (tool.is_control ≡ true)))
        × ((catalog_classify c call tool ctx ≡ deny)
            ↔ (¬ IsPermitted call.name (permissions_of ctx.principal)))
    unfolding catalog_classify
    catalog_classify_iff = (
      (λ h. let (s, e, m, k) = allow_inv _ tool _ h in ((s, e, m), k), λ p. rw (p.0.1, p.0.2, p.1)),
      (λ h. let (s, e, m, k) = ask_inv _ tool _ h in ((s, e, m), k), λ p. rw (p.0.1, p.0.2, p.1)),
      (λ h p. ground (arith, p.1, p.2), λ n. permitted_or_deny _ tool _ (λ s e m. n (s, e, m))),
    )

  selects_inv :
      (o : Option (ToolSpec W)) (perms : List String)
      → selects o perms ≡ true
      → (s : ToolSpec W) × (o ≡ some s) × (member s.capability_code perms ≡ true)
  selects_inv none perms h = cc
  selects_inv (some s) perms h = (s, refl, h)

  selects_here :
      (n name : String) (perms : List String)
      → n ≡ name
      → IsPermitted name perms
      → selects (find_spec c n) perms ≡ true
  selects_here n name perms e p = rw (e, p.1, p.2)

  shown :
      (name : String) (names perms : List String)
      → member name (select_toolset c names perms) ≡ true
      → (member name names ≡ true) × IsPermitted name perms
  unfolding select_toolset
  shown name [] perms h = cc
  shown name (n ∷ names) perms h = elim (Bool-cases (selects (find_spec c n) perms)) [
    | inr e ↦ let (m, p) = shown name names perms (rw e at h) in (ground arith, p)
    | inl e ↦ elim (Bool-cases (n == name)) [
      | inr ne ↦ let (m, p) = shown name names perms (ground arith) in (ground arith, p)
      | inl q ↦ (
        ground arith,
        subst (λ k. IsPermitted k perms) ((eq_iff n name).0 q) (selects_inv _ perms e),
      )
    ]
  ]

  shows :
      (name : String) (names perms : List String)
      → member name names ≡ true
      → IsPermitted name perms
      → member name (select_toolset c names perms) ≡ true
  unfolding select_toolset
  shows name [] perms h p = cc
  shows name (n ∷ names) perms h p = elim (Bool-cases (n == name)) [
    | inl q ↦ ground (arith, selects_here n name perms ((eq_iff n name).0 q) p)
    | inr ne ↦ ground (arith, shows name names perms (ground arith) p)
  ]

  -- The loader shows the model exactly the names of the given list that are permitted.
  pub select_toolset_iff :
      (name : String) (names perms : List String)
      → (member name (select_toolset c names perms) ≡ true)
        ↔ ((member name names ≡ true) × IsPermitted name perms)
  select_toolset_iff name names perms =
      (shown name names perms, λ h. shows name names perms h.0 h.1)

  -- A tool that the model was shown under some permissions is never denied under the same.
  shown_is_not_denied :
      (names : List String) (call : ToolCallReq) (tool : LoopTool W) (ctx : ToolContext)
      → member call.name (select_toolset c names (permissions_of ctx.principal)) ≡ true
      → catalog_classify c call tool ctx ≢ deny
  shown_is_not_denied names call tool ctx h e =
      (catalog_classify_iff call tool ctx).2.0 e (shown call.name names _ h).1
