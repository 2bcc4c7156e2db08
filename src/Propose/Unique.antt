-- ===== src/Propose/Unique.antt =====
-- A proposal is registered for one target, after its grounding; on every other path the store stays.
use park_smart_harness.Base.{
  ◌≡◌, ◌⊎◌, inl, inr, refl, String, true, false, arith, Option, List, [], ◌∷◌, ◌==◌, ◌&&◌, not,
  nonempty, filter, Bool-cases,
}
use park_smart_harness.Json.{Dict}
use park_smart_harness.Tools.{ToolResult, ToolContext}
use park_smart_harness.Proposal.{Proposals, put}
use park_smart_harness.Ground.{
  Grounded, Fetched, fetched, backend_error, Grounding, grounded, rejected, ReversibilityMap,
}
use park_smart_harness.Ground.Control.{Texts, ground_control}
use park_smart_harness.Ground.Checked.{IsChecked, ground_control-IsChecked}
use park_smart_harness.Propose.{
  DeviceHit, ProposeBackend, Coordinates, Target, located, unclear, token_of, filled, exact_hit,
  pick_hit, from_status, text_arg, given, name_given, locate, intent_of, proposal_of, registered,
  at_target, propose_control,
}

-- Of the devices that the backend names for the target, there is one, or one with exactly its name.
pub data Sole (target : String) (h : DeviceHit) : List DeviceHit → Type 0 where
  only : {hits : List DeviceHit} → hits ≡ h ∷ [] → Sole target h hits
  exact :
      {hits : List DeviceHit} → filter (λ d. d.name == target) hits ≡ h ∷ [] → Sole target h hits

module _ {Num : Type 0} (texts : Texts Num) (rmap : ReversibilityMap) (backend : ProposeBackend)
    (args : Dict) (token : Option String) where
  -- Where the coordinates of a proposal come from: they are the given ones, or the given ones
  -- filled from the one device of that name, which then gives the type of the point.
  pub data Located (c : Coordinates) : Type 0 where
    as_given : c ≡ given texts rmap backend args → Located c
    by_name :
        (hits : List DeviceHit) (h : DeviceHit)
        → backend.device_status (name_given texts rmap backend args) token ≡ fetched hits
        → Sole (name_given texts rmap backend args) h hits
        → c ≡ filled (given texts rmap backend args) h
        → c.point_type_id ≡ h.point_type_id
        → Located c

  abbrev pub WhenLocated : Target → Type 0
  WhenLocated (unclear e) = Unit {0}
  WhenLocated (located c) = Located c

  exact_hit-Located :
      (hits exacts : List DeviceHit)
      → nonempty (text_arg texts rmap backend "point_type_id" args) ≡ false
      → backend.device_status (name_given texts rmap backend args) token ≡ fetched hits
      → filter (λ d. d.name == name_given texts rmap backend args) hits ≡ exacts
      → WhenLocated (
          exact_hit
            (given texts rmap backend args)
            (name_given texts rmap backend args)
            hits
            exacts)
  exact_hit-Located hits [] o r e = tt
  exact_hit-Located hits (h ∷ []) o r e = by_name hits h r (exact e) refl (rw o refl)
  exact_hit-Located hits (h ∷ k ∷ hs) o r e = tt

  pick_hit-Located :
      (hits : List DeviceHit)
      → nonempty (text_arg texts rmap backend "point_type_id" args) ≡ false
      → backend.device_status (name_given texts rmap backend args) token ≡ fetched hits
      → WhenLocated
          (pick_hit (given texts rmap backend args) (name_given texts rmap backend args) hits)
  pick_hit-Located [] o r = tt
  pick_hit-Located (h ∷ []) o r = by_name (h ∷ []) h r (only refl) refl (rw o refl)
  pick_hit-Located (h ∷ k ∷ hs) o r =
      exact_hit-Located (h ∷ k ∷ hs)
        (filter (λ d. d.name == name_given texts rmap backend args) (h ∷ k ∷ hs)) o r refl

  from_status-Located :
      (f : Fetched (List DeviceHit))
      → nonempty (text_arg texts rmap backend "point_type_id" args) ≡ false
      → backend.device_status (name_given texts rmap backend args) token ≡ f
      → WhenLocated
          (from_status (given texts rmap backend args) (name_given texts rmap backend args) f)
  from_status-Located (backend_error code text) o r = tt
  from_status-Located (fetched hits) o r = pick_hit-Located hits o r

  locate-Located : WhenLocated (locate texts rmap backend args token)
  locate-Located =
      elim (Bool-cases (
        not (nonempty (text_arg texts rmap backend "point_type_id" args))
        && nonempty (name_given texts rmap backend args))) [
          | inl e ↦ rw e (
              from_status-Located (backend.device_status (name_given texts rmap backend args) token)
                (ground (arith, e)) refl)
          | inr e ↦ rw e (as_given refl)
        ]

module _ {Num : Type 0} (texts : Texts Num) (rmap : ReversibilityMap) (backend : ProposeBackend)
    (args : Dict) (ctx : ToolContext) (fresh : String) (store : Proposals) where
  -- A registered proposal: of coordinates that are located, and of an action that grounding has
  -- checked for them.
  pub record Registered (after : Proposals) : Type 0 where
    pub place : Coordinates
    pub action : Grounded
    pub sole : Located texts rmap backend args (token_of ctx.principal) place
    pub checked :
        IsChecked texts rmap false
          (intent_of texts rmap backend args place)
          backend.params
          (token_of ctx.principal)
          action
    pub stored : after ≡ (put fresh (proposal_of texts rmap backend args ctx action) store).1

  abbrev pub Outcome : ToolResult × Proposals → Type 0
  Outcome r = ((r.0.ok ≡ false) × (r.1 ≡ store)) ⊎ ((r.0.ok ≡ true) × Registered r.1)

  registered-Outcome :
      (c : Coordinates) (r : Grounding)
      → Located texts rmap backend args (token_of ctx.principal) c
      → ground_control texts rmap false
          (intent_of texts rmap backend args c)
          backend.params
          (token_of ctx.principal)
        ≡ r
      → Outcome (registered texts rmap backend args ctx fresh store r)
  registered-Outcome c (rejected r) l e = inl (refl, refl)
  registered-Outcome c (grounded g) l e = inr (
    refl,
    record {
      place = c;
      action = g;
      sole = l;
      checked =
          ground_control-IsChecked texts rmap false (intent_of texts rmap backend args c)
            backend.params (token_of ctx.principal) g e;
      stored = refl;
    },
  )

  at_target-Outcome :
      (t : Target)
      → WhenLocated texts rmap backend args (token_of ctx.principal) t
      → Outcome (at_target texts rmap backend args ctx fresh store t)
  at_target-Outcome (unclear e) l = inl (refl, refl)
  at_target-Outcome (located c) l = registered-Outcome c _ l refl

  -- The tool fails and leaves the store of proposals as it was, or it registers one proposal, whose
  -- action grounding has checked. Its coordinates are the given ones, or they are found by name: the
  -- backend names one device for the target, or one with exactly that name, and each coordinate that
  -- the model gave stays, beside those of the device for the ones that it left empty. The type of the
  -- point is then the device's.
  pub propose_control-Outcome : Outcome (propose_control texts rmap backend args ctx fresh store)
  unfolding propose_control
  propose_control-Outcome =
      at_target-Outcome (locate texts rmap backend args (token_of ctx.principal))
        (locate-Located texts rmap backend args (token_of ctx.principal))
