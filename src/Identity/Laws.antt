-- ===== src/Identity/Laws.antt =====
-- What a login grants, and what the loader and the gate make of it.
use park_smart_harness.Base.{
  String, ◌≡◌, refl, sym, ◌∙◌, ◌↔◌, Bool, true, false, Option, none, some, List, [], ◌∷◌, ◌++◌,
  ◌==◌, ◌&&◌, ◌||◌, not, filter, arith, eq_iff, subst, ap, if◌then◌else◌, Bool-cases, inl, inr,
}
use park_smart_harness.Base.Assoc.{lookup}
use park_smart_harness.Message.{ToolCallReq}
use park_smart_harness.Tools.{LoopTool, ToolContext}
use park_smart_harness.Gate.{deny, ToolSpec, member, find_spec, catalog_classify}
use park_smart_harness.Gate.Laws.{IsPermitted, catalog_classify_iff, select_toolset_iff}
use park_smart_harness.Ground.{Fetched, fetched, backend_error}
use park_smart_harness.Identity.{
  OrgPolicy, listed, denied, apply_policy, distinct, insert_code, sorted, mapped_by, tightened,
  resolve_capabilities, Login, granted_codes, ParkToolRuntime, login, toolset_for,
}

member-insert_code :
    (k c : String) (cs : List String) → member k (insert_code c cs) ≡ (c == k || member k cs)
unfolding insert_code
member-insert_code k c [] = refl
member-insert_code k c (d ∷ ds) = ground (arith, member-insert_code k c ds)

member-sorted : (k : String) (cs : List String) → member k (sorted cs) ≡ member k cs
unfolding sorted
member-sorted k [] = refl
member-sorted k (c ∷ cs) = ground (arith, member-insert_code k c (sorted cs), member-sorted k cs)

-- What is kept or dropped does not matter where the code itself is asked for.
kept_or_there :
    (k c : String) (cs : List String)
    → c == k ≡ true
    → member k (if member c cs then cs else c ∷ cs) ≡ true
kept_or_there k c cs e = elim (Bool-cases (member c cs)) [
  | inl m ↦ ground (arith, subst (λ x. member x cs ≡ true) ((eq_iff c k).0 e) m)
  | inr n ↦ ground arith
]

member-distinct : (k : String) (cs : List String) → member k (distinct cs) ≡ member k cs
unfolding distinct
member-distinct k [] = refl
member-distinct k (c ∷ cs) = elim (Bool-cases (c == k)) [
  | inr ne ↦ ground (arith, member-distinct k cs)
  | inl e ↦ ground (arith, kept_or_there k c (distinct cs) e)
]

member-filter :
    (p : String → Bool) (k : String) (cs : List String)
    → member k (filter p cs) ≡ (member k cs && p k)
member-filter p k [] = refl
member-filter p k (c ∷ cs) = elim (Bool-cases (c == k)) [
  | inr ne ↦ ground (arith, member-filter p k cs)
  | inl e ↦ ground (arith, member-filter p k cs, ap p ((eq_iff c k).0 e))
]

member-append :
    (k : String) (cs ds : List String) → member k (cs ++ ds) ≡ (member k cs || member k ds)
member-append k [] ds = refl
member-append k (c ∷ cs) ds = ground (arith, member-append k cs ds)

-- The policy lists the code for the role or for every role; without a policy nothing is denied.
abbrev pub is_denied : Option OrgPolicy → String → String → Bool
is_denied none role_key code = false
is_denied (some policy) role_key code =
    member code (listed (lookup "*" policy.deny_by_role))
    || member code (listed (lookup role_key policy.deny_by_role))

member-denied :
    (policy : OrgPolicy) (role_key k : String)
    → member k (denied policy role_key) ≡ is_denied (some policy) role_key k
unfolding denied
member-denied policy role_key k =
    member-append k (listed (lookup "*" policy.deny_by_role))
      (listed (lookup role_key policy.deny_by_role))

member-tightened :
    (policy : Option OrgPolicy) (role_key k : String) (cs : List String)
    → member k (tightened policy role_key cs) ≡ (member k cs && not (is_denied policy role_key k))
unfolding apply_policy
member-tightened none role_key k cs = grind arith
member-tightened (some policy) role_key k cs =
    member-filter (λ c. not (member c (denied policy role_key))) k cs
    ∙ ap (λ b. member k cs && not b) (member-denied policy role_key k)

member-resolve_capabilities :
    (raw : List String) (role_key : String) (mapper : Option (List String → List String))
    (policy : Option OrgPolicy) (k : String)
    → member k (resolve_capabilities raw role_key mapper policy)
      ≡ (member k (mapped_by mapper raw) && not (is_denied policy role_key k))
unfolding resolve_capabilities
member-resolve_capabilities raw role_key mapper policy k =
    member-sorted k _ ∙ member-distinct k _ ∙ member-tightened policy role_key k _

module _ {W : Type 0} (rt : ParkToolRuntime W) (l : Login) where
  -- The backend answered, the mapper makes the code of one of its codes, and the policy does not
  -- deny it to the role.
  abbrev pub IsGranted : String → Type 0
  IsGranted code =
      (raw : List String) × (rt.user_info l.username l.park_id l.token ≡ fetched raw)
      × (member code (rt.mapper raw) ≡ true)
      × (is_denied rt.org_policy l.role_key code ≡ false)

  module _ (mapper_nil : rt.mapper [] ≡ []) where
    no_more :
        (answer : Fetched (List String)) (code : String)
        → rt.user_info l.username l.park_id l.token ≡ answer
        → (member code (rt.mapper (granted_codes answer))
            && not (is_denied rt.org_policy l.role_key code))
          ≡ true
        → IsGranted code
    no_more (fetched raw) code e m = (raw, e, grind arith, grind arith)
    no_more (backend_error number text) code e m = grind (arith, mapper_nil)

    answered :
        (raw : List String) (code : String)
        → rt.user_info l.username l.park_id l.token ≡ fetched raw
        → member code (rt.mapper raw) ≡ true
        → is_denied rt.org_policy l.role_key code ≡ false
        → (member code (rt.mapper (granted_codes (rt.user_info l.username l.park_id l.token)))
            && not (is_denied rt.org_policy l.role_key code))
          ≡ true
    answered raw code e m d = rw (e, m, d)

    -- The permissions of a login are the granted codes.
    login_iff : (code : String) → (member code (login rt l).permissions ≡ true) ↔ IsGranted code
    unfolding login
    login_iff code =
        let q =
          member-resolve_capabilities (granted_codes (rt.user_info l.username l.park_id l.token))
            l.role_key (some rt.mapper) rt.org_policy code in
        (λ m. no_more _ code refl (sym q ∙ m), λ (raw, e, m, d). q ∙ answered raw code e m d)

    -- A registered tool whose capability the login grants.
    abbrev pub IsReachable : String → Type 0
    IsReachable name =
        (s : ToolSpec W) × (find_spec rt.catalog name ≡ some s) × IsGranted s.capability_code

    in_reach :
        (name : String) → IsPermitted rt.catalog name (login rt l).permissions ↔ IsReachable name
    in_reach name = (
      λ (s, e, m). (s, e, (login_iff s.capability_code).0 m),
      λ (s, e, g). (s, e, (login_iff s.capability_code).1 g),
    )

    -- After a login, under a mapper that makes no code of none, a tool is reachable if it is
    -- registered, the backend answered, the mapper makes its capability of one of the answered
    -- codes, and the policy does not deny it to the role. The loader shows exactly the reachable
    -- tools of the top toolset, and the gate denies exactly the calls of unreachable tools.
    pub login_governs :
        (name : String) (call : ToolCallReq) (tool : LoopTool W) (ctx : ToolContext)
        → ((member name (toolset_for rt (login rt l)) ≡ true)
            ↔ ((member name rt.toolset ≡ true) × IsReachable name))
          × ((catalog_classify rt.catalog call tool (record ctx { principal = some (login rt l) })
                ≡ deny)
              ↔ (¬ IsReachable call.name))
    unfolding toolset_for
    login_governs name call tool ctx =
        let (shows, hides) = select_toolset_iff rt.catalog name rt.toolset _ in
        let (denies, refuses) =
          (catalog_classify_iff rt.catalog call tool
            (record ctx { principal = some (login rt l) })).2 in
        (
          (
            λ h. let (m, p) = shows h in (m, (in_reach name).0 p),
            λ (m, r). hides (m, (in_reach name).1 r),
          ),
          (λ h r. denies h ((in_reach _).1 r), λ n. refuses (λ p. n ((in_reach _).0 p))),
        )
