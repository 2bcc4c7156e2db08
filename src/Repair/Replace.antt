-- ===== src/Repair/Replace.antt =====
-- Placeholders may be replaced before or after a repair: a result has its placeholder's role and id.
use park_smart_harness.Base.{
  String, ◌≡◌, refl, sym, ap, ◌∙◌, true, Option, none, some, List, [], ◌∷◌, ◌&&◌, arith, Bool-cases,
  inl, inr, ◌⊎◌, if◌then◌else◌,
}
use park_smart_harness.Base.Assoc.{lookup}
use park_smart_harness.Message.{Message, Role, tool}
use park_smart_harness.Repair.{
  known_after, is_kept, is_user, is_known, join_contents, drop_orphans, merge_from, merge_users,
  repair_messages,
}
use park_smart_harness.Repair.Laws.{repair_messages-passes}
use park_smart_harness.Repair.Append.{kept, merged}
use park_smart_harness.Store.{
  Resolved, replace_placeholder, replace_placeholders, or_self, resolution_for, is_tool,
}

-- Every message of the dict is the tool message of its key.
abbrev pub IsKeyed : Resolved → Type 0
IsKeyed r =
    (i : String) (m : Message) → lookup i r ≡ some m → (m.role ≡ tool) × (m.tool_call_id ≡ some i)

-- What replacing does with one message: nothing, or a tool message for the same call.
abbrev Alike : Message → Message → Type 0
Alike m n = (n ≡ m) ⊎ ((m.role ≡ tool) × (n.role ≡ tool) × (n.tool_call_id ≡ m.tool_call_id))

Alike-known_after :
    (m n : Message) (known : List String)
    → Alike m n
    → known_after n.role n known ≡ known_after m.role m known
Alike-known_after m n known (inl e) = ap (λ k. known_after k.role k known) e
Alike-known_after m n known (inr (a, b, e)) = rw (a, b) refl

Alike-is_kept :
    (m n : Message) (known : List String)
    → Alike m n
    → is_kept n.role n known ≡ is_kept m.role m known
Alike-is_kept m n known (inl e) = ap (λ k. is_kept k.role k known) e
Alike-is_kept m n known (inr (a, b, e)) = rw (a, b) (ap (is_known known) e)

Alike-is_user : (m n : Message) → Alike m n → is_user n.role ≡ is_user m.role
Alike-is_user m n (inl e) = ap (λ k. is_user k.role) e
Alike-is_user m n (inr (a, b, e)) = rw (a, b) refl

Alike-user : (m n : Message) → Alike m n → is_user m.role ≡ true → n ≡ m
Alike-user m n (inl e) h = e
Alike-user m n (inr (a, b, e)) h = ground arith

module _ (r : Resolved) (keyed : IsKeyed r) where
  found :
      (m : Message) (id : Option String) (o : Option Message)
      → m.role ≡ tool
      → m.tool_call_id ≡ id
      → resolution_for r id ≡ o
      → Alike m (or_self m o)
  found m id none t q e = inl refl
  found m none (some n) t q e = cc
  found m (some i) (some n) t q e = let (a, b) = keyed i n e in inr (t, a, b ∙ sym q)

  by_role :
      (m : Message) (q : Role)
      → m.role ≡ q
      → Alike m (if is_tool q then or_self m (resolution_for r m.tool_call_id) else m)
  by_role m tool e = found m m.tool_call_id _ e refl refl
  by_role m _ e = inl refl

  replaced : (m : Message) → Alike m (replace_placeholder r m)
  unfolding replace_placeholder
  replaced m = by_role m m.role refl

  kept-replace :
      (known : List String) (ms : List Message)
      → kept known (replace_placeholders r ms) ≡ replace_placeholders r (kept known ms)
  unfolding drop_orphans replace_placeholders
  kept-replace known [] = refl
  kept-replace known (m ∷ ms) = ground (
    arith,
    Alike-is_kept m _ known (replaced m),
    Alike-known_after m _ known (replaced m),
    kept-replace (known_after m.role m known) ms,
  )

  merge_from-replace :
      (prev : Message) (ms : List Message)
      → (merge_from (replace_placeholder r prev) (replace_placeholders r ms)).0
        ≡ replace_placeholders r (merge_from prev ms).0
  unfolding merge_from replace_placeholders
  merge_from-replace prev [] = refl
  merge_from-replace prev (m ∷ ms) =
      let joined = record prev { content = join_contents prev.content m.content } in
      elim (Bool-cases (is_user m.role && is_user prev.role)) [
        | inl e ↦
            let users : (is_user m.role ≡ true) × (is_user prev.role ≡ true) = ground arith in
            rw (Alike-user m _ (replaced m) users.0, Alike-user prev _ (replaced prev) users.1, e)
              (ap (λ k. (merge_from k (replace_placeholders r ms)).0)
                  (sym (Alike-user joined _ (replaced joined) users.1))
                ∙ merge_from-replace joined ms)
        | inr e ↦
            rw (Alike-is_user m _ (replaced m), Alike-is_user prev _ (replaced prev), e)
              (ap (λ l. replace_placeholder r prev ∷ l) (merge_from-replace m ms))
      ]

  merged-replace :
      (ms : List Message) → merged (replace_placeholders r ms) ≡ replace_placeholders r (merged ms)
  unfolding merge_users replace_placeholders
  merged-replace [] = refl
  merged-replace (m ∷ ms) = merge_from-replace m ms

  -- The repair of the resolved messages is the repaired messages, resolved.

  pub repair_messages-replace :
      (ms : List Message)
      → (repair_messages (replace_placeholders r ms)).0
        ≡ replace_placeholders r (repair_messages ms).0
  repair_messages-replace ms =
      rw (repair_messages-passes ms, repair_messages-passes (replace_placeholders r ms))
        (ap merged (kept-replace [] ms) ∙ merged-replace (kept [] ms))
