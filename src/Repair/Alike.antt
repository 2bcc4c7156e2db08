-- ===== src/Repair/Alike.antt =====
-- The first pass of the repair reads role, calls and call id of a message, and no content.
use park_smart_harness.Base.{◌≡◌, refl, sym, ◌∙◌, subst, String, List, [], ◌∷◌, true, map}
use park_smart_harness.Message.{Message, Role, system, user, assistant, tool, other}
use park_smart_harness.Repair.{known_after, is_kept}
use park_smart_harness.Repair.Legal.{AllKept}

-- Equal to the first pass.
abbrev pub Alike : Message → Message → Type 0
Alike m n = (m.role ≡ n.role) × (m.tool_calls ≡ n.tool_calls) × (m.tool_call_id ≡ n.tool_call_id)

abbrev pub AllAlike : (Message → Message) → Type 0
AllAlike f = (m : Message) → Alike m (f m)

known_after_alike :
    (r : Role) (m n : Message) (known : List String)
    → m.tool_calls ≡ n.tool_calls
    → known_after r m known ≡ known_after r n known
known_after_alike system m n known e = refl
known_after_alike user m n known e = refl
known_after_alike assistant m n known e = rw e refl
known_after_alike tool m n known e = refl
known_after_alike (other t) m n known e = refl

is_kept_alike :
    (r : Role) (m n : Message) (known : List String)
    → m.tool_call_id ≡ n.tool_call_id
    → is_kept r m known ≡ is_kept r n known
is_kept_alike system m n known e = refl
is_kept_alike user m n known e = refl
is_kept_alike assistant m n known e = refl
is_kept_alike tool m n known e = rw e refl
is_kept_alike (other t) m n known e = refl

-- A list whose messages are alike one by one is kept if the other is.
pub AllKept-cons-Alike :
    (known : List String) (m n : Message) (ms ns : List Message)
    → Alike m n
    → ((k : List String) → AllKept k ms → AllKept k ns)
    → AllKept known (m ∷ ms)
    → AllKept known (n ∷ ns)
AllKept-cons-Alike known m n ms ns a later h = (
  subst (λ r. is_kept r n known ≡ true) a.0 (sym (is_kept_alike m.role m n known a.2) ∙ h.0),
  subst (λ r. AllKept (known_after r n known) ns) a.0
      (later _ (subst (λ k. AllKept k ms) (known_after_alike m.role m n known a.1) h.1)),
)

pub AllKept-map :
    (f : Message → Message)
    → AllAlike f
    → (known : List String) (ms : List Message) → AllKept known ms
    → AllKept known (map f ms)
AllKept-map f a known [] h = tt
AllKept-map f a known (m ∷ ms) h =
    AllKept-cons-Alike known m (f m) ms (map f ms) (a m) (λ k. AllKept-map f a k ms) h
