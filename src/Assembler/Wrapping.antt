-- ===== src/Assembler/Wrapping.antt =====
-- What the wrapping of a tool result keeps of it.
use text.Mathlib.TextLemmas.{append_assoc, append-nil, nil-append}
use park_smart_harness.Base.{
  String, ◌<>◌, ◌≡◌, refl, ap, sym, ◌∙◌, ◌⊎◌, inl, inr, true, List, [], ◌∷◌, map, Bool-cases,
}
use park_smart_harness.Message.{Message}
use park_smart_harness.Store.{is_tool}
use park_smart_harness.History.{name_or}
use park_smart_harness.Assembler.{
  AssemblerSettings, wrap_knowledge, listed, is_bare, framed, wrap_tool,
}

-- The text stands whole within the other.
abbrev pub Within : String → String → Type 0
Within t u = (before : String) × (after : String) × (u ≡ before <> t <> after)

-- The message as it was, or a tool result whose content stands whole within the new one.
abbrev pub Wraps : Message → Message → Type 0
Wraps m n =
    (n ≡ m)
    ⊎ ((c : String) × (is_tool m.role ≡ true) × Within m.content c × (n ≡ record m { content = c }))

abbrev pub WrapsAll : List Message → List Message → Type 0
WrapsAll [] [] = Unit {0}
WrapsAll (m ∷ ms) (n ∷ ns) = Wraps m n × WrapsAll ms ns
WrapsAll _ _ = ⊥

last_part : (a t : String) → Within t (a <> t)
last_part a t = (a, "", ap (◌<>◌ a) (sym (append-nil t)))

preceded : (a u t : String) → Within t u → Within t (a <> u)
preceded a u t (b, c, e) = (a <> b, c, ap (◌<>◌ a) e ∙ sym (append_assoc a b (t <> c)))

titled : (name title t : String) → Within t ("【" <> name <> title <> t)
titled name title t = preceded _ _ t (preceded _ _ t (last_part title t))

wrap_knowledge-Within : (t : String) → Within t (wrap_knowledge t "")
unfolding wrap_knowledge
wrap_knowledge-Within t =
    preceded _ _ t (preceded _ _ t (preceded _ _ t ("", _, sym (nil-append (t <> _)))))

framed-Within : (s : AssemblerSettings) (name t : String) → Within t (framed s name t)
framed-Within s name t = elim (Bool-cases (listed name s.knowledge_tools)) [
  | inl e ↦ rw e (wrap_knowledge-Within t)
  | inr e ↦ elim (Bool-cases (listed name s.control_tools)) [
    | inl f ↦ rw (e, f) (titled _ _ t)
    | inr f ↦ elim (Bool-cases (listed name s.subagent_tools)) [
      | inl g ↦ rw (e, f, g) (titled _ _ t)
      | inr g ↦ rw (e, f, g) (titled _ _ t)
    ]
  ]
]

wrap_tool-Wraps : (s : AssemblerSettings) (m : Message) → Wraps m (wrap_tool s m)
unfolding wrap_tool
wrap_tool-Wraps s m = elim (Bool-cases (is_tool m.role)) [
  | inr e ↦ rw e (inl refl)
  | inl e ↦ elim (Bool-cases (is_bare m.content)) [
    | inl f ↦ rw (e, f) (inl refl)
    | inr f ↦ rw (e, f) (inr (_, refl, framed-Within s (name_or "" m.name) m.content, refl))
  ]
]

pub map-WrapsAll : (s : AssemblerSettings) (ms : List Message) → WrapsAll ms (map (wrap_tool s) ms)
map-WrapsAll s [] = tt
map-WrapsAll s (m ∷ ms) = (wrap_tool-Wraps s m, map-WrapsAll s ms)
