-- ===== src/SystemPrompt/Roles.antt =====
-- The fixed prompt depends on the role alone.
use park_smart_harness.Base.{
  ◌≡◌, refl, String, Bool, true, false, ◌==◌, ◌||◌, has_text, strip, arith, if◌then◌else◌, eq_iff,
  Bool-cases, inl, inr,
}
use park_smart_harness.SystemPrompt.{
  PromptConfig, PromptSelection, given_or, main_profile, device_sub_profile, role_profile,
  known_role, from_config, compose,
}

abbrev pub selected : String → String → String → PromptSelection
selected r m p = record { role = r; model_family = m; platform = p }

compose_of_main : (m p : String) → compose (selected "main" m p) ≡ main_profile
unfolding compose role_profile main_profile has_text strip
compose_of_main m p = refl

compose_of_sub : (m p : String) → compose (selected "device_sub" m p) ≡ device_sub_profile
unfolding compose role_profile device_sub_profile has_text strip
compose_of_sub m p = refl

abbrev pub for_sub : String → Bool
for_sub r = r == "device_sub" || r == "leaf"

known_role_of_sub : (r : String) → for_sub r ≡ true → known_role r ≡ "device_sub"
unfolding role_profile
known_role_of_sub r h = elim (Bool-cases (r == "device_sub")) [
  | inl e ↦ rw ((eq_iff r "device_sub").0 e) refl
  | inr e ↦ rw ((eq_iff r "leaf").0 (ground (arith, h, e))) refl
]

known_role_of_main : (r : String) → for_sub r ≡ false → known_role r ≡ "main"
unfolding role_profile
known_role_of_main r h = elim (Bool-cases (r == "main")) [
  | inl e ↦ rw ((eq_iff r "main").0 e) refl
  | inr e ↦ ground (arith, h, e)
]

-- The fixed prompt of a config is the sub-agent's profile for its role or for `leaf`, and the main
-- profile for every other role, the missing and the empty one included. Model and platform change
-- nothing, since their guides are empty.
pub compose-from_config :
    (lower : String → String) (c : PromptConfig)
    → compose (from_config lower c)
      ≡ (if for_sub (given_or "main" c.role) then device_sub_profile else main_profile)
unfolding from_config
compose-from_config lower c = elim (Bool-cases (for_sub (given_or "main" c.role))) [
  | inl e ↦ rw (e, known_role_of_sub (given_or "main" c.role) e) (compose_of_sub _ _)
  | inr e ↦ rw (e, known_role_of_main (given_or "main" c.role) e) (compose_of_main _ _)
]
