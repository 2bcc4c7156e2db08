-- ===== src/Gate.antt =====
-- agent_loop/gate.py, agent_tools/catalog.py, agent_tools/gate.py and agent_tools/loader.py: who
-- may call what, and which calls wait for a confirmation.
pub mod Laws
use park_smart_harness.Base.{
  ℕ, String, Bool, true, false, Option, none, some, List, [], ◌∷◌, any, ◌==◌, ◌&&◌, not,
  if◌then◌else◌,
}
use park_smart_harness.Base.Assoc.{lookup, insert}
use park_smart_harness.Message.{ToolCallReq}
use park_smart_harness.Tools.{LoopTool, ToolContext, Principal, Registry, register}

pub data Verdict : Type 0 where
  allow ask deny : Verdict

module _ {W : Type 0} where
  -- `DefaultGate.classify`, with its predicate of denied calls
  unfoldable pub default_classify :
      (ToolCallReq → LoopTool W → Bool) → ToolCallReq → LoopTool W → Verdict
  default_classify denied call tool =
      if denied call tool then deny else if tool.is_control then ask else allow

pub record ToolSpec (W : Type 0) : Type 0 where
  pub tool : LoopTool W
  pub capability_code : String
  pub output_budget : Option ℕ

abbrev pub Catalog : Type 0 → Type 0
Catalog W = List (String × ToolSpec W)

abbrev pub permissions_of : Option Principal → List String
permissions_of none = []
permissions_of (some p) = p.permissions

-- `code in perms`
abbrev pub member : String → List String → Bool
member code perms = any (λ p. p == code) perms

abbrev unset {ℓ} : {A : Type ℓ} → Option A → Bool
unset none = true
unset (some a) = false

module _ {W : Type 0} where
  unfoldable pub register_spec : ToolSpec W → Catalog W → Catalog W
  register_spec s c = insert s.tool.name s c

  unfoldable pub find_spec : Catalog W → String → Option (ToolSpec W)
  find_spec c name = lookup name c

  -- `ToolCatalog._engine_tool`: the output budget of a control tool is never applied.
  unfoldable pub engine_tool : ToolSpec W → LoopTool W
  engine_tool s =
      if not (unset s.output_budget) && not s.tool.is_control && unset s.tool.output_budget
      then record s.tool { output_budget = s.output_budget }
      else s.tool

  abbrev register_found : Option (ToolSpec W) → Registry W → Registry W
  register_found none r = r
  register_found (some s) r = register (engine_tool s) r

  -- `ToolCatalog.to_registry(names)`, onto the registry built so far
  unfoldable pub to_registry : Catalog W → List String → Registry W → Registry W
  unfolding find_spec register engine_tool
  to_registry c [] r = r
  to_registry c (n ∷ ns) r = to_registry c ns (register_found (find_spec c n) r)

  -- `CatalogGate.classify`, on the spec that is found
  abbrev verdict_on : Option (ToolSpec W) → LoopTool W → List String → Verdict
  verdict_on none tool perms = deny
  verdict_on (some s) tool perms =
      if not (member s.capability_code perms) then deny else if tool.is_control then ask else allow

  unfoldable pub catalog_classify : Catalog W → ToolCallReq → LoopTool W → ToolContext → Verdict
  unfolding find_spec
  catalog_classify c call tool ctx =
      verdict_on (find_spec c call.name) tool (permissions_of ctx.principal)

  abbrev selects : Option (ToolSpec W) → List String → Bool
  selects none perms = false
  selects (some s) perms = member s.capability_code perms

  -- `select_toolset`
  unfoldable pub select_toolset : Catalog W → List String → List String → List String
  unfolding find_spec
  select_toolset c [] perms = []
  select_toolset c (n ∷ ns) perms =
      let rest = select_toolset c ns perms in
      if selects (find_spec c n) perms then n ∷ rest else rest
