-- ===== src/Identity.antt =====
-- agent_tools/identity.py and, of agent_tools/runtime.py, the facade: a login compiles the codes
-- of the backend to the capabilities of a principal, which the loader and the gate then read.
-- A set of codes is a list, of which only the members and, when it is sorted, the order count.
pub mod Laws
use Prim.Native.Nat.{Ordering}
use Prim.Native.String.{compare}
use park_smart_harness.Base.{
  String, Bool, Option, none, some, List, [], ◌∷◌, ◌++◌, filter, nonempty, not, if◌then◌else◌,
}
use park_smart_harness.Base.Assoc.{lookup}
use park_smart_harness.Tools.{Principal}
use park_smart_harness.Gate.{Catalog, member, select_toolset}
use park_smart_harness.Ground.{Fetched, fetched, backend_error}

-- `PermissionMapper.map`
abbrev pub PermissionMapper : Type 0
PermissionMapper = List String → List String

-- `IdentityMapper.map`
unfoldable pub identity_mapper : PermissionMapper
identity_mapper raw = filter nonempty raw

-- `TableMapper.map`: a code that the table lacks is dropped.
unfoldable pub table_mapper : List (String × String) → PermissionMapper
table_mapper table [] = []
table_mapper table (c ∷ cs) = elim (lookup c table) [
  | none ↦ table_mapper table cs
  | some code ↦ code ∷ table_mapper table cs
]

-- `OrgPolicy`
pub record OrgPolicy : Type 0 where
  pub deny_by_role : List (String × List String)

abbrev pub listed : Option (List String) → List String
listed none = []
listed (some codes) = codes

-- The codes that the policy denies to a role: those of every role, and its own.
unfoldable pub denied : OrgPolicy → String → List String
denied policy role_key =
    listed (lookup "*" policy.deny_by_role) ++ listed (lookup role_key policy.deny_by_role)

-- `OrgPolicy.apply`
unfoldable pub apply_policy : OrgPolicy → String → List String → List String
unfolding denied
apply_policy policy role_key codes = filter (λ c. not (member c (denied policy role_key))) codes

-- A list as a set: of equal codes the last is kept.
unfoldable pub distinct : List String → List String
distinct [] = []
distinct (c ∷ cs) = let rest = distinct cs in if member c rest then rest else c ∷ rest

unfoldable pub insert_code : String → List String → List String
insert_code c [] = c ∷ []
insert_code c (d ∷ ds) = elim (compare c d) [ Ordering.gt ↦ d ∷ insert_code c ds | _ ↦ c ∷ d ∷ ds ]

-- `sorted`
unfoldable pub sorted : List String → List String
unfolding insert_code
sorted [] = []
sorted (c ∷ cs) = insert_code c (sorted cs)

abbrev pub mapped_by : Option PermissionMapper → PermissionMapper
mapped_by none = identity_mapper
mapped_by (some m) = m

abbrev pub tightened : Option OrgPolicy → String → List String → List String
tightened none role_key codes = codes
tightened (some policy) role_key codes = apply_policy policy role_key codes

-- `resolve_capabilities`
unfoldable pub resolve_capabilities :
    List String → String → Option PermissionMapper → Option OrgPolicy → List String
unfolding distinct sorted
resolve_capabilities raw role_key mapper policy =
    sorted (distinct (tightened policy role_key (mapped_by mapper raw)))

-- The arguments of `login`.
pub record Login : Type 0 where
  pub username : String
  pub park_id : String
  pub role_key : String
  pub token : Option String
  pub name : String
  pub dept : String
  pub koujing : String

-- `ParkToolRuntime`, of whose subsystem the catalog and the toolset are read here. `user_info` is
-- the backend's: it is asked with a name, a park and a token.
pub record ParkToolRuntime (W : Type 0) : Type 0 where
  pub catalog : Catalog W
  pub toolset : List String
  pub user_info : String → String → Option String → Fetched (List String)
  pub mapper : PermissionMapper
  pub org_policy : Option OrgPolicy

-- A backend that fails grants no code.
abbrev pub granted_codes : Fetched (List String) → List String
granted_codes (fetched raw) = raw
granted_codes (backend_error code text) = []

module _ {W : Type 0} where
  -- `ParkToolRuntime.login`
  unfoldable pub login : ParkToolRuntime W → Login → Principal
  unfolding resolve_capabilities
  login rt l =
      let raw = granted_codes (rt.user_info l.username l.park_id l.token) in
      record {
        id = l.username;
        name = if nonempty l.name then l.name else l.username;
        role = l.role_key;
        dept = l.dept;
        koujing = l.koujing;
        park_id = some l.park_id;
        token = l.token;
        permissions = resolve_capabilities raw l.role_key (some rt.mapper) rt.org_policy;
      }

  -- `ParkToolRuntime.toolset_for`
  unfoldable pub toolset_for : ParkToolRuntime W → Principal → List String
  unfolding select_toolset
  toolset_for rt p = select_toolset rt.catalog rt.toolset p.permissions
