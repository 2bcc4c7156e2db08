-- ===== src/Examples/Basics.antt =====
-- The theorems on messages, gates, logins and the executor at concrete inputs.
use park_smart_harness.Base.{◌≡◌, refl, true, false, none, some, [], ◌∷◌, ℕ}
use park_smart_harness.Base.{◌↔◌}
use park_smart_harness.Base.Assoc.{lookup}
use park_smart_harness.Repair.{repair_messages, drop_orphans}
use park_smart_harness.Repair.Legal.{IsLegal}
use park_smart_harness.Repair.Laws.{repair_messages-IsLegal, repair_messages-eq-self_iff}
use park_smart_harness.Repair.Words.{repair_messages_keeps_words, user_words, of_others}
use park_smart_harness.Gate.{allow, ask, deny, catalog_classify, member}
use park_smart_harness.Gate.Laws.{IsPermitted, catalog_classify_iff}
use park_smart_harness.Ground.{fetched}
use park_smart_harness.Identity.{
  Login, ParkToolRuntime, login, toolset_for, identity_mapper, apply_policy, distinct, sorted,
  denied, insert_code, resolve_capabilities,
}
use park_smart_harness.Identity.Laws.{IsReachable, login_governs}
use park_smart_harness.Dispatch.{execute_tool}
use park_smart_harness.Dispatch.Laws.{execute_tool_retries, Ends, EndsBy, tried}
use park_smart_harness.Examples.{
  read_call, switch_call, torn, reader, switch, ctx_of, catalog, host,
}

repair_messages-IsLegal_example : IsLegal (repair_messages torn).0
repair_messages-IsLegal_example = repair_messages-IsLegal torn

repair_messages-eq-self_iff_example : (repair_messages torn ≡ (torn, 0)) ↔ IsLegal torn
repair_messages-eq-self_iff_example = repair_messages-eq-self_iff torn

two_repairs : (repair_messages torn).1 ≡ 2
unfolding repair_messages
two_repairs = refl

repair_messages_keeps_words_example :
    (user_words (repair_messages torn).0 ≡ user_words torn)
    × (of_others (repair_messages torn).0 ≡ of_others (drop_orphans [] torn).0)
repair_messages_keeps_words_example = repair_messages_keeps_words torn

catalog_classify_iff_example :
    ((catalog_classify catalog switch_call switch (ctx_of ("act" ∷ [])) ≡ allow)
      ↔ (IsPermitted catalog "switch" ("act" ∷ []) × (true ≡ false)))
    × ((catalog_classify catalog switch_call switch (ctx_of ("act" ∷ [])) ≡ ask)
        ↔ (IsPermitted catalog "switch" ("act" ∷ []) × (true ≡ true)))
    × ((catalog_classify catalog switch_call switch (ctx_of ("act" ∷ [])) ≡ deny)
        ↔ (¬ IsPermitted catalog "switch" ("act" ∷ [])))
catalog_classify_iff_example = catalog_classify_iff catalog switch_call switch (ctx_of ("act" ∷ []))

-- Switching is denied to every role by the policy of the organisation.
abbrev rt : ParkToolRuntime ℕ
rt = record {
  catalog = catalog;
  toolset = "read" ∷ "switch" ∷ [];
  user_info = λ username park_id token. fetched ("see" ∷ "act" ∷ "" ∷ "see" ∷ []);
  mapper = identity_mapper;
  org_policy = some (record { deny_by_role = ("*", "act" ∷ []) ∷ [] });
}

abbrev visitor : Login
visitor = record {
  username = "u";
  park_id = "1";
  role_key = "guest";
  token = none;
  name = "";
  dept = "";
  koujing = "";
}

visitor_sees : (login rt visitor).permissions ≡ "see" ∷ []
unfolding login apply_policy distinct sorted denied insert_code resolve_capabilities lookup
    identity_mapper
visitor_sees = refl

-- The backend's codes come out sorted, and each of them once.
sorted_codes : resolve_capabilities ("b" ∷ "a" ∷ "" ∷ "b" ∷ []) "guest" none none ≡ "a" ∷ "b" ∷ []
unfolding resolve_capabilities distinct sorted insert_code identity_mapper
sorted_codes = refl

nothing_of_nothing : identity_mapper [] ≡ []
unfolding identity_mapper
nothing_of_nothing = refl

login_governs_example :
    ((member "switch" (toolset_for rt (login rt visitor)) ≡ true)
      ↔ ((member "switch" rt.toolset ≡ true) × IsReachable rt visitor nothing_of_nothing "switch"))
    × ((catalog_classify catalog switch_call switch
            (record (ctx_of []) { principal = some (login rt visitor) })
          ≡ deny)
        ↔ (¬ IsReachable rt visitor nothing_of_nothing "switch"))
login_governs_example =
    login_governs rt visitor nothing_of_nothing "switch" switch_call switch (ctx_of [])

execute_tool_retries_example :
    ((left : ℕ)
      → EndsBy read_call reader
          (ctx_of [])
          left
          (host 0)
          (tried read_call reader (ctx_of []) left (host 0)))
    × (false ≡ false
        → Ends read_call reader
            (ctx_of [])
            1
            (host 0)
            (execute_tool read_call reader (ctx_of []) (host 0)).0
            (execute_tool read_call reader (ctx_of []) (host 0)).1)
execute_tool_retries_example = execute_tool_retries read_call reader (ctx_of []) (host 0)
