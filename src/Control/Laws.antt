-- ===== src/Control/Laws.antt =====
-- The stub executes each frozen action at most once.
use park_smart_harness.Base.{
  suc, String, ◌≡◌, refl, sym, ap, ◌∙◌, Option, none, some, List, [], ◌∷◌, length, arith, eq_refl,
}
use park_smart_harness.Base.Assoc.{lookup, insert, lookup-insert}
use park_smart_harness.Json.{Dict}
use park_smart_harness.Message.{PendingAction}
use park_smart_harness.Tools.{ToolResult}
use park_smart_harness.Loop.{Decision, approve, reject}
use park_smart_harness.Control.{Executions, no_executions, resolve, execute_once, echoed}

-- The decisions, each with its action, one after the other.
unfoldable pub resolve_each :
    (Dict → String) → List (PendingAction × Decision) → Executions → Executions
resolve_each repr [] s = s
resolve_each repr ((p, d) ∷ ps) s = resolve_each repr ps (resolve repr p d s).1

length-insert_new :
    (k : String) (r : ToolResult) (m : List (String × ToolResult))
    → lookup k m ≡ none
    → length (insert k r m) ≡ suc (length m)
unfolding lookup insert
length-insert_new k r [] e = refl
length-insert_new k r ((j, q) ∷ m) e = ground (arith, length-insert_new k r m)

-- The count is the number of keys in the ledger.
abbrev pub IsCounted : Executions → Type 0
IsCounted s = s.execute_count ≡ length s.ledger

module _ (repr : Dict → String) where
  execute_once-IsCounted :
      (p : PendingAction) (o : Option ToolResult) (s : Executions)
      → lookup p.idem_key s.ledger ≡ o
      → IsCounted s
      → IsCounted (execute_once repr p o s).1
  unfolding execute_once
  execute_once-IsCounted p (some c) s e h = h
  execute_once-IsCounted p none s e h =
      ap suc h ∙ sym (length-insert_new p.idem_key (echoed repr p) s.ledger e)

  resolve-IsCounted :
      (p : PendingAction) (d : Decision) (s : Executions)
      → IsCounted s
      → IsCounted (resolve repr p d s).1
  unfolding resolve
  resolve-IsCounted p reject s h = h
  resolve-IsCounted p approve s h = execute_once-IsCounted p _ s refl h

  resolve_each-IsCounted :
      (ps : List (PendingAction × Decision)) (s : Executions)
      → IsCounted s
      → IsCounted (resolve_each repr ps s)
  unfolding resolve_each
  resolve_each-IsCounted [] s h = h
  resolve_each-IsCounted ((p, d) ∷ ps) s h =
      resolve_each-IsCounted ps (resolve repr p d s).1 (resolve-IsCounted p d s h)

  -- The second approval of an action.
  again :
      (p : PendingAction) (o : Option ToolResult) (s : Executions)
      → lookup p.idem_key s.ledger ≡ o
      → lookup p.idem_key (execute_once repr p o s).1.ledger ≡ some (execute_once repr p o s).0
  unfolding execute_once
  again p (some c) s e = e
  again p none s e =
      ground
        (arith, lookup-insert p.idem_key (echoed repr p) s.ledger p.idem_key, eq_refl p.idem_key)

  -- However actions are approved and rejected, each key is executed at most once: the count of
  -- executions is the number of keys in the ledger. A second approval of an action gives the
  -- first one's answer and changes nothing.
  pub resolve_is_idempotent :
      (ps : List (PendingAction × Decision)) (p : PendingAction)
      → let s = resolve_each repr ps no_executions in
        let first = resolve repr p approve s in
        IsCounted first.1 × (resolve repr p approve first.1 ≡ (first.0, first.1))
  unfolding resolve execute_once
  resolve_is_idempotent ps p =
      let s = resolve_each repr ps no_executions in
      (
        resolve-IsCounted p approve s (resolve_each-IsCounted ps no_executions refl),
        rw (again p (lookup p.idem_key s.ledger) s refl) refl,
      )
