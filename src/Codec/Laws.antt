-- ===== src/Codec/Laws.antt =====
-- Decoding an encoded message or boundary gives it back.
use park_smart_harness.Base.{
  ℕ, String, ◌≡◌, refl, ap, ◌∙◌, Bool, Option, none, some, List, [], ◌∷◌, map,
}
use park_smart_harness.Json.{Json, Dict, obj, list_of, items_of}
use park_smart_harness.Message.{Message, ToolCallReq, PendingAction}
use park_smart_harness.Budget.{Snapshot}
use park_smart_harness.Tools.{Boundary, Status, iteration, completed, awaiting_confirmation, failed}
use park_smart_harness.Codec.{
  each, of_dict, text_json, text_or_none, role_text, role_of, encode_tool_call, decode_tool_call,
  encode_message, decode_message, encode_pending, decode_pending, status_text, status_of,
  encode_boundary, decode_boundary, batch_json, batch_of, present, snapshot_json, snapshot_of,
}

list_of-items_of : (js : List Json) → list_of (items_of js) ≡ js
list_of-items_of [] = refl
list_of-items_of (j ∷ js) = ap (λ l. j ∷ l) (list_of-items_of js)

each-map :
    {A : Type 0} (encode : A → Dict) (decode : Dict → Option A) (as' : List A)
    → ((a : A) → decode (encode a) ≡ some a)
    → each (of_dict decode) (map (λ a. obj (encode a)) as') ≡ some as'
each-map encode decode [] k = refl
each-map encode decode (a ∷ as') k = rw (k a, each-map encode decode as' k) refl

decode_tool_call-encode : (c : ToolCallReq) → decode_tool_call (encode_tool_call c) ≡ some c
unfolding decode_tool_call encode_tool_call
decode_tool_call-encode c = refl

text_or_none-json : (o : Option String) → text_or_none (some (text_json o)) ≡ some o
text_or_none-json none = refl
text_or_none-json (some s) = refl

-- A role of the program, or any other text.
abbrev pub IsCanonical : Message → Type 0
IsCanonical m = role_of (role_text m.role) ≡ m.role

-- An encoded message decodes to itself, if its role is not a known one spelled as another.
pub decode_message-encode :
    (m : Message) → IsCanonical m → decode_message (encode_message m) ≡ some m
unfolding decode_message encode_message
decode_message-encode m c =
    rw
      (
        list_of-items_of (map (λ c. obj (encode_tool_call c)) m.tool_calls),
        each-map encode_tool_call decode_tool_call m.tool_calls decode_tool_call-encode,
        text_or_none-json m.tool_call_id,
        text_or_none-json m.name,
        c,
      )
      refl

decode_pending-encode : (p : PendingAction) → decode_pending (encode_pending p) ≡ some p
unfolding decode_pending encode_pending
decode_pending-encode p = rw (text_or_none-json p.handle) refl

status_of-text : (s : Status) → status_of (status_text s) ≡ some s
unfolding status_of
status_of-text iteration = refl
status_of-text completed = refl
status_of-text awaiting_confirmation = refl
status_of-text failed = refl

batch_of-json : (b : Option (List PendingAction)) → batch_of (some (batch_json b)) ≡ some b
batch_of-json none = refl
batch_of-json (some ps) = ap present (
    ap (each (of_dict decode_pending)) (list_of-items_of (map (λ p. obj (encode_pending p)) ps))
    ∙ each-map encode_pending decode_pending ps decode_pending-encode)

snapshot_of-json : (s : Option Snapshot) → snapshot_of (some (snapshot_json s)) ≡ some s
snapshot_of-json none = refl
snapshot_of-json (some s) = by_field s.iters s.tokens s.grace_used
  where
    by_field :
        (i t : Option ℕ) (g : Option Bool)
        → (let s : Snapshot = record { iters = i; tokens = t; grace_used = g } in
            snapshot_of (some (snapshot_json (some s))) ≡ some (some s))
    by_field none none none = refl
    by_field none none (some g) = refl
    by_field none (some t) none = refl
    by_field none (some t) (some g) = refl
    by_field (some i) none none = refl
    by_field (some i) none (some g) = refl
    by_field (some i) (some t) none = refl
    by_field (some i) (some t) (some g) = refl

-- An encoded boundary decodes to itself, with its batch and with a snapshot that lacks keys.
pub decode_boundary-encode : (b : Boundary) → decode_boundary (encode_boundary b) ≡ some b
unfolding decode_boundary encode_boundary
decode_boundary-encode b =
    rw (status_of-text b.status, batch_of-json b.pending_batch, snapshot_of-json b.budget_snapshot)
      refl
