-- ===== src/RedisStore.antt =====
-- agent_loop/redis_store.py: the conversation store on a Redis server.
pub mod Keys
pub mod Refines
pub mod Same
pub mod Serves
use park_smart_harness.Base.{
  ℕ, ◌*◌, String, ◌<>◌, Bool, true, false, Option, none, some, List, [], ◌∷◌, map, nonempty,
  if◌then◌else◌,
}
use park_smart_harness.Json.{Dict}
use park_smart_harness.Message.{Message}
use park_smart_harness.Plan.{PlanState, derive_plan}
use park_smart_harness.Tools.{Boundary, Status, awaiting_confirmation, Conversation}
use park_smart_harness.Store.{Resolved, replace_placeholders, conversation_of}
use park_smart_harness.Loop.Turn.{is_empty}
use park_smart_harness.Codec.{
  ◌>>=◌, each, encode_message, decode_message, encode_boundary, decode_boundary,
}

-- The server's commands: `T` is a stored text, `R` the server's state. A key that is not there holds
-- the empty list, and no time passes between two commands, so that nothing expires.
pub record Redis (T R : Type 0) : Type 0 where
  pub rpush : String → List T → R → R
  pub delete : String → R → R
  pub lrange : String → R → List T
  pub lindex_last : String → R → Option T
  pub expire : String → ℕ → R → R
  pub persist : String → R → R

-- `RedisConversationStore`, with `json.dumps` and `json.loads`; `none` is the error of a bad text.
pub record RedisStore (T R : Type 0) : Type 0 where
  pub client : Redis T R
  pub dumps : Dict → T
  pub loads : T → Option Dict
  pub ttl_minutes : Option ℕ
  pub refresh_on_read : Bool
  pub key_prefix : String

module _ {T R : Type 0} (k : RedisStore T R) where
  unfoldable pub messages_key : String → String
  messages_key thread = k.key_prefix <> ":" <> thread <> ":messages"

  unfoldable pub boundaries_key : String → String
  boundaries_key thread = k.key_prefix <> ":" <> thread <> ":boundaries"

  abbrev pub is_suspended : Status → Bool
  is_suspended awaiting_confirmation = true
  is_suspended _ = false

  abbrev pub expire_both : Option ℕ → String → R → R
  expire_both none thread r = r
  expire_both (some n) thread r =
      k.client.expire (boundaries_key thread) (n * 60)
        (k.client.expire (messages_key thread) (n * 60) r)

  abbrev pub persist_both : Option ℕ → String → R → R
  persist_both none thread r = r
  persist_both (some n) thread r =
      k.client.persist (boundaries_key thread) (k.client.persist (messages_key thread) r)

  -- `_apply_ttl_or_persist`
  unfoldable pub apply_ttl : Status → String → R → R
  apply_ttl s thread r =
      if is_suspended s
      then expire_both k.ttl_minutes thread r
      else persist_both k.ttl_minutes thread r

  abbrev pub message_text : Message → T
  message_text m = k.dumps (encode_message m)

  abbrev pub boundary_text : Boundary → T
  boundary_text b = k.dumps (encode_boundary b)

  -- `if encoded_msgs: pipe.rpush(...)`
  abbrev pub push_messages : String → List Message → R → R
  push_messages thread [] r = r
  push_messages thread (m ∷ ms) r =
      k.client.rpush (messages_key thread) (map message_text (m ∷ ms)) r

  abbrev pub push_boundary : String → Boundary → R → R
  push_boundary thread b r = k.client.rpush (boundaries_key thread) (boundary_text b ∷ []) r

  -- `commit`
  unfoldable pub commit_redis : String → List Message → Boundary → R → R
  unfolding apply_ttl
  commit_redis thread ms b r =
      apply_ttl b.status thread (push_boundary thread b (push_messages thread ms r))

  abbrev pub message_of : T → Option Message
  message_of t = k.loads t >>= decode_message

  abbrev pub boundary_of : T → Option Boundary
  boundary_of t = k.loads t >>= decode_boundary

  abbrev pub messages_of : String → R → Option (List Message)
  messages_of thread r = each message_of (k.client.lrange (messages_key thread) r)

  -- The life of a thread that waits is renewed by a read.
  abbrev pub refresh_on : String → R → Option Boundary → Option R
  refresh_on thread r none = none
  refresh_on thread r (some b) =
      some (if is_suspended b.status then expire_both k.ttl_minutes thread r else r)

  abbrev pub refresh_last : String → R → Option T → Option R
  refresh_last thread r none = some r
  refresh_last thread r (some t) = refresh_on thread r (boundary_of t)

  abbrev pub has_ttl : Option ℕ → Bool
  has_ttl none = false
  has_ttl (some n) = true

  unfoldable pub refresh : String → R → Option R
  refresh thread r =
      if k.refresh_on_read
      then (if has_ttl k.ttl_minutes
          then refresh_last thread r (k.client.lindex_last (boundaries_key thread) r)
          else some r)
      else some r

  abbrev pub loaded_after : String → List Message → R → Option R → Option Conversation × R
  loaded_after thread ms r none = (none, r)
  loaded_after thread ms r (some s) = (conversation_of thread ms (derive_plan ms), s)

  abbrev pub loaded_from : String → R → Option (List Message) → Option Conversation × R
  loaded_from thread r none = (none, r)
  loaded_from thread r (some ms) = loaded_after thread ms r (refresh thread r)

  -- `load`; a result of `none` is an error.
  unfoldable pub load_redis : String → R → Option Conversation × R
  unfolding refresh
  load_redis thread r =
      if is_empty (k.client.lrange (messages_key thread) r)
      then (some (record { thread_id = thread; messages = []; plan = []; principal = none }), r)
      else loaded_from thread r (messages_of thread r)

  abbrev pub latest_from : Option T → Option (Option Boundary)
  latest_from none = some none
  latest_from (some t) = elim (boundary_of t) [ none ↦ none | some b ↦ some (some b) ]

  -- `latest_boundary`; the outer `none` is an error.
  unfoldable pub latest_redis : String → R → Option (Option Boundary)
  latest_redis thread r = latest_from (k.client.lindex_last (boundaries_key thread) r)

  abbrev pub rewritten : String → Boundary → R → List Message → R
  rewritten thread b r ms =
      apply_ttl b.status thread
        (push_boundary thread b (push_messages thread ms (k.client.delete (messages_key thread) r)))

  abbrev pub resolved_from : String → Resolved → Boundary → R → Option (List Message) → Option R
  resolved_from thread resolved b r none = none
  resolved_from thread resolved b r (some ms) =
      some (rewritten thread b r (replace_placeholders resolved ms))

  -- `resolve_pending`; `none` is an error, before anything is written.
  unfoldable pub resolve_redis : String → Resolved → Boundary → R → Option R
  unfolding apply_ttl
  resolve_redis thread resolved b r = resolved_from thread resolved b r (messages_of thread r)
