-- ===== src/RedisStore/Refines.antt =====
-- The store on Redis does what the store in memory does.
use mathlib.Core.List.{append-nil}
use park_smart_harness.Base.{
  ℕ, ◌*◌, ◌<◌, arith, ◌≡◌, refl, sym, ◌∙◌, String, ◌==◌, Option, none, some, List, [], ◌∷◌, ◌++◌,
  map, last?, Bool-cases, inl, inr, if◌then◌else◌,
}
use park_smart_harness.Json.{Dict}
use park_smart_harness.Message.{Message}
use park_smart_harness.Tools.{Boundary, Status}
use park_smart_harness.Store.{Threads}
use park_smart_harness.Store.Laws.{log, boundaries}
use park_smart_harness.RedisStore.{
  Redis, RedisStore, messages_key, boundaries_key, is_suspended, expire_both, persist_both,
  apply_ttl, message_text, boundary_text, push_messages, push_boundary,
}
use park_smart_harness.RedisStore.Keys.{
  messages_key-eq, boundaries_key-eq, messages_boundaries-eq, boundaries_messages-eq,
}

-- What the commands promise of the lists.
pub record IsRedis {T R : Type 0} (c : Redis T R) : Type 0 where
  pub lrange_rpush :
      (j k : String) (xs : List T) (r : R)
      → c.lrange j (c.rpush k xs r) ≡ (if k == j then c.lrange j r ++ xs else c.lrange j r)
  pub lrange_delete :
      (j k : String) (r : R) → c.lrange j (c.delete k r) ≡ (if k == j then [] else c.lrange j r)
  -- A time to live of 0 deletes the key.
  pub lrange_expire :
      (j k : String) (n : ℕ) (r : R) → 0 < n → c.lrange j (c.expire k n r) ≡ c.lrange j r
  pub lrange_persist : (j k : String) (r : R) → c.lrange j (c.persist k r) ≡ c.lrange j r
  pub lindex_lrange : (j : String) (r : R) → c.lindex_last j r ≡ last? (c.lrange j r)

-- No time to live is configured, or a positive one.
abbrev pub IsLasting : Option ℕ → Type 0
IsLasting none = Unit {0}
IsLasting (some n) = 0 < n

module _ {T R : Type 0} (k : RedisStore T R) (laws : IsRedis k.client × IsLasting k.ttl_minutes)
    (loads_dumps : (d : Dict) → k.loads (k.dumps d) ≡ some d) where
  pub expire_both-lrange :
      (m : Option ℕ) (id j : String) (r : R)
      → IsLasting m
      → k.client.lrange j (expire_both k m id r) ≡ k.client.lrange j r
  expire_both-lrange none id j r p = refl
  expire_both-lrange (some n) id j r p =
      let long : 0 < n * 60 = omega (arith, p) in
      laws.0.lrange_expire j (boundaries_key k id) _ _ long
      ∙ laws.0.lrange_expire j (messages_key k id) _ r long

  persist_both-lrange :
      (m : Option ℕ) (id j : String) (r : R)
      → k.client.lrange j (persist_both k m id r) ≡ k.client.lrange j r
  persist_both-lrange none id j r = refl
  persist_both-lrange (some n) id j r =
      laws.0.lrange_persist j (boundaries_key k id) _
      ∙ laws.0.lrange_persist j (messages_key k id) r

  pub apply_ttl-lrange :
      (s : Status) (id j : String) (r : R)
      → k.client.lrange j (apply_ttl k s id r) ≡ k.client.lrange j r
  unfolding apply_ttl
  apply_ttl-lrange s id j r = elim (Bool-cases (is_suspended k s)) [
    | inl e ↦ rw e (expire_both-lrange k.ttl_minutes id j r laws.1)
    | inr e ↦ rw e (persist_both-lrange k.ttl_minutes id j r)
  ]

  push_messages-lrange :
      (id j : String) (ms : List Message) (r : R)
      → k.client.lrange j (push_messages k id ms r) ≡ (
          if messages_key k id == j
          then k.client.lrange j r ++ map (message_text k) ms
          else k.client.lrange j r)
  push_messages-lrange id j [] r = elim (Bool-cases (messages_key k id == j)) [
    | inl e ↦ rw e (sym (append-nil (k.client.lrange j r)))
    | inr e ↦ rw e refl
  ]
  push_messages-lrange id j (m ∷ ms) r =
      laws.0.lrange_rpush j (messages_key k id) (map (message_text k) (m ∷ ms)) r

  -- The lists of both keys after the new messages and the boundary.
  pub appended_messages :
      (s : Status) (id other : String) (ms : List Message) (b : Boundary) (r : R)
      → k.client.lrange
          (messages_key k other)
          (apply_ttl k s id (push_boundary k id b (push_messages k id ms r)))
        ≡ (if id == other
            then k.client.lrange (messages_key k other) r ++ map (message_text k) ms
            else k.client.lrange (messages_key k other) r)
  appended_messages s id other ms b r =
      apply_ttl-lrange s id (messages_key k other) _
      ∙ laws.0.lrange_rpush (messages_key k other) (boundaries_key k id) (boundary_text k b ∷ []) _
      ∙ rw (boundaries_messages-eq k id other) (
          push_messages-lrange id (messages_key k other) ms r
          ∙ rw (messages_key-eq k id other) refl)

  pub appended_boundary :
      (s : Status) (id other : String) (ms : List Message) (b : Boundary) (r : R)
      → k.client.lrange
          (boundaries_key k other)
          (apply_ttl k s id (push_boundary k id b (push_messages k id ms r)))
        ≡ (if id == other
            then k.client.lrange (boundaries_key k other) r ++ boundary_text k b ∷ []
            else k.client.lrange (boundaries_key k other) r)
  appended_boundary s id other ms b r =
      let before : k.client.lrange (boundaries_key k other) (push_messages k id ms r)
          ≡ k.client.lrange (boundaries_key k other) r =
        push_messages-lrange id (boundaries_key k other) ms r
        ∙ rw (messages_boundaries-eq k id other) refl in
      apply_ttl-lrange s id (boundaries_key k other) _
      ∙ laws.0.lrange_rpush (boundaries_key k other) (boundaries_key k id) (boundary_text k b ∷ [])
          _
      ∙ rw (boundaries_key-eq k id other, before) refl

  -- The server holds the encoded log and boundaries of a thread.
  pub record Stores (ts : Threads) (r : R) (id : String) : Type 0 where
    pub messages : k.client.lrange (messages_key k id) r ≡ map (message_text k) (log id ts)
    pub ends : k.client.lrange (boundaries_key k id) r ≡ map (boundary_text k) (boundaries id ts)

  abbrev pub Mirrors : Threads → R → Type 0
  Mirrors ts r = (id : String) → Stores ts r id
