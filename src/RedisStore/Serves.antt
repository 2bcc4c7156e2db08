-- ===== src/RedisStore/Serves.antt =====
-- The store on Redis answers as the store in memory does, after whatever operations.
use park_smart_harness.Base.{
  ◌≡◌, refl, sym, ap, ◌∙◌, subst, String, Option, none, some, List, [], ◌∷◌, map, last?, All,
  if◌then◌else◌,
}
use park_smart_harness.Json.{Dict}
use park_smart_harness.Message.{Message}
use park_smart_harness.Plan.{derive_plan}
use park_smart_harness.Tools.{Boundary, Conversation}
use park_smart_harness.Loop.Turn.{is_empty}
use park_smart_harness.Store.{
  Threads, Resolved, conversation_of, load, commit, latest_boundary, resolve_pending,
}
use park_smart_harness.Store.Laws.{log, boundaries, latest_boundary_lem, load_lem}
use park_smart_harness.Codec.Laws.{IsCanonical}
use park_smart_harness.RedisStore.{
  RedisStore, messages_key, message_text, boundary_text, commit_redis, loaded_after, loaded_from,
  load_redis, latest_from, latest_redis, resolve_redis,
}
use park_smart_harness.RedisStore.Refines.{IsRedis, IsLasting, Stores, Mirrors}
use park_smart_harness.RedisStore.Same.{
  map_some, boundary_of-text, messages_of-log, commit-Mirrors, resolve-Mirrors, Untouched-Mirrors,
  last_text, Untouched, refresh-Refreshed,
}

no_plan : derive_plan [] ≡ some []
unfolding derive_plan
no_plan = refl

module _ {T R : Type 0} (k : RedisStore T R) (laws : IsRedis k.client × IsLasting k.ttl_minutes)
    (loads_dumps : (d : Dict) → k.loads (k.dumps d) ≡ some d) where
  latest-boundary : (o : Option Boundary) → latest_from k (map_some (boundary_text k) o) ≡ some o
  latest-boundary none = refl
  latest-boundary (some b) =
      ap (λ o. elim o as (λ _. Option (Option Boundary)) [ none ↦ none | some c ↦ some (some c) ])
        (boundary_of-text k laws loads_dumps b)

  latest-memory :
      (ts : Threads) (r : R) (id : String)
      → Stores k laws loads_dumps ts r id
      → latest_redis k id r ≡ some (latest_boundary ts id)
  unfolding latest_redis
  latest-memory ts r id s =
      ap (latest_from k) (last_text k laws loads_dumps ts r id s)
      ∙ latest-boundary (last? (boundaries id ts))
      ∙ ap some (sym (latest_boundary_lem id ts))

  -- A load gives what memory gives, and leaves all lists as they were.
  abbrev pub LoadsAs : Option Conversation → R → Option Conversation × R → Type 0
  LoadsAs o r l = (l.0 ≡ o) × Untouched k laws loads_dumps r l.1

  load_of_log :
      (id : String) (r : R) (ms : List Message)
      → k.client.lrange (messages_key k id) r ≡ map (message_text k) ms
      → LoadsAs (conversation_of id ms (derive_plan ms)) r (loaded_from k id r (some ms))
      → LoadsAs (conversation_of id ms (derive_plan ms)) r (
          if is_empty (k.client.lrange (messages_key k id) r)
          then (some (record { thread_id = id; messages = []; plan = []; principal = none }), r)
          else loaded_from k id r (some ms))
  load_of_log id r [] e h = rw e (ap (conversation_of id []) (sym no_plan), λ j. refl)
  load_of_log id r (m ∷ ms) e h = rw e h

  load-memory :
      (ts : Threads) (r : R) (id : String)
      → Stores k laws loads_dumps ts r id
      → All IsCanonical (log id ts)
      → LoadsAs (load ts id) r (load_redis k id r)
  unfolding load_redis
  load-memory ts r id s c =
      let (r', e, u) = refresh-Refreshed k laws loads_dumps ts r id s in
      let ms = log id ts in
      let read : LoadsAs (conversation_of id ms (derive_plan ms)) r (loaded_from k id r (some ms)) =
        subst (λ o. LoadsAs (conversation_of id ms (derive_plan ms)) r (loaded_after k id ms r o))
          (sym e) (refl, u) in
      let done = load_of_log id r ms s.messages read in
      subst (λ o. LoadsAs o r (load_redis k id r)) (sym (load_lem id ts))
        (subst
          (λ o. LoadsAs (conversation_of id ms (derive_plan ms)) r (
            if is_empty (k.client.lrange (messages_key k id) r)
            then (some (record { thread_id = id; messages = []; plan = []; principal = none }), r)
            else loaded_from k id r o))
          (sym (messages_of-log k laws loads_dumps ts r id s c)) done)

  -- The operations on a thread, from a state of the server that mirrors a state of the memory.
  pub record Serves (ts : Threads) (r : R) (id : String) (ms : List Message) (b : Boundary)
      (q : Resolved) : Type 0 where
    pub commits : Mirrors k laws loads_dumps (commit id ms b ts) (commit_redis k id ms b r)
    pub loads : (load_redis k id r).0 ≡ load ts id
    pub keeps : Mirrors k laws loads_dumps ts (load_redis k id r).1
    pub latest : latest_redis k id r ≡ some (latest_boundary ts id)
    pub resolves :
        (r' : R) × (resolve_redis k id q b r ≡ some r')
        × Mirrors k laws loads_dumps (resolve_pending id q b ts) r'

  -- If the server's lists hold the encoded logs and boundaries of the store in memory, every operation
  -- of the Redis store does the same as that of the memory: a commit and a resolution that does not
  -- fail leave the lists of every thread as they leave it in memory, a load gives the same
  -- conversation or the same failure of its plan and changes no list, and the last boundary is the
  -- same. The commands do to lists what Redis documents, a text that is
  -- dumped is loaded again, the messages of the thread are canonical, a time to live, if one is configured, is
  -- positive, and nothing expires in between.
  pub redis_refines_memory :
      (ts : Threads) (r : R) (id : String) (ms : List Message) (b : Boundary) (q : Resolved)
      → Mirrors k laws loads_dumps ts r
      → All IsCanonical (log id ts)
      → Serves ts r id ms b q
  redis_refines_memory ts r id ms b q h c =
      let read = load-memory ts r id (h id) c in
      record {
        commits = commit-Mirrors k laws loads_dumps id ms b ts r h;
        loads = read.0;
        keeps = Untouched-Mirrors k laws loads_dumps ts r (load_redis k id r).1 read.1 h;
        latest = latest-memory ts r id (h id);
        resolves = resolve-Mirrors k laws loads_dumps id q b ts r h c;
      }
