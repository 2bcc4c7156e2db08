-- ===== src/Examples/Server.antt =====
-- The Redis store on a server of two maps, with dictionaries for its texts.
use park_smart_harness.Base.{
  ℕ, zero, suc, ◌<◌, ◌≡◌, arith, Bool-cases, inl, inr, refl, String, ◌==◌, true, Option, none, some,
  List, [], ◌∷◌, ◌++◌, last?, if◌then◌else◌,
}
use park_smart_harness.Base.Assoc.{lookup, insert}
use park_smart_harness.Codec.{role_of}
use park_smart_harness.Json.{Dict}
use park_smart_harness.Message.{Message, plain, user, assistant, tool_message}
use park_smart_harness.Tools.{Boundary, Status}
use park_smart_harness.Store.{Resolved, commit, get_or_create, commit_thread}
use park_smart_harness.RedisStore.{Redis, RedisStore, commit_redis}
use park_smart_harness.RedisStore.Refines.{IsRedis, IsLasting, Mirrors}
use park_smart_harness.RedisStore.Serves.{Serves, redis_refines_memory}
use park_smart_harness.Examples.{switch_call, asks}

-- Lists and lives by key.
record Server : Type 0 where
  lists : String → List Dict
  lives : String → Option ℕ

-- A key without a future is deleted.
abbrev kept : ℕ → List Dict → List Dict
kept zero xs = []
kept (suc n) xs = xs

abbrev server : Redis Dict Server
server = record {
  rpush = λ k xs r. record r { lists = λ j. if k == j then r.lists j ++ xs else r.lists j };
  delete = λ k r. record r { lists = λ j. if k == j then [] else r.lists j };
  lrange = λ k r. r.lists k;
  lindex_last = λ k r. last? (r.lists k);
  expire = λ k n r. record r {
    lists = λ j. if k == j then kept n (r.lists j) else r.lists j;
    lives = λ j. if k == j then some n else r.lives j;
  };
  persist = λ k r. record r { lives = λ j. if k == j then none else r.lives j };
}

kept_lists :
    (j k : String) (n : ℕ) (r : Server)
    → 0 < n
    → server.lrange j (server.expire k n r) ≡ server.lrange j r
kept_lists j k zero r p = absurd (omega (arith, p))
kept_lists j k (suc n) r p = elim (Bool-cases (k == j)) [ inl e ↦ rw e refl | inr e ↦ rw e refl ]

server-IsRedis : IsRedis server
server-IsRedis = record {
  lrange_rpush = λ j k xs r. refl;
  lrange_delete = λ j k r. refl;
  lrange_expire = λ j k n r p. kept_lists j k n r p;
  lrange_persist = λ j k r. refl;
  lindex_lrange = λ j r. refl;
}

abbrev redis : RedisStore Dict Server
redis = record {
  client = server;
  dumps = λ d. d;
  loads = λ d. some d;
  ttl_minutes = some 30;
  refresh_on_read = true;
  key_prefix = "agentloop";
}

lasting : IsRedis server × IsLasting (some 30)
lasting = (server-IsRedis, omega arith)

abbrev empty : Server
empty = record { lists = λ k. []; lives = λ k. none }

abbrev waiting : Boundary
waiting = record {
  status = Status.awaiting_confirmation;
  turn_id = "u";
  seq = 1;
  pending_batch = some [];
  budget_snapshot = none;
}

abbrev closing : Boundary
closing = record waiting { status = Status.completed; seq = 2; pending_batch = none }

abbrev asked : List Message
asked = plain user "a" ∷ asks ∷ tool_message switch_call "[pending_confirmation]" ∷ []

abbrev decided : Resolved
decided = ("c2", tool_message switch_call "done") ∷ []

empty-Mirrors : Mirrors redis lasting (λ d. refl) [] empty
unfolding get_or_create lookup
empty-Mirrors id = record { messages = refl; ends = refl }

asked-Mirrors :
    Mirrors redis lasting
      (λ d. refl)
      (commit "t" asked waiting [])
      (commit_redis redis "t" asked waiting empty)
unfolding get_or_create lookup
asked-Mirrors =
    (redis_refines_memory redis lasting (λ d. refl) [] empty "t" asked waiting [] empty-Mirrors
      tt).commits

redis_refines_memory_example :
    Serves redis lasting
      (λ d. refl)
      (commit "t" asked waiting [])
      (commit_redis redis "t" asked waiting empty)
      "t"
      (plain assistant "done" ∷ [])
      closing
      decided
unfolding commit commit_thread get_or_create lookup insert role_of
redis_refines_memory_example =
    redis_refines_memory redis lasting (λ d. refl) (commit "t" asked waiting [])
      (commit_redis redis "t" asked waiting empty) "t" (plain assistant "done" ∷ []) closing decided
      asked-Mirrors (refl, (refl, (refl, tt)))
