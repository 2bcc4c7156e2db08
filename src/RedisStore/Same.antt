-- ===== src/RedisStore/Same.antt =====
-- Each operation of the store on Redis, beside the operation of the store in memory.
use park_smart_harness.Base.{
  ◌≡◌, ◌≢◌, refl, sym, ap, ◌∙◌, subst, String, ◌==◌, eq_iff, eq_refl, false, Option, none, some,
  List, [], ◌∷◌, ◌++◌, map, last?, All, Bool-cases, inl, inr, if◌then◌else◌,
}
use park_smart_harness.Json.{Dict}
use park_smart_harness.Message.{Message}
use park_smart_harness.Tools.{Boundary}
use park_smart_harness.Store.{Threads, Resolved, replace_placeholders, commit, resolve_pending}
use park_smart_harness.Store.Laws.{log, boundaries, commit_lem, resolve_pending_lem}
use park_smart_harness.Codec.{
  ◌>>=◌, each, encode_message, decode_message, encode_boundary, decode_boundary,
}
use park_smart_harness.Codec.Laws.{IsCanonical, decode_message-encode, decode_boundary-encode}
use park_smart_harness.RedisStore.{
  RedisStore, messages_key, boundaries_key, is_suspended, expire_both, message_text, boundary_text,
  commit_redis, message_of, boundary_of, messages_of, refresh_on, refresh_last, has_ttl, refresh,
  rewritten, resolved_from, resolve_redis,
}
use park_smart_harness.RedisStore.Keys.{messages_key-eq, messages_boundaries-eq}
use park_smart_harness.RedisStore.Refines.{
  IsRedis, IsLasting, Stores, Mirrors, appended_messages, appended_boundary, expire_both-lrange,
}

map-append : {A B : Type 0} (f : A → B) (xs ys : List A) → map f (xs ++ ys) ≡ map f xs ++ map f ys
map-append f [] ys = refl
map-append f (x ∷ xs) ys = ap (◌∷◌ (f x)) (map-append f xs ys)

abbrev pub map_some {ℓ} : {A B : Type ℓ} → (A → B) → Option A → Option B
map_some f none = none
map_some f (some a) = some (f a)

last?-map : {A B : Type 0} (f : A → B) (xs : List A) → last? (map f xs) ≡ map_some f (last? xs)
last?-map f [] = refl
last?-map f (x ∷ []) = refl
last?-map f (x ∷ y ∷ xs) = last?-map f (y ∷ xs)

module _ {T R : Type 0} (k : RedisStore T R) (laws : IsRedis k.client × IsLasting k.ttl_minutes)
    (loads_dumps : (d : Dict) → k.loads (k.dumps d) ≡ some d) where
  message_of-text : (m : Message) → IsCanonical m → message_of k (message_text k m) ≡ some m
  message_of-text m c =
      ap (λ o. o >>= decode_message) (loads_dumps (encode_message m)) ∙ decode_message-encode m c

  pub boundary_of-text : (b : Boundary) → boundary_of k (boundary_text k b) ≡ some b
  boundary_of-text b =
      ap (λ o. o >>= decode_boundary) (loads_dumps (encode_boundary b)) ∙ decode_boundary-encode b

  each-texts :
      (ms : List Message)
      → All IsCanonical ms
      → each (message_of k) (map (message_text k) ms) ≡ some ms
  each-texts [] c = refl
  each-texts (m ∷ ms) c = rw (message_of-text m c.0, each-texts ms c.1) refl

  pub messages_of-log :
      (ts : Threads) (r : R) (id : String)
      → Stores k laws loads_dumps ts r id
      → All IsCanonical (log id ts)
      → messages_of k id r ≡ some (log id ts)
  messages_of-log ts r id s c = ap (each (message_of k)) s.messages ∙ each-texts (log id ts) c

  commit-here :
      (id : String) (ms : List Message) (b : Boundary) (ts : Threads) (r : R)
      → Stores k laws loads_dumps ts r id
      → Stores k laws loads_dumps (commit id ms b ts) (commit_redis k id ms b r) id
  unfolding commit_redis
  commit-here id ms b ts r s =
      let did = commit_lem id ms b ts in
      record {
        messages =
            appended_messages k laws loads_dumps b.status id id ms b r
            ∙ rw (eq_refl id) (
                ap (λ l. l ++ map (message_text k) ms) s.messages
                ∙ sym (map-append (message_text k) (log id ts) ms)
                ∙ ap (map (message_text k)) (sym did.0));
        ends =
            appended_boundary k laws loads_dumps b.status id id ms b r
            ∙ rw (eq_refl id) (
                ap (λ l. l ++ boundary_text k b ∷ []) s.ends
                ∙ sym (map-append (boundary_text k) (boundaries id ts) (b ∷ []))
                ∙ ap (map (boundary_text k)) (sym did.1));
      }

  commit-elsewhere :
      (id other : String) (ms : List Message) (b : Boundary) (ts : Threads) (r : R)
      → (id == other) ≡ false
      → Stores k laws loads_dumps ts r other
      → Stores k laws loads_dumps (commit id ms b ts) (commit_redis k id ms b r) other
  unfolding commit_redis
  commit-elsewhere id other ms b ts r n s =
      let far : other ≢ id = λ e. let same = (eq_iff id other).1 (sym e) in cc in
      let did = (commit_lem id ms b ts).2 other far in
      record {
        messages =
            appended_messages k laws loads_dumps b.status id other ms b r
            ∙ rw n (s.messages ∙ ap (map (message_text k)) (sym did.0));
        ends =
            appended_boundary k laws loads_dumps b.status id other ms b r
            ∙ rw n (s.ends ∙ ap (map (boundary_text k)) (sym did.1));
      }

  pub commit-Mirrors :
      (id : String) (ms : List Message) (b : Boundary) (ts : Threads) (r : R)
      → Mirrors k laws loads_dumps ts r
      → Mirrors k laws loads_dumps (commit id ms b ts) (commit_redis k id ms b r)
  commit-Mirrors id ms b ts r h other = elim (Bool-cases (id == other)) [
    | inl e ↦
        subst (Stores k laws loads_dumps (commit id ms b ts) (commit_redis k id ms b r))
          ((eq_iff id other).0 e) (commit-here id ms b ts r (h id))
    | inr n ↦ commit-elsewhere id other ms b ts r n (h other)
  ]

  cleared-here :
      (id : String) (r : R)
      → k.client.lrange (messages_key k id) (k.client.delete (messages_key k id) r) ≡ []
  cleared-here id r =
      laws.0.lrange_delete (messages_key k id) (messages_key k id) r
      ∙ rw (eq_refl (messages_key k id)) refl

  cleared-elsewhere :
      (id other : String) (r : R)
      → (id == other) ≡ false
      → k.client.lrange (messages_key k other) (k.client.delete (messages_key k id) r)
        ≡ k.client.lrange (messages_key k other) r
  cleared-elsewhere id other r n =
      laws.0.lrange_delete (messages_key k other) (messages_key k id) r
      ∙ rw (messages_key-eq k id other, n) refl

  cleared-ends :
      (id other : String) (r : R)
      → k.client.lrange (boundaries_key k other) (k.client.delete (messages_key k id) r)
        ≡ k.client.lrange (boundaries_key k other) r
  cleared-ends id other r =
      laws.0.lrange_delete (boundaries_key k other) (messages_key k id) r
      ∙ rw (messages_boundaries-eq k id other) refl

  resolve-here :
      (id : String) (q : Resolved) (b : Boundary) (ts : Threads) (r : R)
      → Stores k laws loads_dumps ts r id
      → Stores k laws loads_dumps
          (resolve_pending id q b ts)
          (rewritten k id b r (replace_placeholders q (log id ts)))
          id
  resolve-here id q b ts r s =
      let did = resolve_pending_lem id q b ts in
      let ms = replace_placeholders q (log id ts) in
      let blank = k.client.delete (messages_key k id) r in
      record {
        messages =
            appended_messages k laws loads_dumps b.status id id ms b blank
            ∙ rw (eq_refl id) (
                ap (λ l. l ++ map (message_text k) ms) (cleared-here id r)
                ∙ ap (map (message_text k)) (sym did.0));
        ends =
            appended_boundary k laws loads_dumps b.status id id ms b blank
            ∙ rw (eq_refl id) (
                ap (λ l. l ++ boundary_text k b ∷ []) (cleared-ends id id r ∙ s.ends)
                ∙ sym (map-append (boundary_text k) (boundaries id ts) (b ∷ []))
                ∙ ap (map (boundary_text k)) (sym did.1));
      }

  resolve-elsewhere :
      (id other : String) (q : Resolved) (b : Boundary) (ts : Threads) (r : R)
      → (id == other) ≡ false
      → Stores k laws loads_dumps ts r other
      → Stores k laws loads_dumps
          (resolve_pending id q b ts)
          (rewritten k id b r (replace_placeholders q (log id ts)))
          other
  resolve-elsewhere id other q b ts r n s =
      let far : other ≢ id = λ e. let same = (eq_iff id other).1 (sym e) in cc in
      let did = (resolve_pending_lem id q b ts).2 other far in
      let ms = replace_placeholders q (log id ts) in
      let blank = k.client.delete (messages_key k id) r in
      record {
        messages =
            appended_messages k laws loads_dumps b.status id other ms b blank
            ∙ rw n (
                cleared-elsewhere id other r n
                ∙ s.messages
                ∙ ap (map (message_text k)) (sym did.0));
        ends =
            appended_boundary k laws loads_dumps b.status id other ms b blank
            ∙ rw n (cleared-ends id other r ∙ s.ends ∙ ap (map (boundary_text k)) (sym did.1));
      }

  pub resolve-Mirrors :
      (id : String) (q : Resolved) (b : Boundary) (ts : Threads) (r : R)
      → Mirrors k laws loads_dumps ts r
      → All IsCanonical (log id ts)
      → (r' : R) × (resolve_redis k id q b r ≡ some r')
        × Mirrors k laws loads_dumps (resolve_pending id q b ts) r'
  unfolding resolve_redis
  resolve-Mirrors id q b ts r h c = (
    rewritten k id b r (replace_placeholders q (log id ts)),
    ap (resolved_from k id q b r) (messages_of-log ts r id (h id) c),
    λ other. elim (Bool-cases (id == other)) [
      | inl e ↦
          subst
            (Stores k laws loads_dumps (resolve_pending id q b ts)
              (rewritten k id b r (replace_placeholders q (log id ts))))
            ((eq_iff id other).0 e) (resolve-here id q b ts r (h id))
      | inr n ↦ resolve-elsewhere id other q b ts r n (h other)
    ],
  )

  abbrev pub Untouched : R → R → Type 0
  Untouched r s = (j : String) → k.client.lrange j s ≡ k.client.lrange j r

  pub Untouched-Mirrors :
      (ts : Threads) (r s : R)
      → Untouched r s
      → Mirrors k laws loads_dumps ts r
      → Mirrors k laws loads_dumps ts s
  Untouched-Mirrors ts r s u h id = record {
    messages = u _ ∙ (h id).messages;
    ends = u _ ∙ (h id).ends;
  }

  pub last_text :
      (ts : Threads) (r : R) (id : String)
      → Stores k laws loads_dumps ts r id
      → k.client.lindex_last (boundaries_key k id) r
        ≡ map_some (boundary_text k) (last? (boundaries id ts))
  last_text ts r id s =
      laws.0.lindex_lrange (boundaries_key k id) r
      ∙ ap last? s.ends
      ∙ last?-map (boundary_text k) (boundaries id ts)

  abbrev pub Refreshed : String → R → Option R → Type 0
  Refreshed id r o = (s : R) × (o ≡ some s) × Untouched r s

  renewed :
      (id : String) (b : Boundary) (r : R)
      → Refreshed id r
          (some (if is_suspended k b.status then expire_both k k.ttl_minutes id r else r))
  renewed id b r = elim (Bool-cases (is_suspended k b.status)) [
    | inl e ↦ rw e (
      expire_both k k.ttl_minutes id r,
      refl,
      λ j. expire_both-lrange k laws loads_dumps k.ttl_minutes id j r laws.1,
    )
    | inr e ↦ rw e (r, refl, λ j. refl)
  ]

  refresh_last-Refreshed :
      (id : String) (r : R) (o : Option Boundary)
      → Refreshed id r (refresh_last k id r (map_some (boundary_text k) o))
  refresh_last-Refreshed id r none = (r, refl, λ j. refl)
  refresh_last-Refreshed id r (some b) =
      subst (λ o. Refreshed id r (refresh_on k id r o)) (sym (boundary_of-text b)) (renewed id b r)

  pub refresh-Refreshed :
      (ts : Threads) (r : R) (id : String)
      → Stores k laws loads_dumps ts r id
      → Refreshed id r (refresh k id r)
  unfolding refresh
  refresh-Refreshed ts r id s = elim (Bool-cases k.refresh_on_read) [
    | inr e ↦ simp e (r, refl, λ j. refl)
    | inl e ↦ elim (Bool-cases (has_ttl k k.ttl_minutes)) [
      | inr f ↦ simp (e, f) (r, refl, λ j. refl)
      | inl f ↦
          simp (e, f)
            (subst (λ o. Refreshed id r (refresh_last k id r o)) (sym (last_text ts r id s))
              (refresh_last-Refreshed id r (last? (boundaries id ts))))
    ]
  ]
