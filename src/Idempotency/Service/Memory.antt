-- ===== src/Idempotency/Service/Memory.antt =====
-- The memory cache as a backend of the service, at a reading of the clock.
use inc_trade.Prelude.{All, List, [], ◌∷◌, ℕ, ◌+◌, ◌≤◌, ◌≡◌, refl, ap, Option, some, arith}
use inc_trade.Prelude.Dict.{lookup, lookup-insert_self, lookup-erase_ne}
use inc_trade.Prelude.Result.{ok}
use inc_trade.Idempotency.MemoryCache.{
  CacheEntry, MemoryCache, is_expired, evict_if_needed, delete, clear, holds, cleanup_expired, drop,
}
use inc_trade.Idempotency.MemoryCache
use inc_trade.Idempotency.Service.{Backend, IdempotencyService, ttl_or, put, get, contains}

module _ {K V X : Type 0} (dec : Discrete K) where
  unfoldable pub memory_backend : ℕ → Backend (MemoryCache K V) K V X
  memory_backend now = record {
    fetch = λ k c. (let (c', found) = MemoryCache.get dec now k c in (c', ok found));
    store = λ k v ttl c. (MemoryCache.put dec now k v (some ttl) c, ok tt);
    remove = λ k c. (let (c', found) = delete dec k c in (c', ok found));
    holds = λ k c. (let (c', found) = holds dec now k c in (c', ok found));
    clear = λ c. (let (c', count) = clear dec c in (c', ok count));
    clean_up = λ c. (let (c', count) = cleanup_expired dec (λ k. now) c in (c', ok count));
  }

-- A call that reads: `get` of the key in question, or `contains` of any key, at a reading of the clock and with what
-- the fallback does then.
pub data Reading (F K V X : Type 0) : Type 0 where
  gets_again : ℕ → Backend F K V X → Reading F K V X
  asks : ℕ → Backend F K V X → K → Reading F K V X

abbrev pub time_of : {F K V X : Type 0} → Reading F K V X → ℕ
time_of (gets_again t fb) = t
time_of (asks t fb j) = t

module _ {F K V X : Type 0} (dec : Discrete K) (k : K) where
  unfoldable pub read_all :
      List (Reading F K V X)
      → IdempotencyService (MemoryCache K V) F
      → IdempotencyService (MemoryCache K V) F
  unfolding memory_backend
  read_all [] s = s
  read_all (gets_again t fb ∷ rs) s = read_all rs (get (memory_backend dec t) fb k s).0
  read_all (asks t fb j ∷ rs) s = read_all rs (contains (memory_backend dec t) fb j s).0

module _ {K V : Type 0} (dec : Discrete K) (k : K) (entry : CacheEntry V) where
  holds-lookup :
      (t : ℕ) (j : K) (c : MemoryCache K V)
      → t ≤ entry.expires_at
      → lookup dec k c.cache ≡ some entry
      → lookup dec k (holds dec t j c).0.cache ≡ some entry
  unfolding holds is_expired drop
  holds-lookup t j c h e = elim (dec k j) [
    | yes p ↦ ground (arith, e, p, ap (λ x. lookup dec x c.cache) p)
    | no n ↦ ground (arith, e, lookup-erase_ne dec k j c.cache n)
  ]

  get-lookup :
      (t : ℕ) (c : MemoryCache K V)
      → t ≤ entry.expires_at
      → lookup dec k c.cache ≡ some entry
      → (lookup dec k (MemoryCache.get dec t k c).0.cache ≡ some entry)
        × ((MemoryCache.get dec t k c).1 ≡ some entry.value)
  unfolding MemoryCache.get is_expired
  get-lookup t c h e = (ground (arith, e), ground (arith, e))

module _ {F K V X : Type 0} (dec : Discrete K) (k : K) (entry : CacheEntry V) where
  service_get-lookup :
      (t : ℕ) (fb : Backend F K V X) (s : IdempotencyService (MemoryCache K V) F)
      → t ≤ entry.expires_at
      → lookup dec k s.primary.cache ≡ some entry
      → (lookup dec k (get (memory_backend dec t) fb k s).0.primary.cache ≡ some entry)
        × ((get (memory_backend dec t) fb k s).1 ≡ some entry.value)
  unfolding get memory_backend
  service_get-lookup t fb s h e =
      let (stays, found) = get-lookup dec k entry t s.primary h e in ground (arith, stays, found)

  service_contains-lookup :
      (t : ℕ) (fb : Backend F K V X) (j : K) (s : IdempotencyService (MemoryCache K V) F)
      → t ≤ entry.expires_at
      → lookup dec k s.primary.cache ≡ some entry
      → lookup dec k (contains (memory_backend dec t) fb j s).0.primary.cache ≡ some entry
  unfolding contains memory_backend
  service_contains-lookup t fb j s h e =
      let stays = holds-lookup dec k entry t j s.primary h e in ground (arith, stays)

  read_all-lookup :
      (rs : List (Reading F K V X)) (s : IdempotencyService (MemoryCache K V) F)
      → All (λ r. time_of r ≤ entry.expires_at) rs
      → lookup dec k s.primary.cache ≡ some entry
      → lookup dec k (read_all dec k rs s).primary.cache ≡ some entry
  unfolding read_all
  read_all-lookup [] s early e = e
  read_all-lookup (gets_again t fb ∷ rs) s early e =
      read_all-lookup rs (get (memory_backend dec t) fb k s).0 early.1
        (service_get-lookup t fb s early.0 e).0
  read_all-lookup (asks t fb j ∷ rs) s early e =
      read_all-lookup rs (contains (memory_backend dec t) fb j s).0 early.1
        (service_contains-lookup t fb j s early.0 e)

module _ {F K V X : Type 0} (dec : Discrete K) where
  put-lookup :
      (now : ℕ) (fb : Backend F K V X) (k : K) (v : V) (ttl : Option ℕ)
      (s : IdempotencyService (MemoryCache K V) F)
      → let (after, result) = put (memory_backend dec now) fb k v ttl s in
        (result ≡ ok tt)
        × (lookup dec k after.primary.cache
            ≡ some (record { value = v; expires_at = now + ttl_or ttl s.default_ttl }))
  unfolding put memory_backend MemoryCache.put
  put-lookup now fb k v ttl s = (
    refl,
    lookup-insert_self dec k (record { value = v; expires_at = now + ttl_or ttl s.default_ttl })
        (evict_if_needed dec s.primary).cache,
  )

  -- With the memory cache for a primary, and whatever the fallback does: what is put under a key is found under it
  -- until its time to live is over, if all that comes in between is `get`s of the key and `contains` of any keys.
  pub memory-get-put :
      (fb fb' : Backend F K V X) (now later : ℕ) (k : K) (v : V) (ttl : Option ℕ)
      (rs : List (Reading F K V X)) (s : IdempotencyService (MemoryCache K V) F)
      → later ≤ now + ttl_or ttl s.default_ttl
      → All (λ r. time_of r ≤ now + ttl_or ttl s.default_ttl) rs
      → let (after, result) = put (memory_backend dec now) fb k v ttl s in
        (result ≡ ok tt)
        × ((get (memory_backend dec later) fb' k (read_all dec k rs after)).1 ≡ some v)
  memory-get-put fb fb' now later k v ttl rs s h early =
      let entry : CacheEntry V = record {
        value = v;
        expires_at = now + ttl_or ttl s.default_ttl;
      } in
      let (stored, there) = put-lookup now fb k v ttl s in
      let kept =
        read_all-lookup dec k entry rs (put (memory_backend dec now) fb k v ttl s).0 early there in
      (stored, (service_get-lookup dec k entry later fb' _ h kept).1)
