-- ===== src/Idempotency/MemoryCache.antt =====
-- `MemoryIdempotencyCache` of brokers/common/idempotency/memory_cache.py. Times and times to live
-- are natural numbers of one unit; each operation is given the reading of the clock that it takes.
-- Every method is one step under the lock.
pub mod Valid
pub mod Agrees
pub mod Evicts
use inc_trade.Prelude.{
  ℕ, ◌+◌, Bool, true, false, Option, none, some, List, [], ◌∷◌, ◌++◌, length, remove, ltb,
  if◌then◌else◌,
}
use inc_trade.Prelude.Dict.{Dict, lookup, contains, insert, erase}

pub record CacheEntry (V : Type 0) : Type 0 where
  pub value : V
  pub expires_at : ℕ

unfoldable pub is_expired : {V : Type 0} → ℕ → CacheEntry V → Bool
is_expired now e = ltb e.expires_at now

pub record MemoryCache (K V : Type 0) : Type 0 where
  pub cache : Dict K (CacheEntry V)
  pub default_ttl : ℕ
  pub max_size : ℕ
  pub access_order : List K
  pub hits : ℕ
  pub misses : ℕ
  pub evictions : ℕ

unfoldable pub empty_cache : {K V : Type 0} → (default_ttl max_size : ℕ) → MemoryCache K V
empty_cache default_ttl max_size = record {
  cache = [];
  default_ttl = default_ttl;
  max_size = max_size;
  access_order = [];
  hits = 0;
  misses = 0;
  evictions = 0;
}

unfoldable pub update_access_order : {K : Type 0} → Discrete K → K → List K → List K
update_access_order dec k order = remove dec k order ++ k ∷ []

-- `ttl_seconds if ttl_seconds is not None else self._default_ttl`
abbrev pub ttl_of : Option ℕ → ℕ → ℕ
ttl_of none default_ttl = default_ttl
ttl_of (some ttl) default_ttl = ttl

-- A call of a method that changes the cache.
pub data Call (K V : Type 0) : Type 0 where
  gets : ℕ → K → Call K V
  puts : ℕ → K → V → Option ℕ → Call K V
  deletes : K → Call K V
  clears : Call K V
  asks : ℕ → K → Call K V
  cleans_up : (K → ℕ) → Call K V
  resets : Call K V

module _ {K V : Type 0} (dec : Discrete K) where
  -- The loop of `_evict_if_needed`, over the access order.
  unfoldable pub evict_loop :
      ℕ → List K → Dict K (CacheEntry V) → ℕ → List K × Dict K (CacheEntry V) × ℕ
  evict_loop max_size [] d evictions = ([], d, evictions)
  evict_loop max_size (oldest ∷ order) d evictions =
      let rest =
        if contains dec oldest d
        then evict_loop max_size order (erase dec oldest d) (evictions + 1)
        else evict_loop max_size order d evictions in
      if ltb max_size (length d) then rest else (oldest ∷ order, d, evictions)

  unfoldable pub evict_if_needed : MemoryCache K V → MemoryCache K V
  unfolding evict_loop
  evict_if_needed c =
      let (order, d, evictions) = evict_loop c.max_size c.access_order c.cache c.evictions in
      record c { cache = d; access_order = order; evictions = evictions }

  -- `del self._cache[key]`, with the key's place in the access order.
  unfoldable pub drop : K → MemoryCache K V → MemoryCache K V
  drop k c = record c { cache = erase dec k c.cache; access_order = remove dec k c.access_order }

  unfoldable pub get : ℕ → K → MemoryCache K V → MemoryCache K V × Option V
  unfolding is_expired drop update_access_order
  get now k c = elim (lookup dec k c.cache) [
    | none ↦ (record c { misses = c.misses + 1 }, none)
    | some e ↦ if is_expired now e then (record (drop k c) { misses = c.misses + 1 }, none) else (
      record c { access_order = update_access_order dec k c.access_order; hits = c.hits + 1 },
      some e.value,
    )
  ]

  unfoldable pub put : ℕ → K → V → Option ℕ → MemoryCache K V → MemoryCache K V
  unfolding evict_if_needed update_access_order
  put now k v ttl_seconds c =
      let evicted = evict_if_needed c in
      record evicted {
        cache =
            insert dec k (record { value = v; expires_at = now + ttl_of ttl_seconds c.default_ttl })
              evicted.cache;
        access_order = update_access_order dec k evicted.access_order;
      }

  unfoldable pub delete : K → MemoryCache K V → MemoryCache K V × Bool
  unfolding drop
  delete k c = if contains dec k c.cache then (drop k c, true) else (c, false)

  unfoldable pub clear : MemoryCache K V → MemoryCache K V × ℕ
  clear c = (record c { cache = []; access_order = [] }, length c.cache)

  -- The method `contains`, which drops an entry that has expired.
  unfoldable pub holds : ℕ → K → MemoryCache K V → MemoryCache K V × Bool
  unfolding is_expired drop
  holds now k c = elim (lookup dec k c.cache) [
    | none ↦ (c, false)
    | some e ↦ if is_expired now e then (drop k c, false) else (c, true)
  ]

  -- The keys of `cleanup_expired`; each entry is asked at a reading of its own.
  unfoldable pub expired_keys : (K → ℕ) → Dict K (CacheEntry V) → List K
  unfolding is_expired
  expired_keys now [] = []
  expired_keys now (e ∷ d) =
      if is_expired (now e.0) e.1 then e.0 ∷ expired_keys now d else expired_keys now d

  unfoldable pub drop_all : List K → MemoryCache K V → MemoryCache K V
  drop_all [] c = c
  drop_all (k ∷ ks) c = drop_all ks (drop k c)

  unfoldable pub cleanup_expired : (K → ℕ) → MemoryCache K V → MemoryCache K V × ℕ
  unfolding expired_keys drop_all
  cleanup_expired now c = let gone = expired_keys now c.cache in (drop_all gone c, length gone)

  unfoldable pub reset_metrics : MemoryCache K V → MemoryCache K V
  reset_metrics c = record c { hits = 0; misses = 0; evictions = 0 }

  unfoldable pub step : Call K V → MemoryCache K V → MemoryCache K V
  step (gets now k) c = (get now k c).0
  step (puts now k v ttl) c = put now k v ttl c
  step (deletes k) c = (delete k c).0
  step clears c = (clear c).0
  step (asks now k) c = (holds now k c).0
  step (cleans_up now) c = (cleanup_expired now c).0
  step resets c = reset_metrics c

  unfoldable pub run : List (Call K V) → MemoryCache K V → MemoryCache K V
  run [] c = c
  run (x ∷ xs) c = run xs (step x c)
