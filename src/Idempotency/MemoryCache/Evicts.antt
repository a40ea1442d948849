-- ===== src/Idempotency/MemoryCache/Evicts.antt =====
-- What a `put` makes of the other entries: the eviction comes before the insertion.
use inc_trade.Prelude.{
  ℕ, ◌+◌, ◌≤◌, ◌≡◌, ◌∙◌, subst, refl, true, false, Option, none, some, List, [], ◌∷◌, length, arith,
  if◌then◌else◌, ltb,
}
use inc_trade.Prelude.Dict.{
  Dict, lookup, contains, erase, lookup-insert, lookup-erase_self, lookup-erase_ne,
  length-insert_new, mem-keys, length-erase,
}
use inc_trade.Idempotency.MemoryCache.{
  CacheEntry, MemoryCache, evict_loop, evict_if_needed, ttl_of, get, put, is_expired,
}
use inc_trade.Idempotency.MemoryCache.Valid.{InStep, InStep-tail, IsOrdered}

module _ {K V : Type 0} (dec : Discrete K) where
  -- The entry of the key, if it has not expired.
  abbrev pub fresh_value : ℕ → Option (CacheEntry V) → Option V
  fresh_value now none = none
  fresh_value now (some e) = if is_expired now e then none else some e.value

  pub get-fresh :
      (now : ℕ) (k : K) (c : MemoryCache K V)
      → (get dec now k c).1 ≡ fresh_value now (lookup dec k c.cache)
  unfolding get
  get-fresh now k c = ground arith

  evict_loop-fits :
      (max_size : ℕ) (order : List K) (d : Dict K (CacheEntry V)) (evictions : ℕ)
      → length d ≤ max_size
      → InStep dec order d
      → evict_loop dec max_size order d evictions ≡ (order, d, evictions)
  unfolding evict_loop
  evict_loop-fits max_size [] d evictions h s = refl
  evict_loop-fits max_size (k ∷ order) d evictions h s = ground arith

  evict_loop-over :
      (max_size : ℕ) (oldest : K) (order : List K) (d : Dict K (CacheEntry V)) (evictions : ℕ)
      → length d ≡ max_size + 1
      → InStep dec (oldest ∷ order) d
      → evict_loop dec max_size (oldest ∷ order) d evictions
        ≡ (order, erase dec oldest d, evictions + 1)
  unfolding evict_loop
  evict_loop-over max_size oldest order d evictions over s =
      let there : contains dec oldest d ≡ true = ground (arith, s.ordered oldest) in
      let shorter = length-erase dec oldest d (mem-keys dec oldest d ∙ there) in
      ground (
        arith,
        there,
        evict_loop-fits max_size order (erase dec oldest d) (evictions + 1)
            (omega (arith, shorter, over)) (InStep-tail dec oldest order d s),
      )

  -- A `put` on a cache within its maximal size evicts nothing: of the key itself, `get` then finds
  -- the value until it expires, and of every other key what it would have found before.
  pub get-put :
      (now : ℕ) (k : K) (v : V) (ttl : Option ℕ) (c : MemoryCache K V) (later : ℕ) (j : K)
      → IsOrdered dec c
      → length c.cache ≤ c.max_size
      → (get dec later j (put dec now k v ttl c)).1 ≡ (elim (dec k j) [
        | yes _ ↦ if ltb (now + ttl_of ttl c.default_ttl) later then none else some v
        | no _ ↦ (get dec later j c).1
      ])
  unfolding put evict_if_needed is_expired
  get-put now k v ttl c later j s fits =
      let entry : CacheEntry V = record {
        value = v;
        expires_at = now + ttl_of ttl c.default_ttl;
      } in
      ground (
        arith,
        get-fresh later j c,
        get-fresh later j (put dec now k v ttl c),
        evict_loop-fits c.max_size c.access_order c.cache c.evictions fits s.in_step,
        lookup-insert dec j k entry c.cache,
      )

  -- A full cache takes one entry more than its maximal size: the `put` of a key that is not there
  -- evicts nothing, and leaves one entry too many.
  pub put-full :
      (now : ℕ) (k : K) (v : V) (ttl : Option ℕ) (c : MemoryCache K V)
      → IsOrdered dec c
      → length c.cache ≡ c.max_size
      → contains dec k c.cache ≡ false
      → let after = put dec now k v ttl c in
        (length after.cache ≡ c.max_size + 1) × (after.evictions ≡ c.evictions)
  unfolding put evict_if_needed
  put-full now k v ttl c s full new =
      let entry : CacheEntry V = record {
        value = v;
        expires_at = now + ttl_of ttl c.default_ttl;
      } in
      let stays =
        evict_loop-fits c.max_size c.access_order c.cache c.evictions (omega arith) s.in_step in
      (
        ground (arith, stays, mem-keys dec k c.cache, length-insert_new dec k entry c.cache),
        ground (arith, stays),
      )

  -- A `put` on a cache that is one over its maximal size evicts the key used least recently, the
  -- first of the access order, and no other; then it stores the entry.
  pub put-evicts :
      (now : ℕ) (k : K) (v : V) (ttl : Option ℕ) (c : MemoryCache K V) (oldest : K) (order : List K)
      (j : K)
      → IsOrdered dec c
      → length c.cache ≡ c.max_size + 1
      → c.access_order ≡ oldest ∷ order
      → let after = put dec now k v ttl c in
        (after.evictions ≡ c.evictions + 1)
        × (lookup dec j after.cache ≡ (elim (dec k j) [
          | yes _ ↦ some (record { value = v; expires_at = now + ttl_of ttl c.default_ttl })
          | no _ ↦ (elim (dec oldest j) [ yes _ ↦ none | no _ ↦ lookup dec j c.cache ])
        ]))
  unfolding put evict_if_needed evict_loop
  put-evicts now k v ttl c oldest order j s over e =
      let entry : CacheEntry V = record {
        value = v;
        expires_at = now + ttl_of ttl c.default_ttl;
      } in
      let s' : InStep dec (oldest ∷ order) c.cache =
        subst (λ ks. InStep dec ks c.cache) e s.in_step in
      let one : evict_loop dec c.max_size c.access_order c.cache c.evictions
          ≡ (order, erase dec oldest c.cache, c.evictions + 1) =
        rw e (evict_loop-over c.max_size oldest order c.cache c.evictions over s') in
      (
        rw one refl,
        ground (
          arith,
          one,
          lookup-insert dec j k entry (erase dec oldest c.cache),
          lookup-erase_self dec oldest c.cache s.in_step.keys_distinct,
          lookup-erase_ne dec j oldest c.cache,
        ),
      )
