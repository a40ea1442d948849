-- ===== src/Idempotency/MemoryCache/Valid.antt =====
-- The access order lists the keys of the cache, each once, and the cache keeps to its size.
use inc_trade.Prelude.{
  ℕ, ◌+◌, ◌≤◌, ◌≡◌, refl, true, Option, List, [], ◌∷◌, length, mem, remove, IsDistinct, mem-append,
  mem-remove_ne, mem-remove_self, remove-IsDistinct, append-IsDistinct, arith, ltb, inl, inr,
  Option-cases, Bool-cases, sym,
}
use inc_trade.Prelude.Dict.{
  Dict, keys, lookup, contains, insert, erase, insert-IsDistinct, erase-IsDistinct, contains-insert,
  contains-erase,
}
use inc_trade.Idempotency.MemoryCache.{
  CacheEntry, MemoryCache, empty_cache, evict_loop, evict_if_needed, update_access_order, ttl_of,
  drop, get, put, is_expired, delete, clear, holds, drop_all, cleanup_expired, expired_keys,
  reset_metrics, Call, gets, puts, deletes, clears, asks, cleans_up, resets, step, run,
}

module _ {K V : Type 0} (dec : Discrete K) where
  pub record InStep (order : List K) (d : Dict K (CacheEntry V)) : Type 0 where
    pub order_distinct : IsDistinct dec order
    pub keys_distinct : IsDistinct dec (keys d)
    pub ordered : (k : K) → mem dec k order ≡ contains dec k d

  -- No key stands twice, the access order lists the keys, and there is at most one more of them than
  -- the maximal size.
  pub record IsOrdered (c : MemoryCache K V) : Type 0 where
    pub in_step : InStep c.access_order c.cache
    pub size : length c.cache ≤ c.max_size + 1

  pub InStep-tail :
      (k : K) (order : List K) (d : Dict K (CacheEntry V))
      → InStep (k ∷ order) d
      → InStep order (erase dec k d)
  InStep-tail k order d h = record {
    order_distinct = h.order_distinct.1;
    keys_distinct = erase-IsDistinct dec k d h.keys_distinct;
    ordered = λ j.
        ground (arith, h.ordered j, h.order_distinct.0, contains-erase dec j k d h.keys_distinct);
  }

  InStep-remove :
      (k : K) (order : List K) (d : Dict K (CacheEntry V))
      → InStep order d
      → InStep (remove dec k order) (erase dec k d)
  InStep-remove k order d h = record {
    order_distinct = remove-IsDistinct dec k order h.order_distinct;
    keys_distinct = erase-IsDistinct dec k d h.keys_distinct;
    ordered = λ j. elim (dec k j) [
      | yes e ↦ ground (
        arith,
        e,
        mem-remove_self dec k order h.order_distinct,
        contains-erase dec j k d h.keys_distinct,
      )
      | no n ↦ ground (
        arith,
        h.ordered j,
        mem-remove_ne dec j k order (λ e. n (sym e)),
        contains-erase dec j k d h.keys_distinct,
      )
    ];
  }

  InStep-insert :
      (k : K) (e : CacheEntry V) (order : List K) (d : Dict K (CacheEntry V))
      → InStep order d
      → InStep (update_access_order dec k order) (insert dec k e d)
  unfolding update_access_order
  InStep-insert k e order d h = record {
    order_distinct =
        append-IsDistinct dec k (remove dec k order)
          (remove-IsDistinct dec k order h.order_distinct)
          (mem-remove_self dec k order h.order_distinct);
    keys_distinct = insert-IsDistinct dec k e d h.keys_distinct;
    ordered = λ j. ground (
      arith,
      h.ordered j,
      mem-append dec j (remove dec k order) (k ∷ []),
      mem-remove_ne dec j k order,
      contains-insert dec j k e d,
    );
  }

  -- A key that is there is moved to the end of the access order.
  InStep-touch :
      (k : K) (order : List K) (d : Dict K (CacheEntry V))
      → contains dec k d ≡ true
      → InStep order d
      → InStep (update_access_order dec k order) d
  unfolding update_access_order
  InStep-touch k order d there h = record {
    order_distinct =
        append-IsDistinct dec k (remove dec k order)
          (remove-IsDistinct dec k order h.order_distinct)
          (mem-remove_self dec k order h.order_distinct);
    keys_distinct = h.keys_distinct;
    ordered = λ j. ground (
      arith,
      there,
      h.ordered j,
      h.ordered k,
      mem-append dec j (remove dec k order) (k ∷ []),
      mem-remove_ne dec j k order,
    );
  }

  -- With no key left in the order there is none in the dictionary.
  InStep-empty : (d : Dict K (CacheEntry V)) → InStep [] d → length d ≡ 0
  InStep-empty [] h = refl
  InStep-empty (e ∷ d) h = absurd (ground (arith, h.ordered e.0))

  -- The eviction keeps step, and ends within the maximal size.
  evict_loop-InStep :
      (max_size : ℕ) (order : List K) (d : Dict K (CacheEntry V)) (evictions : ℕ)
      → InStep order d
      → let (order', d', evictions') = evict_loop dec max_size order d evictions in
        InStep order' d' × (length d' ≤ max_size)
  unfolding evict_loop
  evict_loop-InStep max_size [] d evictions h = (h, ground (arith, InStep-empty d h))
  evict_loop-InStep max_size (k ∷ order) d evictions h =
      elim (Bool-cases (ltb max_size (length d))) [
        | inr fits ↦ rw fits (h, ground arith)
        | inl over ↦
            let there : contains dec k d ≡ true = ground (arith, h.ordered k) in
            rw (over, there)
              (evict_loop-InStep max_size order (erase dec k d) (evictions + 1)
                (InStep-tail k order d h))
      ]

  length-erase-le : (k : K) (d : Dict K (CacheEntry V)) → length (erase dec k d) ≤ length d
  unfolding erase
  length-erase-le k [] = ground arith
  length-erase-le k (e ∷ d) = ground (arith, length-erase-le k d)

  length-insert-le :
      (k : K) (e : CacheEntry V) (d : Dict K (CacheEntry V))
      → length (insert dec k e d) ≤ length d + 1
  unfolding insert
  length-insert-le k e [] = ground arith
  length-insert-le k e (x ∷ d) = ground (arith, length-insert-le k e d)

  pub drop-IsOrdered : (k : K) (c : MemoryCache K V) → IsOrdered c → IsOrdered (drop dec k c)
  unfolding drop
  drop-IsOrdered k c h = record {
    in_step = InStep-remove k c.access_order c.cache h.in_step;
    size = omega (arith, h.size, length-erase-le k c.cache);
  }

  drop_all-IsOrdered :
      (ks : List K) (c : MemoryCache K V) → IsOrdered c → IsOrdered (drop_all dec ks c)
  unfolding drop_all
  drop_all-IsOrdered [] c h = h
  drop_all-IsOrdered (k ∷ ks) c h = drop_all-IsOrdered ks (drop dec k c) (drop-IsOrdered k c h)

  put-IsOrdered :
      (now : ℕ) (k : K) (v : V) (ttl : Option ℕ) (c : MemoryCache K V)
      → IsOrdered c
      → IsOrdered (put dec now k v ttl c)
  unfolding put evict_if_needed
  put-IsOrdered now k v ttl c h =
      let entry : CacheEntry V = record {
        value = v;
        expires_at = now + ttl_of ttl c.default_ttl;
      } in
      let (order, d, evictions) = evict_loop dec c.max_size c.access_order c.cache c.evictions in
      let (in_step, fits) =
        evict_loop-InStep c.max_size c.access_order c.cache c.evictions h.in_step in
      record {
        in_step = InStep-insert k entry order d in_step;
        size = omega (arith, fits, length-insert-le k entry d);
      }

  get-IsOrdered :
      (now : ℕ) (k : K) (c : MemoryCache K V) → IsOrdered c → IsOrdered (get dec now k c).0
  unfolding get
  get-IsOrdered now k c h = elim (Option-cases (lookup dec k c.cache)) [
    | inl missing ↦ rw (get, missing) (record { in_step = h.in_step; size = h.size })
    | inr (e, found) ↦ elim (Bool-cases (is_expired now e)) [
      | inl old ↦
          let dropped = drop-IsOrdered k c h in
          rw (get, found, old) (record { in_step = dropped.in_step; size = dropped.size })
      | inr fresh ↦
          let there : contains dec k c.cache ≡ true = rw found refl in
          rw (get, found, fresh)
            (record {
              in_step = InStep-touch k c.access_order c.cache there h.in_step;
              size = h.size;
            })
    ]
  ]

  holds-IsOrdered :
      (now : ℕ) (k : K) (c : MemoryCache K V) → IsOrdered c → IsOrdered (holds dec now k c).0
  unfolding holds
  holds-IsOrdered now k c h = elim (Option-cases (lookup dec k c.cache)) [
    | inl missing ↦ rw (holds, missing) h
    | inr (e, found) ↦ elim (Bool-cases (is_expired now e)) [
      | inl old ↦ rw (holds, found, old) (drop-IsOrdered k c h)
      | inr fresh ↦ rw (holds, found, fresh) h
    ]
  ]

  delete-IsOrdered : (k : K) (c : MemoryCache K V) → IsOrdered c → IsOrdered (delete dec k c).0
  unfolding delete
  delete-IsOrdered k c h = elim (Bool-cases (contains dec k c.cache)) [
    | inl there ↦ rw there (drop-IsOrdered k c h)
    | inr missing ↦ rw missing h
  ]

  pub step-IsOrdered : (x : Call K V) (c : MemoryCache K V) → IsOrdered c → IsOrdered (step dec x c)
  unfolding step clear cleanup_expired reset_metrics
  step-IsOrdered (gets now k) c h = get-IsOrdered now k c h
  step-IsOrdered (puts now k v ttl) c h = put-IsOrdered now k v ttl c h
  step-IsOrdered (deletes k) c h = delete-IsOrdered k c h
  step-IsOrdered clears c h = record {
    in_step = record { order_distinct = tt; keys_distinct = tt; ordered = λ k. refl };
    size = omega arith;
  }
  step-IsOrdered (asks now k) c h = holds-IsOrdered now k c h
  step-IsOrdered (cleans_up now) c h = drop_all-IsOrdered (expired_keys dec now c.cache) c h
  step-IsOrdered resets c h = record { in_step = h.in_step; size = h.size }

  run-IsOrdered_from :
      (xs : List (Call K V)) (c : MemoryCache K V) → IsOrdered c → IsOrdered (run dec xs c)
  unfolding run
  run-IsOrdered_from [] c h = h
  run-IsOrdered_from (x ∷ xs) c h = run-IsOrdered_from xs (step dec x c) (step-IsOrdered x c h)

  -- After any calls of an empty cache, the access order lists exactly the keys, each once, and they
  -- are at most one more than the maximal size.
  pub run-IsOrdered :
      (xs : List (Call K V)) (default_ttl max_size : ℕ)
      → IsOrdered (run dec xs (empty_cache default_ttl max_size))
  unfolding empty_cache
  run-IsOrdered xs default_ttl max_size =
      run-IsOrdered_from xs (empty_cache default_ttl max_size) (record {
        in_step = record { order_distinct = tt; keys_distinct = tt; ordered = λ k. refl };
        size = omega arith;
      })
