-- ===== src/Idempotency/MemoryCache/Agrees.antt =====
-- What `get` answers, against the history of the calls.
use inc_trade.Prelude.{
  ℕ, ◌+◌, ◌≤◌, ◌≡◌, ◌∙◌, subst, refl, sym, true, Option, none, some, List, [], ◌∷◌, length, arith,
  ltb, ◌⊎◌, inl, inr, Option-cases, Bool-cases,
}
use inc_trade.Prelude.Dict.{
  Dict, lookup, contains, insert, erase, lookup-insert, lookup-erase_self, lookup-erase_ne,
}
use inc_trade.Idempotency.MemoryCache.{
  CacheEntry, MemoryCache, empty_cache, evict_loop, evict_if_needed, ttl_of, drop, get, put,
  is_expired, delete, clear, holds, drop_all, cleanup_expired, expired_keys, reset_metrics, Call,
  gets, puts, deletes, clears, asks, cleans_up, resets, step, run,
}
use inc_trade.Idempotency.MemoryCache.Valid.{
  InStep, drop-IsOrdered, IsOrdered, InStep-tail, step-IsOrdered, run-IsOrdered,
}

module _ {K V : Type 0} (dec : Discrete K) where
  -- What a call makes of what the history tells of each key: the latest entry put, unless it was
  -- deleted since.
  pub tell : ℕ → Call K V → (K → Option (CacheEntry V)) → K → Option (CacheEntry V)
  tell default_ttl (puts now k v ttl) told j = elim (dec k j) [
    | yes _ ↦ some (record { value = v; expires_at = now + ttl_of ttl default_ttl })
    | no _ ↦ told j
  ]
  tell default_ttl (deletes k) told j = elim (dec k j) [ yes _ ↦ none | no _ ↦ told j ]
  tell default_ttl clears told j = none
  tell default_ttl _ told j = told j

  pub tell_all : ℕ → List (Call K V) → (K → Option (CacheEntry V)) → K → Option (CacheEntry V)
  tell_all default_ttl [] told = told
  tell_all default_ttl (x ∷ xs) told = tell_all default_ttl xs (tell default_ttl x told)

  -- The cache holds of each key what the history tells, or nothing.
  abbrev Agrees : (K → Option (CacheEntry V)) → Dict K (CacheEntry V) → Type 0
  Agrees told d = (k : K) → (lookup dec k d ≡ none) ⊎ (lookup dec k d ≡ told k)

  erase-Agrees :
      (told : K → Option (CacheEntry V)) (order : List K) (d : Dict K (CacheEntry V)) (k : K)
      → InStep dec order d
      → Agrees told d
      → Agrees told (erase dec k d)
  erase-Agrees told order d k s h j = elim (dec j k) [
    | yes same ↦ inl (rw same (lookup-erase_self dec k d s.keys_distinct))
    | no other ↦ rw (lookup-erase_ne dec j k d other) (h j)
  ]

  evict_loop-Agrees :
      (told : K → Option (CacheEntry V)) (max_size : ℕ) (order : List K) (d : Dict K (CacheEntry V))
      (evictions : ℕ)
      → InStep dec order d
      → Agrees told d
      → Agrees told (evict_loop dec max_size order d evictions).1
  unfolding evict_loop
  evict_loop-Agrees told max_size [] d evictions s h = h
  evict_loop-Agrees told max_size (k ∷ order) d evictions s h =
      elim (Bool-cases (ltb max_size (length d))) [
        | inr fits ↦ rw fits h
        | inl over ↦
            let there : contains dec k d ≡ true = ground (arith, s.ordered k) in
            rw (over, there)
              (evict_loop-Agrees told max_size order (erase dec k d) (evictions + 1)
                (InStep-tail dec k order d s) (erase-Agrees told (k ∷ order) d k s h))
      ]

  insert-Agrees :
      (told told' : K → Option (CacheEntry V)) (d : Dict K (CacheEntry V)) (k : K)
      (e : CacheEntry V)
      → ((j : K) → told' j ≡ (elim (dec k j) [ yes _ ↦ some e | no _ ↦ told j ]))
      → Agrees told d
      → Agrees told' (insert dec k e d)
  insert-Agrees told told' d k e t h j = elim (dec k j) [
    | yes same ↦ inr (ground (arith, t j, lookup-insert dec j k e d))
    | no other ↦ elim (h j) [
      | inl missing ↦ inl (ground (arith, missing, lookup-insert dec j k e d))
      | inr agrees ↦ inr (ground (arith, t j, agrees, lookup-insert dec j k e d))
    ]
  ]

  drop_all-Agrees :
      (told : K → Option (CacheEntry V)) (ks : List K) (c : MemoryCache K V)
      → IsOrdered dec c
      → Agrees told c.cache
      → Agrees told (drop_all dec ks c).cache
  unfolding drop_all drop
  drop_all-Agrees told [] c s h = h
  drop_all-Agrees told (k ∷ ks) c s h =
      drop_all-Agrees told ks (drop dec k c) (drop-IsOrdered dec k c s)
        (erase-Agrees told c.access_order c.cache k s.in_step h)

  get-Agrees :
      (told : K → Option (CacheEntry V)) (now : ℕ) (k : K) (c : MemoryCache K V)
      → IsOrdered dec c
      → Agrees told c.cache
      → Agrees told (get dec now k c).0.cache
  unfolding get drop
  get-Agrees told now k c s h = elim (Option-cases (lookup dec k c.cache)) [
    | inl missing ↦ rw (get, missing) h
    | inr (e, found) ↦ elim (Bool-cases (is_expired now e)) [
      | inl old ↦ rw (get, found, old) (erase-Agrees told c.access_order c.cache k s.in_step h)
      | inr fresh ↦ rw (get, found, fresh) h
    ]
  ]

  holds-Agrees :
      (told : K → Option (CacheEntry V)) (now : ℕ) (k : K) (c : MemoryCache K V)
      → IsOrdered dec c
      → Agrees told c.cache
      → Agrees told (holds dec now k c).0.cache
  unfolding holds drop
  holds-Agrees told now k c s h = elim (Option-cases (lookup dec k c.cache)) [
    | inl missing ↦ rw (holds, missing) h
    | inr (e, found) ↦ elim (Bool-cases (is_expired now e)) [
      | inl old ↦ rw (holds, found, old) (erase-Agrees told c.access_order c.cache k s.in_step h)
      | inr fresh ↦ rw (holds, found, fresh) h
    ]
  ]

  delete-Agrees :
      (told : K → Option (CacheEntry V)) (default_ttl : ℕ) (k : K) (c : MemoryCache K V)
      → IsOrdered dec c
      → Agrees told c.cache
      → Agrees (tell default_ttl (deletes k) told) (delete dec k c).0.cache
  unfolding tell delete drop
  delete-Agrees told default_ttl k c s h j = ground (
    arith,
    h j,
    lookup-erase_self dec k c.cache s.in_step.keys_distinct,
    lookup-erase_ne dec j k c.cache,
  )

  step-Agrees :
      (told : K → Option (CacheEntry V)) (x : Call K V) (c : MemoryCache K V)
      → IsOrdered dec c
      → Agrees told c.cache
      → Agrees (tell c.default_ttl x told) (step dec x c).cache
  unfolding step tell put evict_if_needed clear cleanup_expired reset_metrics
  step-Agrees told (gets now k) c s h = get-Agrees told now k c s h
  step-Agrees told (puts now k v ttl) c s h =
      let entry : CacheEntry V = record {
        value = v;
        expires_at = now + ttl_of ttl c.default_ttl;
      } in
      let kept = evict_loop-Agrees told c.max_size c.access_order c.cache c.evictions s.in_step h in
      insert-Agrees told (tell c.default_ttl (puts now k v ttl) told)
        (evict_loop dec c.max_size c.access_order c.cache c.evictions).1 k entry (λ j. refl) kept
  step-Agrees told (deletes k) c s h = delete-Agrees told c.default_ttl k c s h
  step-Agrees told clears c s h = λ k. inl refl
  step-Agrees told (asks now k) c s h = holds-Agrees told now k c s h
  step-Agrees told (cleans_up now) c s h = drop_all-Agrees told (expired_keys dec now c.cache) c s h
  step-Agrees told resets c s h = h

  drop_all-default_ttl :
      (ks : List K) (c : MemoryCache K V) → (drop_all dec ks c).default_ttl ≡ c.default_ttl
  unfolding drop_all drop
  drop_all-default_ttl [] c = refl
  drop_all-default_ttl (k ∷ ks) c = drop_all-default_ttl ks (drop dec k c)

  step-default_ttl :
      (x : Call K V) (c : MemoryCache K V) → (step dec x c).default_ttl ≡ c.default_ttl
  unfolding step get put delete clear holds cleanup_expired reset_metrics drop evict_if_needed
  step-default_ttl (gets now k) c = ground arith
  step-default_ttl (puts now k v ttl) c = refl
  step-default_ttl (deletes k) c = ground arith
  step-default_ttl clears c = refl
  step-default_ttl (asks now k) c = ground arith
  step-default_ttl (cleans_up now) c = drop_all-default_ttl (expired_keys dec now c.cache) c
  step-default_ttl resets c = refl

  run-Agrees :
      (xs : List (Call K V)) (told : K → Option (CacheEntry V)) (c : MemoryCache K V)
      (default_ttl : ℕ)
      → c.default_ttl ≡ default_ttl
      → IsOrdered dec c
      → Agrees told c.cache
      → Agrees (tell_all default_ttl xs told) (run dec xs c).cache
  unfolding run tell_all
  run-Agrees [] told c default_ttl e s h = h
  run-Agrees (x ∷ xs) told c default_ttl e s h =
      let h' = step-Agrees told x c s h in
      run-Agrees xs (tell default_ttl x told) (step dec x c) default_ttl (step-default_ttl x c ∙ e)
        (step-IsOrdered dec x c s) (subst (λ t. Agrees (tell t x told) (step dec x c).cache) e h')

  answers_entry :
      (now : ℕ) (k : K) (v : V) (c : MemoryCache K V)
      → (get dec now k c).1 ≡ some v
      → (e : CacheEntry V) × (lookup dec k c.cache ≡ some e) × (e.value ≡ v) × (now ≤ e.expires_at)
  unfolding get is_expired
  answers_entry now k v c h = elim (Option-cases (lookup dec k c.cache)) [
    | inl missing ↦ absurd (ground arith)
    | inr (e, found) ↦ (e, found, ground arith, ground arith)
  ]

  -- After any calls of an empty cache, what `get` finds is the value of the latest `put` of that key,
  -- which has not expired, and which no `delete` and no `clear` has removed since.
  pub get-latest :
      (xs : List (Call K V)) (default_ttl max_size now : ℕ) (k : K) (v : V)
      → (get dec now k (run dec xs (empty_cache default_ttl max_size))).1 ≡ some v
      → (e : CacheEntry V) × (tell_all default_ttl xs (λ j. none) k ≡ some e)
        × (e.value ≡ v)
        × (now ≤ e.expires_at)
  unfolding empty_cache run
  get-latest xs default_ttl max_size now k v h =
      let c = run dec xs (empty_cache default_ttl max_size) in
      let (e, found, same, fresh) = answers_entry now k v c h in
      let agrees =
        run-Agrees xs (λ j. none) (empty_cache default_ttl max_size) default_ttl refl
          (run-IsOrdered dec [] default_ttl max_size) (λ j. inl refl) in
      elim (agrees k) [
        | inl missing ↦ absurd (ground arith)
        | inr told ↦ (e, sym told ∙ found, same, fresh)
      ]
