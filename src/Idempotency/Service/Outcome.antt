-- ===== src/Idempotency/Service/Outcome.antt =====
-- What the idempotency service answers, by what its backends do in the calls.
use inc_trade.Prelude.{ℕ, ◌≡◌, Bool, true, false, ◌&&◌, Option, none, some, arith}
use inc_trade.Prelude.Result.{Result, ok, err}
use inc_trade.Idempotency.Service.{Backend, IdempotencyService, ttl_or, usable, recover, get, put}

abbrev is_err : {X A : Type 0} → Result X A → Bool
is_err (ok a) = false
is_err (err e) = true

module _ {P F K V X : Type 0} (pb : Backend P K V X) (fb : Backend F K V X) where
  -- A `put` raises exactly if the primary raises and there is no enabled fallback, or that raises too.
  pub put-raises :
      (k : K) (v : V) (ttl : Option ℕ) (s : IdempotencyService P F)
      → is_err (put pb fb k v ttl s).1 ≡ (
          is_err (pb.store k v (ttl_or ttl s.default_ttl) s.primary).1
          && (elim (usable s.enable_fallback s.fallback) [
            | none ↦ true
            | some f ↦ is_err (fb.store k v (ttl_or ttl s.default_ttl) f).1
          ]))
  unfolding put
  put-raises k v ttl s = ground arith

  -- The backends of a later call.
  module _ (pb' : Backend P K V X) (fb' : Backend F K V X) where
    -- Let the primary store the value, and find it in the later call. Then the service finds it too.
    pub get-put :
        (k : K) (v : V) (ttl : Option ℕ) (s : IdempotencyService P F)
        → let stored = pb.store k v (ttl_or ttl s.default_ttl) s.primary in
          (stored.1 ≡ ok tt)
          → (pb'.fetch k stored.0).1 ≡ ok (some v)
          → let (after, result) = put pb fb k v ttl s in
            (result ≡ ok tt) × ((get pb' fb' k after).1 ≡ some v)
    unfolding put get
    get-put k v ttl s h g = (ground arith, ground arith)

    -- Let the primary raise in both calls, and let the enabled fallback store the value and find it in
    -- the later call. Then the service finds it too.
    pub get-put_outage :
        (k : K) (v : V) (ttl : Option ℕ) (s : IdempotencyService P F) (f : F) (e : X)
        → let t = ttl_or ttl s.default_ttl in
          (usable s.enable_fallback s.fallback ≡ some f)
          → (pb.store k v t s.primary).1 ≡ err e
          → (pb'.fetch k (pb.store k v t s.primary).0).1 ≡ err e
          → (fb.store k v t f).1 ≡ ok tt
          → (fb'.fetch k (fb.store k v t f).0).1 ≡ ok (some v)
          → let (after, result) = put pb fb k v ttl s in
            (result ≡ ok tt) × ((get pb' fb' k after).1 ≡ some v)
    unfolding put get recover
    get-put_outage k v ttl s f e u h g h' g' = (ground arith, ground arith)

    -- A `put` that the primary takes does not reach the fallback: if the primary raises in the later
    -- call, the service answers with what the enabled fallback had before.
    pub get-stale :
        (k : K) (v old : V) (ttl : Option ℕ) (s : IdempotencyService P F) (f : F) (e : X)
        → let stored = pb.store k v (ttl_or ttl s.default_ttl) s.primary in
          (usable s.enable_fallback s.fallback ≡ some f)
          → (stored.1 ≡ ok tt)
          → (pb'.fetch k stored.0).1 ≡ err e
          → (fb'.fetch k f).1 ≡ ok (some old)
          → (get pb' fb' k (put pb fb k v ttl s).0).1 ≡ some old
    unfolding put get recover
    get-stale k v old ttl s f e u h g g' = ground arith
