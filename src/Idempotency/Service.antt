-- ===== src/Idempotency/Service.antt =====
-- `IdempotencyCacheBackend` and `IdempotencyService` of brokers/common/idempotency/service.py. What a
-- backend does in a call, an exception included, is a `Backend` that the call is given; a backend
-- that raises may leave any state behind. Every method is one step under the lock.
pub mod Outcome
pub mod Memory
use inc_trade.Prelude.{ℕ, ◌+◌, Bool, true, false, ◌&&◌, ◌||◌, Option, none, some, if◌then◌else◌}
use inc_trade.Prelude.Result.{Result, ok, err}

-- The abstract methods, on a state `B`, with exceptions `X`.
pub record Backend (B K V X : Type 0) : Type 0 where
  pub fetch : K → B → B × Result X (Option V)
  pub store : K → V → ℕ → B → B × Result X Unit
  pub remove : K → B → B × Result X Bool
  pub holds : K → B → B × Result X Bool
  pub clear : B → B × Result X ℕ
  pub clean_up : B → B × Result X ℕ

pub record Metrics : Type 0 where
  pub get_hits : ℕ
  pub get_misses : ℕ
  pub put_operations : ℕ
  pub fallback_operations : ℕ
  pub primary_failures : ℕ

pub record IdempotencyService (P F : Type 0) : Type 0 where
  pub primary : P
  pub fallback : Option F
  pub default_ttl : ℕ
  pub enable_fallback : Bool
  pub metrics : Metrics

-- `IdempotencyError`, with the exception that it tells of.
pub record IdempotencyError (X : Type 0) : Type 0 where
  pub cause : X

unfoldable pub new_service : {P F : Type 0} → P → Option F → ℕ → Bool → IdempotencyService P F
new_service primary fallback default_ttl enable = record {
  primary = primary;
  fallback = fallback;
  default_ttl = default_ttl;
  enable_fallback = enable;
  metrics = record {
    get_hits = 0;
    get_misses = 0;
    put_operations = 0;
    fallback_operations = 0;
    primary_failures = 0;
  };
}

abbrev pub add_hit : Metrics → Metrics
add_hit m = record m { get_hits = m.get_hits + 1 }

abbrev pub add_miss : Metrics → Metrics
add_miss m = record m { get_misses = m.get_misses + 1 }

abbrev pub add_put : Metrics → Metrics
add_put m = record m { put_operations = m.put_operations + 1 }

abbrev pub add_fallback : Metrics → Metrics
add_fallback m = record m { fallback_operations = m.fallback_operations + 1 }

abbrev pub add_failure : Metrics → Metrics
add_failure m = record m { primary_failures = m.primary_failures + 1 }

-- `ttl_seconds if ttl_seconds is not None else self._default_ttl`
abbrev pub ttl_or : Option ℕ → ℕ → ℕ
ttl_or none default = default
ttl_or (some ttl) default = ttl

-- `self._fallback`, if there is one and it is enabled.
abbrev pub usable : {F : Type 0} → Bool → Option F → Option F
usable true fallback = fallback
usable false fallback = none

abbrev pub or_default : {X A : Type 0} → A → Result X A → A
or_default default (ok a) = a
or_default default (err e) = default

module _ {P F K V X : Type 0} (pb : Backend P K V X) (fb : Backend F K V X) where
  -- The `except` clause of `get`, for whatever raised in its `try`.
  unfoldable pub recover : K → IdempotencyService P F → IdempotencyService P F × Option V
  recover k s = elim (usable s.enable_fallback s.fallback) [
    | none ↦ (record s { metrics = add_failure s.metrics }, none)
    | some f ↦
        let (f', answer) = fb.fetch k f in
        (
          record s { fallback = some f'; metrics = add_fallback (add_failure s.metrics) },
          or_default none answer,
        )
  ]

  -- A miss of the primary: the fallback is asked, and what it has is stored in the primary again.
  unfoldable pub ask_fallback : K → IdempotencyService P F → IdempotencyService P F × Option V
  unfolding recover
  ask_fallback k s = elim (usable s.enable_fallback s.fallback) [
    | none ↦ (s, none)
    | some f ↦
        let (f', answer) = fb.fetch k f in
        let asked : IdempotencyService P F = record s {
          fallback = some f';
          metrics = add_fallback s.metrics;
        } in
        elim answer [
          | ok none ↦ (asked, none)
          | ok (some v) ↦
              (record asked { primary = (pb.store k v s.default_ttl s.primary).0 }, some v)
          | err e ↦ recover k asked
        ]
  ]

  unfoldable pub get : K → IdempotencyService P F → IdempotencyService P F × Option V
  unfolding recover ask_fallback
  get k s =
      let (p, answer) = pb.fetch k s.primary in
      let s' : IdempotencyService P F = record s { primary = p } in
      elim answer [
        | ok (some v) ↦ (record s' { metrics = add_hit s.metrics }, some v)
        | ok none ↦ ask_fallback k (record s' { metrics = add_miss s.metrics })
        | err e ↦ recover k s'
      ]

  -- `put`, with the time to live of the caller or the default.
  unfoldable pub put :
      K
      → V
      → Option ℕ
      → IdempotencyService P F
      → IdempotencyService P F × Result (IdempotencyError X) Unit
  put k v ttl_seconds s =
      let ttl = ttl_or ttl_seconds s.default_ttl in
      let (p, stored) = pb.store k v ttl s.primary in
      let s' : IdempotencyService P F = record s { primary = p; metrics = add_put s.metrics } in
      elim stored [
        | ok _ ↦ (s', ok tt)
        | err e ↦ elim (usable s.enable_fallback s.fallback) [
          | none ↦ (record s' { metrics = add_failure s'.metrics }, err (record { cause = e }))
          | some f ↦
              let (f', stored') = fb.store k v ttl f in
              let after : IdempotencyService P F = record s' {
                fallback = some f';
                metrics = add_fallback (add_failure s'.metrics);
              } in
              elim stored' [ ok _ ↦ (after, ok tt) | err e' ↦ (after, err (record { cause = e' })) ]
        ]
      ]

  -- An operation on both backends, for which an exception counts as `default`.
  abbrev pub on_both :
      {A : Type 0}
      → A
      → (P → P × Result X A)
      → (F → F × Result X A)
      → IdempotencyService P F
      → IdempotencyService P F × A × A
  on_both default on_primary on_fallback s =
      let (p, answer) = on_primary s.primary in
      elim s.fallback [
        | none ↦ (record s { primary = p }, or_default default answer, default)
        | some f ↦
            let (f', answer') = on_fallback f in
            (
              record s { primary = p; fallback = some f' },
              or_default default answer,
              or_default default answer',
            )
      ]

  unfoldable pub delete : K → IdempotencyService P F → IdempotencyService P F × Bool
  delete k s =
      let (after, deleted, deleted') = on_both false (pb.remove k) (fb.remove k) s in
      (after, deleted || deleted')

  unfoldable pub clear : IdempotencyService P F → IdempotencyService P F × ℕ
  clear s =
      let (after, cleared, cleared') = on_both 0 pb.clear fb.clear s in (after, cleared + cleared')

  unfoldable pub cleanup_expired : IdempotencyService P F → IdempotencyService P F × ℕ
  cleanup_expired s =
      let (after, cleaned, cleaned') = on_both 0 pb.clean_up fb.clean_up s in
      (after, cleaned + cleaned')

  -- `contains`: the fallback is asked only if the primary says no or raises.
  unfoldable pub contains : K → IdempotencyService P F → IdempotencyService P F × Bool
  contains k s =
      let (p, answer) = pb.holds k s.primary in
      let s' : IdempotencyService P F = record s { primary = p } in
      if or_default false answer then (s', true) else (elim s.fallback [
        | none ↦ (s', false)
        | some f ↦
            let (f', answer') = fb.holds k f in
            (record s' { fallback = some f' }, or_default false answer')
      ])
