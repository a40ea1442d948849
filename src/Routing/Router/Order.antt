-- ===== src/Routing/Router/Order.antt =====
-- How `BrokerRouter.route` orders the eligible brokers.
use inc_trade.Prelude.{
  ℕ, ◌≤◌, ◌≡◌, ◌≢◌, subst, refl, Bool, true, false, Option, none, some, List, [], ◌∷◌, take,
  take-All, All-at, All, leb→le, Bool-cases, Option-cases, ltb, mem, leb, arith, if◌then◌else◌, inl,
  inr,
}
use inc_trade.Routing.Models.{OperationKind}
use inc_trade.Routing.Policy.{
  Mode, fixed, priority_list, capability_match, quota_aware, latency_aware, RoutingPolicy,
}
use inc_trade.Routing.Router.{
  EndpointClass, operation_to_endpoint_class, insert_sorted, sorted, is_historical, pick_sorted,
  maybe_parallel, apply_mode,
}

module _ {K : Type 0} (before : K → K → Bool) where
  insert_sorted-All :
      (P : K → Type 0) (x : K) (xs : List K) → P x → All P xs → All P (insert_sorted before x xs)
  unfolding insert_sorted
  insert_sorted-All P x [] h hs = (h, tt)
  insert_sorted-All P x (y ∷ ys) h hs = elim (Bool-cases (before x y)) [
    | inl first ↦ rw first (h, hs)
    | inr later ↦ rw later (hs.0, insert_sorted-All P x ys h hs.1)
  ]

  sorted-All : (P : K → Type 0) (xs : List K) → All P xs → All P (sorted before xs)
  unfolding sorted
  sorted-All P [] hs = tt
  sorted-All P (x ∷ xs) hs = insert_sorted-All P x (sorted before xs) hs.0 (sorted-All P xs hs.1)

  mem-insert_sorted :
      (dec : Discrete K) (k x : K) (xs : List K)
      → mem dec k (insert_sorted before x xs) ≡ mem dec k (x ∷ xs)
  unfolding insert_sorted
  mem-insert_sorted dec k x [] = ground arith
  mem-insert_sorted dec k x (y ∷ ys) = ground (arith, mem-insert_sorted dec k x ys)

  mem-sorted :
      (dec : Discrete K) (k : K) (xs : List K) → mem dec k (sorted before xs) ≡ mem dec k xs
  unfolding sorted
  mem-sorted dec k [] = refl
  mem-sorted dec k (x ∷ xs) =
      ground (arith, mem-insert_sorted dec k x (sorted before xs), mem-sorted dec k xs)

module _ {K : Type 0} (before : K → K → Bool) where
  -- Each element may stand after the first.
  abbrev pub IsHeadFirst : List K → Type 0
  IsHeadFirst [] = Unit
  IsHeadFirst (x ∷ xs) = All (λ y. before x y ≡ true) xs

  All-weaken : {P Q : K → Type 0} (xs : List K) → ((x : K) → P x → Q x) → All P xs → All Q xs
  All-weaken [] f h = tt
  All-weaken (x ∷ xs) f h = (f x h.0, All-weaken xs f h.1)

  module _ (total : (x y : K) → before x y ≡ false → before y x ≡ true)
      (trans : (x y z : K) → before x y ≡ true → before y z ≡ true → before x z ≡ true) where
    insert_sorted-IsHeadFirst :
        (x : K) (xs : List K) → IsHeadFirst xs → IsHeadFirst (insert_sorted before x xs)
    unfolding insert_sorted
    insert_sorted-IsHeadFirst x [] h = tt
    insert_sorted-IsHeadFirst x (y ∷ ys) h = elim (Bool-cases (before x y)) [
      | inl first ↦ rw first (first, All-weaken ys (λ z. trans x y z first) h)
      | inr later ↦
          rw later (insert_sorted-All before (λ z. before y z ≡ true) x ys (total x y later) h)
    ]

    sorted-IsHeadFirst : (xs : List K) → IsHeadFirst (sorted before xs)
    unfolding sorted
    sorted-IsHeadFirst [] = tt
    sorted-IsHeadFirst (x ∷ xs) =
        insert_sorted-IsHeadFirst x (sorted before xs) (sorted-IsHeadFirst xs)

  -- A sorted list is not empty if the list is not.
  sorted-not_empty :
      (x : K) (xs : List K) → (z : K) × (zs : List K) × (sorted before (x ∷ xs) ≡ z ∷ zs)
  unfolding sorted insert_sorted
  sorted-not_empty x xs = go (sorted before xs)
    where
      go : (ys : List K) → (z : K) × (zs : List K) × (insert_sorted before x ys ≡ z ∷ zs)
      go [] = (x, [], refl)
      go (y ∷ ys) = elim (Bool-cases (before x y)) [
        | inl first ↦ (x, y ∷ ys, rw first refl)
        | inr later ↦ (y, insert_sorted before x ys, rw later refl)
      ]

  -- The first of the sorted list may stand before every element.
  sorted-first :
      (dec : Discrete K)
      → ((x : K) → before x x ≡ true)
      → ((x y : K) → before x y ≡ false → before y x ≡ true)
      → ((x y z : K) → before x y ≡ true → before y z ≡ true → before x z ≡ true)
      → (z : K) (zs xs : List K) (k : K) → sorted before xs ≡ z ∷ zs
      → mem dec k xs ≡ true
      → before z k ≡ true
  sorted-first dec reflexive total trans z zs xs k e h =
      let first : IsHeadFirst (z ∷ zs) =
        subst (λ ys. IsHeadFirst ys) e (sorted-IsHeadFirst total trans xs) in
      All-at dec (λ y. before z y ≡ true) k (z ∷ zs) (reflexive z, first)
        (ground (arith, mem-sorted before dec k xs))

module _ {K : Type 0} where
  if-All : (P : K → Type 0) (b : Bool) (xs : List K) → All P xs → All P (if b then xs else [])
  if-All P true xs h = h
  if-All P false xs h = tt

  take-if-All :
      (P : K → Type 0) (a b : Bool) (n : ℕ) (xs : List K)
      → All P xs
      → All P (if a then (if b then take n xs else []) else [])
  take-if-All P true b n xs h = if-All P b (take n xs) (take-All P n xs h)
  take-if-All P false b n xs h = tt

module _ {K F : Type 0} where
  pick_sorted-All :
      (P : K → Type 0) (p : RoutingPolicy K F) (first : K) (scored : List K)
      (parallel : List K → List K)
      → P first
      → All P scored
      → All P (parallel scored)
      → let c = pick_sorted p first scored parallel in
        All P (c.primary ∷ c.fallbacks) × All P c.parallel
  pick_sorted-All P p first [] parallel h hs hp = ((h, if-All P p.allow_fallback [] tt), hp)
  pick_sorted-All P p first (x ∷ xs) parallel h hs hp =
      ((hs.0, if-All P p.allow_fallback xs hs.1), hp)

  maybe_parallel-All :
      (P : K → Type 0) (healthy : List K) (p : RoutingPolicy K F) (operation : OperationKind)
      → All P healthy
      → All P (maybe_parallel healthy p operation)
  unfolding maybe_parallel
  maybe_parallel-All P healthy p operation h = elim (Option-cases p.max_parallel_sources) [
    | inl e ↦ rw e tt
    | inr (n, e) ↦ rw e (take-if-All P (is_historical operation) (ltb 1 n) n healthy h)
  ]

  mem-pick_sorted :
      (before : K → K → Bool) (dec : Discrete K) (k : K) (p : RoutingPolicy K F) (first : K)
      (others : List K) (parallel : List K → List K)
      → p.allow_fallback ≡ true
      → let c = pick_sorted p first (sorted before (first ∷ others)) parallel in
        mem dec k (c.primary ∷ c.fallbacks) ≡ mem dec k (first ∷ others)
  mem-pick_sorted before dec k p first others parallel a =
      let (z, zs, e) = sorted-not_empty before first others in
      ground (arith, e, mem-sorted before dec k (first ∷ others))

  primary-pick_sorted :
      (before : K → K → Bool) (dec : Discrete K) (k : K) (p : RoutingPolicy K F) (first : K)
      (others : List K) (parallel : List K → List K)
      → ((x : K) → before x x ≡ true)
      → ((x y : K) → before x y ≡ false → before y x ≡ true)
      → ((x y z : K) → before x y ≡ true → before y z ≡ true → before x z ≡ true)
      → mem dec k (first ∷ others) ≡ true
      → before (pick_sorted p first (sorted before (first ∷ others)) parallel).primary k ≡ true
  primary-pick_sorted before dec k p first others parallel reflexive total trans h =
      let (z, zs, e) = sorted-not_empty before first others in
      rw e (sorted-first before dec reflexive total trans z zs (first ∷ others) k e h)

module _ {K F : Type 0} (latency : K → ℕ) where
  -- All chosen brokers are among the healthy ones.
  pub apply_mode-All :
      (headroom : Option (K → EndpointClass → ℕ)) (P : K → Type 0) (p : RoutingPolicy K F)
      (operation : OperationKind) (first : K) (others : List K) (mode : Mode)
      → All P (first ∷ others)
      → let c = apply_mode headroom latency p operation first others mode in
        All P (c.primary ∷ c.fallbacks) × All P c.parallel
  unfolding apply_mode
  apply_mode-All headroom P p operation first others fixed h = ((h.0, tt), tt)
  apply_mode-All headroom P p operation first others priority_list h = (
    (h.0, if-All P p.allow_fallback others h.1),
    maybe_parallel-All P (first ∷ others) p operation h,
  )
  apply_mode-All headroom P p operation first others capability_match h = (
    (h.0, if-All P p.allow_fallback others h.1),
    maybe_parallel-All P (first ∷ others) p operation h,
  )
  apply_mode-All none P p operation first others quota_aware h =
      ((h.0, if-All P p.allow_fallback others h.1), tt)
  apply_mode-All (some score) P p operation first others quota_aware h =
      let class = operation_to_endpoint_class operation in
      let before = λ (a b : K). leb (score b class) (score a class) in
      let scored = sorted before (first ∷ others) in
      let hs : All P scored = sorted-All before P (first ∷ others) h in
      pick_sorted-All P p first scored (λ ys. maybe_parallel ys p operation) h.0 hs
        (maybe_parallel-All P scored p operation hs)
  apply_mode-All headroom P p operation first others latency_aware h =
      let before = λ (a b : K). leb (latency a) (latency b) in
      pick_sorted-All P p first (sorted before (first ∷ others)) (λ _. []) h.0
        (sorted-All before P (first ∷ others) h) tt

  -- With fallbacks, and unless the mode is fixed, every healthy broker is chosen once.
  pub apply_mode-mem :
      (headroom : Option (K → EndpointClass → ℕ)) (dec : Discrete K) (k : K) (p : RoutingPolicy K F)
      (operation : OperationKind) (first : K) (others : List K) (mode : Mode)
      → p.allow_fallback ≡ true
      → mode ≢ fixed
      → let c = apply_mode headroom latency p operation first others mode in
        mem dec k (c.primary ∷ c.fallbacks) ≡ mem dec k (first ∷ others)
  unfolding apply_mode
  apply_mode-mem headroom dec k p operation first others fixed a ne = absurd (ne refl)
  apply_mode-mem headroom dec k p operation first others priority_list a ne = ground arith
  apply_mode-mem headroom dec k p operation first others capability_match a ne = ground arith
  apply_mode-mem none dec k p operation first others quota_aware a ne = ground arith
  apply_mode-mem (some score) dec k p operation first others quota_aware a ne =
      let class = operation_to_endpoint_class operation in
      let before = λ (a b : K). leb (score b class) (score a class) in
      mem-pick_sorted before dec k p first others (λ ys. maybe_parallel ys p operation) a
  apply_mode-mem headroom dec k p operation first others latency_aware a ne =
      let before = λ (a b : K). leb (latency a) (latency b) in
      mem-pick_sorted before dec k p first others (λ _. []) a

  -- The quota-aware primary has the most headroom.
  pub apply_mode-headroom :
      (score : K → EndpointClass → ℕ) (dec : Discrete K) (k : K) (p : RoutingPolicy K F)
      (operation : OperationKind) (first : K) (others : List K)
      → mem dec k (first ∷ others) ≡ true
      → let c = apply_mode (some score) latency p operation first others quota_aware in
        let class = operation_to_endpoint_class operation in score k class ≤ score c.primary class
  unfolding apply_mode
  apply_mode-headroom score dec k p operation first others h =
      let class = operation_to_endpoint_class operation in
      let before = λ (a b : K). leb (score b class) (score a class) in
      leb→le _ _ (
        primary-pick_sorted before dec k p first others (λ ys. maybe_parallel ys p operation)
          (λ x. ground arith) (λ x y e. ground arith) (λ x y z e e'. ground arith) h)
