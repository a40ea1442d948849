-- ===== src/Stream/Reuse.antt =====
-- What `subscribe` of brokers/common/stream_orchestrator.py finds among the sessions and leaves in the subscriptions.
use inc_trade.Prelude.{
  ◌≡◌, refl, true, ◌||◌, not, some, List, [], ◌∷◌, arith, mem, mem-append, mem-filter,
}
use inc_trade.Prelude.Dict.{lookup, lookup-insert_self}
use inc_trade.Stream.Models.{
  StreamKind, market, order, portfolio, kind_eq, StreamSession, SubscriptionRequest,
  ActiveSubscription, StreamOrchestrator,
}
use inc_trade.Stream.Sessions.{difference, union, put_session}

pub kind_eq-true : (a b : StreamKind) → kind_eq a b ≡ true → a ≡ b
kind_eq-true market market h = refl
kind_eq-true order order h = refl
kind_eq-true portfolio portfolio h = refl
kind_eq-true _ _ h = absurd (ground arith)

pub kind_eq_self : (a : StreamKind) → kind_eq a a ≡ true
kind_eq_self market = refl
kind_eq_self order = refl
kind_eq_self portfolio = refl

module _ {S : Type 0} (dec : Discrete S) where
  pub mem-union :
      (i : S) (xs ys : List S) → mem dec i (union dec xs ys) ≡ (mem dec i xs || mem dec i ys)
  mem-union i xs ys = ground (
    arith,
    mem-append dec i xs (difference dec ys xs),
    mem-filter dec (λ x. not (mem dec x xs)) i ys,
  )

  pub difference-eq-nil :
      (xs ys : List S)
      → ((i : S) → mem dec i xs ≡ true → mem dec i ys ≡ true)
      → difference dec xs ys ≡ []
  difference-eq-nil [] ys h = refl
  difference-eq-nil (x ∷ xs) ys h =
      let here = h x (ground arith) in
      let rest = difference-eq-nil xs ys (λ i m. h i (ground arith)) in ground arith

  pub mem-of_difference :
      (i : S) (xs ys : List S)
      → difference dec xs ys ≡ []
      → mem dec i xs ≡ true
      → mem dec i ys ≡ true
  mem-of_difference i xs ys h m = ground (arith, mem-filter dec (λ x. not (mem dec x ys)) i xs)

module _ {S C H : Type 0} (dec : Discrete S) where
  -- The session is at the broker, of the kind of the request, and has all of its instruments.
  pub record Covers (broker : S) (request : SubscriptionRequest S C) (s : StreamSession S H)
      : Type 0 where
    pub at_broker : s.broker_id ≡ broker
    pub of_kind : s.stream_kind ≡ request.stream_kind
    pub has_instruments :
        (i : S) → mem dec i request.instruments ≡ true → mem dec i s.instruments ≡ true

module _ {S C T H : Type 0} (dec : Discrete S) where
  -- A session stands under this id that covers the request.
  abbrev pub HasSession : S → S → SubscriptionRequest S C → StreamOrchestrator S C T H → Type 0
  HasSession sid broker request p =
      (s : StreamSession S H) × (lookup dec sid p.sessions ≡ some s) × Covers dec broker request s

  -- The consumer of the request is registered under the id, for a session that covers the request.
  abbrev pub IsServed : S → S → SubscriptionRequest S C → StreamOrchestrator S C T H → Type 0
  IsServed sub_id broker request p =
      (a : ActiveSubscription S C) × (lookup dec sub_id p.subscriptions ≡ some a)
      × (a.request ≡ request)
      × HasSession a.session_id broker request p

  pub put-HasSession :
      (broker : S) (request : SubscriptionRequest S C) (s : StreamSession S H)
      (o : StreamOrchestrator S C T H)
      → Covers dec broker request s
      → HasSession s.session_id broker request (put_session dec s o)
  put-HasSession broker request s o c = (s, lookup-insert_self dec s.session_id s o.sessions, c)
