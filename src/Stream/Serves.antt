-- ===== src/Stream/Serves.antt =====
-- What `subscribe` and `unsubscribe` of brokers/common/stream_orchestrator.py bring about.
use Prim.Native.String.{String}
use inc_trade.Prelude.{
  ℕ, ◌≡◌, ◌≢◌, refl, Bool, true, false, Option, some, none, List, [], ◌∷◌, arith, inl, inr,
  Option-cases, List-cases, Result-cases,
}
use inc_trade.Prelude.Dict.{
  lookup, contains, erase, lookup-insert_self, lookup-erase_ne, lookup-erase_self,
}
use inc_trade.Prelude.Result.{Result, ok, err}
use inc_trade.Routing.Policy.{SourceSelectionPolicy}
use inc_trade.Routing.Registry.{BrokerRegistry, get_gateway}
use inc_trade.Routing.Router.{EndpointClass}
use inc_trade.Stream.Models.{
  HealthOps, StreamSession, SubscriptionRequest, ActiveSubscription, GatewayStreams,
  StreamOrchestrator,
}
use inc_trade.Stream.Sessions.{
  StreamError, select_broker, find_reusable_session, difference, subscribers, unsubscribe,
  disconnect_session,
}
use inc_trade.Stream.Subscribe.{
  Outcome, acknowledge, widened, opening, merge_session_instruments, merge_ended, open_ended,
  open_session, register_subscription, subscribe_to, subscribe,
}
use inc_trade.Stream.Wired.{IsWired}
use inc_trade.Stream.Wired.Subscribe.{find_reusable_session-found}
use inc_trade.Stream.Reuse.{
  kind_eq-true, mem-union, mem-of_difference, Covers, HasSession, IsServed, put-HasSession,
}

module _ {S C F G Z E T H : Type 0} (dec : Discrete S) (ops : HealthOps H)
    (streams : GatewayStreams S G E T) (r : BrokerRegistry S F G Z) where
  register-serves :
      (sub_id sid broker got : S) (request : SubscriptionRequest S C)
      (x : Outcome (StreamOrchestrator S C T H) (StreamError S F E))
      → let after = register_subscription dec ops streams r sub_id sid request x in
        after.1 ≡ ok got
        → (x.1 ≡ none → HasSession dec sid broker request x.0)
        → (got ≡ sub_id) × IsServed dec sub_id broker request after.0
  register-serves sub_id sid broker got request (o, some e) h c = absurd (ground arith)
  register-serves sub_id sid broker got request (o, none) h c =
      let a : ActiveSubscription S C = record {
        sub_id = sub_id;
        session_id = sid;
        request = request;
      } in
      (ground arith, (a, lookup-insert_self dec sub_id a o.subscriptions, refl, c refl))

  merge_ended-Covers :
      {X : Type 0} (broker : S) (s : StreamSession S H) (request : SubscriptionRequest S C)
      (o : StreamOrchestrator S C T H) (x : Result X T)
      → Covers dec broker request (widened dec s request)
      → HasSession dec s.session_id broker request
          (merge_ended dec ops (widened dec s request) o x).0
  merge_ended-Covers broker s request o (err _) c =
      put-HasSession dec broker request (widened dec s request) o c
  merge_ended-Covers broker s request o (ok _) c =
      put-HasSession dec broker request (acknowledge ops (widened dec s request)) o (record {
        at_broker = c.at_broker;
        of_kind = c.of_kind;
        has_instruments = c.has_instruments;
      })

  merge-covers :
      (broker : S) (s : StreamSession S H) (request : SubscriptionRequest S C)
      (o : StreamOrchestrator S C T H)
      → lookup dec s.session_id o.sessions ≡ some s
      → s.broker_id ≡ broker
      → s.stream_kind ≡ request.stream_kind
      → HasSession dec s.session_id broker request
          (merge_session_instruments dec ops streams r s request o).0
  unfolding merge_session_instruments
  merge-covers broker s request o h b k =
      elim (List-cases (difference dec request.instruments s.instruments)) [
        | inl e ↦
            rw (merge_session_instruments, e)
              (
                s,
                h,
                record {
                  at_broker = b;
                  of_kind = k;
                  has_instruments =
                      λ i. mem-of_difference dec i request.instruments s.instruments e;
                },
              )
        | inr (i, is, e) ↦
            rw (merge_session_instruments, e)
              (merge_ended-Covers broker s request o _ (record {
                at_broker = b;
                of_kind = k;
                has_instruments =
                    λ j m. ground (arith, mem-union dec j s.instruments request.instruments);
              }))
      ]

  open_ended-covers :
      {X : Type 0} (sid broker : S) (request : SubscriptionRequest S C)
      (o : StreamOrchestrator S C T H) (x : Result X T)
      → HasSession dec sid broker request
          (open_ended dec ops (opening ops sid broker request) request o x).0
  open_ended-covers sid broker request o (err _) =
      put-HasSession dec broker request _ o
        (record { at_broker = refl; of_kind = refl; has_instruments = λ i m. m })
  open_ended-covers sid broker request o (ok _) =
      put-HasSession dec broker request _ o
        (record { at_broker = refl; of_kind = refl; has_instruments = λ i m. m })

  open_session-covers :
      (sid broker : S) (request : SubscriptionRequest S C) (o : StreamOrchestrator S C T H)
      → HasSession dec sid broker request (open_session dec ops streams r sid broker request o).0
  unfolding open_session
  open_session-covers sid broker request o = elim (Result-cases (get_gateway dec broker r)) [
    | inr (e, f) ↦
        rw (open_session, f)
          (put-HasSession dec broker request (opening ops sid broker request) o
            (record { at_broker = refl; of_kind = refl; has_instruments = λ i m. m }))
    | inl (gw, f) ↦ rw (open_session, f) (open_ended-covers sid broker request o _)
  ]

  subscribe_to-serves :
      (sid sub_id broker got : S) (request : SubscriptionRequest S C)
      (o : StreamOrchestrator S C T H)
      → IsWired dec o
      → (subscribe_to dec ops streams r sid sub_id broker request o).1 ≡ ok got
      → (got ≡ sub_id)
        × IsServed dec sub_id broker request
            (subscribe_to dec ops streams r sid sub_id broker request o).0
  unfolding subscribe_to
  subscribe_to-serves sid sub_id broker got request o w h =
      elim (Option-cases (find_reusable_session dec ops broker request.stream_kind o.sessions)) [
        | inl e ↦
            rw (subscribe_to, e)
              (register-serves sub_id sid broker got request _ (rw (subscribe_to, e) at h)
                (λ _. open_session-covers sid broker request o))
        | inr (s, e) ↦
            let found =
              find_reusable_session-found dec ops broker request.stream_kind o.sessions s
                w.sessions_distinct w.ids e in
            rw (subscribe_to, e)
              (register-serves sub_id s.session_id broker got request _ (rw (subscribe_to, e) at h)
                (λ _.
                  merge-covers broker s request o found.0 found.1
                    (kind_eq-true s.stream_kind request.stream_kind found.2)))
      ]

  -- If `subscribe` answers with an id, it is the one made for the call, and under it stands the request, for a session
  -- that there is: at the broker that was selected, of the kind of the request, and with all of its instruments.
  pub subscribe-serves :
      (headroom : Option (S → EndpointClass → ℕ)) (policy : SourceSelectionPolicy S F)
      (sid sub_id got : S) (trace : String) (request : SubscriptionRequest S C)
      (o : StreamOrchestrator S C T H)
      → IsWired dec o
      → (subscribe dec ops streams r headroom policy sid sub_id trace request o).1 ≡ ok got
      → (got ≡ sub_id)
        × ((broker : S) × (select_broker dec r headroom policy request trace ≡ ok broker)
            × IsServed dec sub_id broker request
                (subscribe dec ops streams r headroom policy sid sub_id trace request o).0)
  unfolding subscribe
  subscribe-serves headroom policy sid sub_id got trace request o w h =
      elim (Result-cases (select_broker dec r headroom policy request trace)) [
        | inr (_, e) ↦ absurd (ground arith)
        | inl (broker, e) ↦
            let (same, served) =
              subscribe_to-serves sid sub_id broker got request o w (rw (subscribe, e) at h) in
            (same, (broker, e, rw (subscribe, e) served))
      ]

-- Whether there is a subscription.
abbrev pub in_use : {S C : Type 0} → List (ActiveSubscription S C) → Bool
in_use [] = false
in_use (a ∷ later) = true

module _ {S C T H : Type 0} (dec : Discrete S) where
  -- `unsubscribe` takes away that subscription alone, and its session exactly if no other subscription is of it. The
  -- other sessions stay as they are.
  pub unsubscribe-closes :
      (sub_id : S) (a : ActiveSubscription S C) (o : StreamOrchestrator S C T H)
      → IsWired dec o
      → lookup dec sub_id o.subscriptions ≡ some a
      → let p = unsubscribe dec sub_id o in
        ((j : S)
          → lookup dec j p.subscriptions
            ≡ (elim (dec sub_id j) [ yes _ ↦ none | no _ ↦ lookup dec j o.subscriptions ]))
        × (contains dec a.session_id p.sessions
            ≡ in_use (subscribers dec a.session_id p.subscriptions))
        × ((k : S) → k ≢ a.session_id → lookup dec k p.sessions ≡ lookup dec k o.sessions)
  unfolding unsubscribe disconnect_session
  unsubscribe-closes sub_id a o w h =
      let left = erase dec sub_id o.subscriptions in
      let gone = λ (j : S). lookup-erase_ne dec j sub_id o.subscriptions in
      let own = lookup-erase_self dec sub_id o.subscriptions w.subscriptions_distinct in
      elim (List-cases (subscribers dec a.session_id left)) [
        | inl last ↦
            rw (unsubscribe, h, last)
              (
                λ j. ground (arith, gone j, own),
                ground (
                  arith,
                  last,
                  lookup-erase_self dec a.session_id o.sessions w.sessions_distinct,
                ),
                λ k other. lookup-erase_ne dec k a.session_id o.sessions other,
              )
        | inr (b, bs, more) ↦
            rw (unsubscribe, h, more)
              (λ j. ground (arith, gone j, own), rw more (w.served sub_id a h), λ k other. refl)
      ]
