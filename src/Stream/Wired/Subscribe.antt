-- ===== src/Stream/Wired/Subscribe.antt =====
-- Subscribing and unsubscribing keep the dicts of the stream orchestrator in agreement.
use inc_trade.Prelude.{
  ◌≡◌, refl, true, false, some, none, [], ◌∷◌, IsDistinct, arith, inl, inr, Option-cases,
  List-cases, Result-cases, All,
}
use inc_trade.Prelude.Dict.{
  Dict, keys, lookup, contains, erase, insert-IsDistinct, erase-IsDistinct, lookup-insert,
  lookup-insert_self, lookup-erase_self, lookup-erase_ne, lookup-eq-none,
}
use inc_trade.Prelude.Result.{Result, ok, err}
use inc_trade.Routing.Registry.{BrokerRegistry, get_gateway}
use inc_trade.Stream.Models.{
  StreamKind, HealthOps, StreamSession, SubscriptionRequest, GatewayStreams, StreamOrchestrator,
  kind_eq,
}
use inc_trade.Stream.Sessions.{
  StreamError, start, unsubscribe, subscribers, find_reusable_session, difference,
}
use inc_trade.Stream.Subscribe.{
  Outcome, open_stream, merge_session_instruments, open_session, merge_plan, merge_ended,
  open_ended, opening, opened_on, acknowledge, register_subscription, subscribe_to, widened,
}
use inc_trade.Stream.Wired.{
  IsWired, put_session-IsWired, disconnect_session-IsWired, put_new-IsWired, handled-IsWired,
  opened-IsWired,
}

module _ {S C T H : Type 0} (dec : Discrete S) (ops : HealthOps H) where
  pub start-IsWired : (o : StreamOrchestrator S C T H) → IsWired dec o → IsWired dec (start o)
  unfolding start
  start-IsWired o w = record {
    ids = w.ids;
    sessions_distinct = w.sessions_distinct;
    handles_distinct = w.handles_distinct;
    tasks_distinct = w.tasks_distinct;
    handlers_distinct = w.handlers_distinct;
    subscriptions_distinct = w.subscriptions_distinct;
    served = w.served;
    watched = w.watched;
    alive = w.alive;
    called = w.called;
  }

  drop-IsWired :
      (sub_id : S) (o : StreamOrchestrator S C T H)
      → IsWired dec o
      → IsWired dec (record o { subscriptions = erase dec sub_id o.subscriptions })
  drop-IsWired sub_id o w = record {
    ids = w.ids;
    sessions_distinct = w.sessions_distinct;
    handles_distinct = w.handles_distinct;
    tasks_distinct = w.tasks_distinct;
    handlers_distinct = w.handlers_distinct;
    subscriptions_distinct = erase-IsDistinct dec sub_id o.subscriptions w.subscriptions_distinct;
    served = λ k a h. ground (
      arith,
      w.served k a,
      lookup-erase_self dec sub_id o.subscriptions w.subscriptions_distinct,
      lookup-erase_ne dec k sub_id o.subscriptions,
    );
    watched = w.watched;
    alive = w.alive;
    called = w.called;
  }

  pub unsubscribe-IsWired :
      (sub_id : S) (o : StreamOrchestrator S C T H)
      → IsWired dec o
      → IsWired dec (unsubscribe dec sub_id o)
  unfolding unsubscribe
  unsubscribe-IsWired sub_id o w = elim (Option-cases (lookup dec sub_id o.subscriptions)) [
    | inl e ↦ rw (unsubscribe, e) w
    | inr (sub, e) ↦
        let left = erase dec sub_id o.subscriptions in
        let dropped = drop-IsWired sub_id o w in
        elim (List-cases (subscribers dec sub.session_id left)) [
          | inl last ↦
              rw (unsubscribe, e, last)
                (disconnect_session-IsWired dec sub.session_id (record o { subscriptions = left })
                  dropped last)
          | inr (x, xs, more) ↦ rw (unsubscribe, e, more) dropped
        ]
  ]

module _ {S H : Type 0} (dec : Discrete S) (ops : HealthOps H) where
  pub find_reusable_session-found :
      (broker : S) (kind : StreamKind) (d : Dict S (StreamSession S H)) (s : StreamSession S H)
      → IsDistinct dec (keys d)
      → All (λ (e : S × StreamSession S H). e.1.session_id ≡ e.0) d
      → find_reusable_session dec ops broker kind d ≡ some s
      → (lookup dec s.session_id d ≡ some s)
        × (s.broker_id ≡ broker)
        × (kind_eq s.stream_kind kind ≡ true)
        × (ops.is_healthy s.health ≡ true)
  unfolding find_reusable_session
  find_reusable_session-found broker kind [] s u i h = absurd (ground arith)
  find_reusable_session-found broker kind (e ∷ d) s u i h =
      ground
        (arith, lookup-eq-none dec e.0 d u.0, find_reusable_session-found broker kind d s u.1 i.1)

module _ {S C F G Z E T H : Type 0} (dec : Discrete S) (ops : HealthOps H)
    (streams : GatewayStreams S G E T) (r : BrokerRegistry S F G Z) where
  merge_ended-IsWired :
      {X : Type 0} (s t : StreamSession S H) (o : StreamOrchestrator S C T H) (x : Result X T)
      → IsWired dec o
      → lookup dec s.session_id o.sessions ≡ some s
      → t.session_id ≡ s.session_id
      → t.stream_kind ≡ s.stream_kind
      → IsWired dec (merge_ended dec ops t o x).0
  merge_ended-IsWired s t o (ok _) w h e f = put_session-IsWired dec s.session_id s _ o w h e f
  merge_ended-IsWired s t o (err _) w h e f = put_session-IsWired dec s.session_id s _ o w h e f

  merge-IsWired :
      (s : StreamSession S H) (request : SubscriptionRequest S C) (o : StreamOrchestrator S C T H)
      → IsWired dec o
      → lookup dec s.session_id o.sessions ≡ some s
      → IsWired dec (merge_session_instruments dec ops streams r s request o).0
  unfolding merge_session_instruments
  merge-IsWired s request o w h =
      elim (List-cases (difference dec request.instruments s.instruments)) [
        | inl e ↦ rw (merge_session_instruments, e) w
        | inr (i, is, e) ↦
            rw (merge_session_instruments, e) (merge_ended-IsWired s _ o _ w h refl refl)
      ]

  open_ended-IsWired :
      {X : Type 0} (s : StreamSession S H) (request : SubscriptionRequest S C)
      (o : StreamOrchestrator S C T H) (x : Result X T)
      → IsWired dec o
      → contains dec s.session_id o.sessions ≡ false
      → IsWired dec (open_ended dec ops s request o x).0
  open_ended-IsWired s request o (err _) w h = handled-IsWired dec s.session_id _ o w h refl
  open_ended-IsWired s request o (ok handle) w h =
      let t = acknowledge ops (record s { health = ops.connected s.health }) in
      opened-IsWired dec s.session_id t handle request o w h refl

  open_session-IsWired :
      (sid broker : S) (request : SubscriptionRequest S C) (o : StreamOrchestrator S C T H)
      → IsWired dec o
      → contains dec sid o.sessions ≡ false
      → IsWired dec (open_session dec ops streams r sid broker request o).0
  unfolding open_session
  open_session-IsWired sid broker request o w h = elim (Result-cases (get_gateway dec broker r)) [
    | inr (e, f) ↦ rw (open_session, f) (put_new-IsWired dec sid _ o w h refl)
    | inl (gw, f) ↦
        rw (open_session, f) (open_ended-IsWired (opening ops sid broker request) request o _ w h)
  ]

  register-IsWired :
      (sub_id sid : S) (request : SubscriptionRequest S C)
      (x : Outcome (StreamOrchestrator S C T H) (StreamError S F E))
      → IsWired dec x.0
      → (x.1 ≡ none → contains dec sid x.0.sessions ≡ true)
      → IsWired dec (register_subscription dec ops streams r sub_id sid request x).0
  register-IsWired sub_id sid request (o, some e) w h = w
  register-IsWired sub_id sid request (o, none) w h = record {
    ids = w.ids;
    sessions_distinct = w.sessions_distinct;
    handles_distinct = w.handles_distinct;
    tasks_distinct = w.tasks_distinct;
    handlers_distinct = w.handlers_distinct;
    subscriptions_distinct =
        insert-IsDistinct dec sub_id _ o.subscriptions w.subscriptions_distinct;
    served = λ k a g. ground (
      arith,
      h refl,
      w.served k a,
      lookup-insert dec k sub_id (record { sub_id = sub_id; session_id = sid; request = request })
          o.subscriptions,
    );
    watched = w.watched;
    alive = w.alive;
    called = w.called;
  }

  merge-keeps :
      (s : StreamSession S H) (request : SubscriptionRequest S C) (o : StreamOrchestrator S C T H)
      → lookup dec s.session_id o.sessions ≡ some s
      → contains dec s.session_id
          (merge_session_instruments dec ops streams r s request o).0.sessions
        ≡ true
  unfolding merge_session_instruments
  merge-keeps s request o h = elim (List-cases (difference dec request.instruments s.instruments)) [
    | inl e ↦ rw (merge_session_instruments, e) (ground arith)
    | inr (i, is, e) ↦
        rw (merge_session_instruments, e)
          (elim (Result-cases (
            open_stream dec streams r s.broker_id s.stream_kind
              (merge_plan dec s request (i ∷ is) o))) [
                | inl (_, f) ↦ rw f (
                    rw
                      (lookup-insert_self dec s.session_id (acknowledge ops (widened dec s request))
                        o.sessions)
                      refl)
                | inr (_, f) ↦ rw f (
                    rw (lookup-insert_self dec s.session_id (widened dec s request) o.sessions)
                      refl)
              ])
  ]

  open_session-keeps :
      (sid broker : S) (request : SubscriptionRequest S C) (o : StreamOrchestrator S C T H)
      → (open_session dec ops streams r sid broker request o).1 ≡ none
      → contains dec sid (open_session dec ops streams r sid broker request o).0.sessions ≡ true
  unfolding open_session opened_on
  open_session-keeps sid broker request o h = ground (
    arith,
    lookup-insert_self dec sid
        (record (opening ops sid broker request) {
          health = ops.acknowledged (ops.connected (opening ops sid broker request).health);
        })
        o.sessions,
  )

  pub subscribe_to-IsWired :
      (sid sub_id broker : S) (request : SubscriptionRequest S C) (o : StreamOrchestrator S C T H)
      → IsWired dec o
      → contains dec sid o.sessions ≡ false
      → IsWired dec (subscribe_to dec ops streams r sid sub_id broker request o).0
  unfolding subscribe_to
  subscribe_to-IsWired sid sub_id broker request o w h =
      elim (Option-cases (find_reusable_session dec ops broker request.stream_kind o.sessions)) [
        | inl e ↦
            rw (subscribe_to, e)
              (register-IsWired sub_id sid request
                (open_session dec ops streams r sid broker request o)
                (open_session-IsWired sid broker request o w h)
                (open_session-keeps sid broker request o))
        | inr (s, e) ↦
            let found =
              find_reusable_session-found dec ops broker request.stream_kind o.sessions s
                w.sessions_distinct w.ids e in
            rw (subscribe_to, e)
              (register-IsWired sub_id s.session_id request
                (merge_session_instruments dec ops streams r s request o)
                (merge-IsWired s request o w found.0) (λ _. merge-keeps s request o found.0))
      ]
