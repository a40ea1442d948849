-- ===== src/Stream/Merges.antt =====
-- A session that is reused: what `_merge_session_instruments` of brokers/common/stream_orchestrator.py leaves
-- behind if the gateway refuses.
use Prim.Native.String.{String}
use inc_trade.Prelude.{
  ℕ, Option, ◌≡◌, ◌∙◌, ap, refl, some, List, [], ◌∷◌, IsDistinct, arith, if_pos, if_neg, All,
}
use inc_trade.Prelude.Dict.{Dict, keys, insert, lookup-eq-none}
use inc_trade.Prelude.Result.{ok, err}
use inc_trade.Routing.Registry.{BrokerRegistry}
use inc_trade.Routing.Policy.{SourceSelectionPolicy}
use inc_trade.Routing.Router.{EndpointClass}
use inc_trade.Stream.Models.{
  StreamKind, HealthOps, StreamSession, SubscriptionRequest, GatewayStreams, StreamOrchestrator,
}
use inc_trade.Stream.Sessions.{
  StreamError, select_broker, put_session, find_reusable_session, difference,
}
use inc_trade.Stream.Subscribe.{
  widened, merge_new, merge_ended, register_subscription, merge_plan, open_stream,
  merge_session_instruments, subscribe_to, subscribe,
}
use inc_trade.Stream.Wired.{IsWired}
use inc_trade.Stream.Wired.Subscribe.{find_reusable_session-found}
use inc_trade.Stream.Reuse.{mem-union, difference-eq-nil}

module _ {S H : Type 0} (dec : Discrete S) (ops : HealthOps H) where
  -- A reusable session that is changed, but not in what makes it reusable, is found again.
  find_reusable_session-insert :
      (broker : S) (kind : StreamKind) (d : Dict S (StreamSession S H)) (s t : StreamSession S H)
      → IsDistinct dec (keys d)
      → All (λ (e : S × StreamSession S H). e.1.session_id ≡ e.0) d
      → find_reusable_session dec ops broker kind d ≡ some s
      → t.session_id ≡ s.session_id
      → t.broker_id ≡ s.broker_id
      → t.stream_kind ≡ s.stream_kind
      → t.health ≡ s.health
      → find_reusable_session dec ops broker kind (insert dec t.session_id t d) ≡ some t
  unfolding find_reusable_session insert
  find_reusable_session-insert broker kind [] s t u i h e0 e1 e2 e3 = absurd (ground arith)
  find_reusable_session-insert broker kind (e ∷ d) s t u i h e0 e1 e2 e3 =
      elim (dec e.0 t.session_id) [
        | yes p ↦ rw (if_pos _ p) (
            ground (
              arith,
              lookup-eq-none dec e.0 d u.0,
              find_reusable_session-found dec ops broker kind d s u.1 i.1,
            ))
        | no n ↦
            rw (if_neg _ n) (ground (arith, find_reusable_session-insert broker kind d s t u.1 i.1))
      ]

module _ {S C F G Z E T H : Type 0} (dec : Discrete S) (ops : HealthOps H)
    (streams : GatewayStreams S G E T) (r : BrokerRegistry S F G Z) where
  subscribe_to-refused :
      (sid sub_id broker : S) (request : SubscriptionRequest S C) (s : StreamSession S H) (i : S)
      (is : List S) (e : StreamError S F E) (o : StreamOrchestrator S C T H)
      → find_reusable_session dec ops broker request.stream_kind o.sessions ≡ some s
      → difference dec request.instruments s.instruments ≡ i ∷ is
      → open_stream dec streams r s.broker_id s.stream_kind (merge_plan dec s request (i ∷ is) o)
        ≡ err e
      → subscribe_to dec ops streams r sid sub_id broker request o
        ≡ (put_session dec (widened dec s request) o, err e)
  unfolding subscribe_to merge_session_instruments open_stream
  subscribe_to-refused sid sub_id broker request s i is e o f g h =
      let merged =
        ap (λ new_instruments. merge_new dec ops streams r s request o new_instruments) g
        ∙ ap (λ x. merge_ended dec ops (widened dec s request) o x) h in
      rw (subscribe_to, f)
        (ap (λ x. register_subscription dec ops streams r sub_id s.session_id request x) merged)

  subscribe_to-reused :
      (sid sub_id broker : S) (request : SubscriptionRequest S C) (s : StreamSession S H)
      (o : StreamOrchestrator S C T H)
      → find_reusable_session dec ops broker request.stream_kind o.sessions ≡ some s
      → difference dec request.instruments s.instruments ≡ []
      → (subscribe_to dec ops streams r sid sub_id broker request o).1 ≡ ok sub_id
  unfolding subscribe_to merge_session_instruments
  subscribe_to-reused sid sub_id broker request s o f g =
      rw (subscribe_to, f) (rw (merge_session_instruments, g) refl)

module _ {S C F G Z E T H : Type 0} (dec : Discrete S) (ops : HealthOps H) where
  -- The part under the lock, with the broker that has been chosen.
  merge-refused_locked :
      (streams later_streams : GatewayStreams S G E T) (r later_r : BrokerRegistry S F G Z)
      (sid sub_id later_sid later_sub broker : S) (request : SubscriptionRequest S C)
      (s : StreamSession S H) (i : S) (is : List S) (e : StreamError S F E)
      (o : StreamOrchestrator S C T H)
      → IsWired dec o
      → find_reusable_session dec ops broker request.stream_kind o.sessions ≡ some s
      → difference dec request.instruments s.instruments ≡ i ∷ is
      → open_stream dec streams r s.broker_id s.stream_kind (merge_plan dec s request (i ∷ is) o)
        ≡ err e
      → let refused = subscribe_to dec ops streams r sid sub_id broker request o in
        (refused.1 ≡ err e)
        × ((subscribe_to dec ops later_streams later_r later_sid later_sub broker request
              refused.0).1
            ≡ ok later_sub)
  merge-refused_locked streams later_streams r later_r sid sub_id later_sid later_sub broker request
        s i is e o w f g h =
      let merged = widened dec s request in
      let first =
        subscribe_to-refused dec ops streams r sid sub_id broker request s i is e o f g h in
      let again =
        find_reusable_session-insert dec ops broker request.stream_kind o.sessions s merged
          w.sessions_distinct w.ids f refl refl refl refl in
      let all_there =
        difference-eq-nil dec request.instruments merged.instruments
          (λ j m. ground (arith, mem-union dec j s.instruments request.instruments)) in
      rw first (
        refl,
        subscribe_to-reused dec ops later_streams later_r later_sid later_sub broker request merged
            (put_session dec merged o) again all_there,
      )

  subscribe-chosen :
      (streams : GatewayStreams S G E T) (r : BrokerRegistry S F G Z)
      (headroom : Option (S → EndpointClass → ℕ)) (policy : SourceSelectionPolicy S F)
      (sid sub_id broker : S) (trace : String) (request : SubscriptionRequest S C)
      (o : StreamOrchestrator S C T H)
      → select_broker dec r headroom policy request trace ≡ ok broker
      → subscribe dec ops streams r headroom policy sid sub_id trace request o
        ≡ subscribe_to dec ops streams r sid sub_id broker request o
  unfolding subscribe
  subscribe-chosen streams r headroom policy sid sub_id broker trace request o e =
      rw (subscribe, e) refl

  -- If the gateway refuses the new instruments of a request for a session that is reused, `subscribe` raises its error;
  -- and yet the same request, made once more, succeeds whatever the gateways would answer then, if the same broker is
  -- chosen for it.
  pub merge-refused :
      (streams later_streams : GatewayStreams S G E T) (r later_r : BrokerRegistry S F G Z)
      (headroom later_headroom : Option (S → EndpointClass → ℕ))
      (policy later_policy : SourceSelectionPolicy S F) (trace later_trace : String)
      (sid sub_id later_sid later_sub broker : S) (request : SubscriptionRequest S C)
      (s : StreamSession S H) (i : S) (is : List S) (e : StreamError S F E)
      (o : StreamOrchestrator S C T H)
      → IsWired dec o
      → select_broker dec r headroom policy request trace ≡ ok broker
      → select_broker dec later_r later_headroom later_policy request later_trace ≡ ok broker
      → find_reusable_session dec ops broker request.stream_kind o.sessions ≡ some s
      → difference dec request.instruments s.instruments ≡ i ∷ is
      → open_stream dec streams r s.broker_id s.stream_kind (merge_plan dec s request (i ∷ is) o)
        ≡ err e
      → let refused = subscribe dec ops streams r headroom policy sid sub_id trace request o in
        (refused.1 ≡ err e)
        × ((subscribe dec ops later_streams later_r later_headroom later_policy later_sid later_sub
              later_trace request refused.0).1
            ≡ ok later_sub)
  merge-refused streams later_streams r later_r headroom later_headroom policy later_policy trace
        later_trace sid sub_id later_sid later_sub broker request s i is e o w c later_c f g h =
      rw (subscribe-chosen streams r headroom policy sid sub_id broker trace request o c) (
        (merge-refused_locked streams later_streams r later_r sid sub_id later_sid later_sub broker
            request s i is e o w f g h).0,
        ap (λ x. x.1)
              (subscribe-chosen later_streams later_r later_headroom later_policy later_sid
                later_sub broker later_trace request _ later_c)
            ∙ (merge-refused_locked streams later_streams r later_r sid sub_id later_sid later_sub
                broker request s i is e o w f g h).1,
      )
