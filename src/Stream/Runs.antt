-- ===== src/Stream/Runs.antt =====
-- The steps of the stream orchestrator between two calls of `stop`, and what every run of them keeps.
use Prim.Native.String.{String}
use inc_trade.Prelude.{
  ℕ, ◌≡◌, ◌∙◌, refl, Bool, false, Option, some, none, [], ◌∷◌, arith, map, All, inl, inr,
  Option-cases, Result-cases,
}
use inc_trade.Prelude.Dict.{Dict, keys, lookup, contains, All-lookup}
use inc_trade.Prelude.Result.{Result, ok, err}
use inc_trade.Routing.Policy.{SourceSelectionPolicy}
use inc_trade.Routing.Registry.{BrokerRegistry}
use inc_trade.Routing.Router.{EndpointClass}
use inc_trade.Stream.Models.{
  StreamKind, market, order, portfolio, HealthOps, StreamSession, SubscriptionRequest,
  GatewayStreams, StreamOrchestrator, new_orchestrator,
}
use inc_trade.Stream.Sessions.{start, unsubscribe, select_broker}
use inc_trade.Stream.Subscribe.{subscribe}
use inc_trade.Stream.Reconnect.{watch, reopen}
use inc_trade.Stream.Normalise.{
  ValueOps, OrderUpdate, normalize_order_update, Frame, normalize_tick, MarketTick,
}
use inc_trade.Stream.Frames.{
  deliver_order_update, handle_frame, delivered, delivered_tick, delivered_update, deliver_tick,
  heartbeat_round, check_freshness,
}
use inc_trade.Stream.Wired.{IsWired, put_session-IsWired}
use inc_trade.Stream.Wired.Subscribe.{start-IsWired, unsubscribe-IsWired, subscribe_to-IsWired}
use inc_trade.Stream.Wired.Reconnect.{watch-IsWired, reopen-IsWired}

module _ {S C T H V X N : Type 0} (F G Z E : Type 0) (dec : Discrete S) (ops : HealthOps H)
    (py : ValueOps V X N) where
  -- One step. The gateways, the registry and the policy may be others at each.
  pub data Step : StreamOrchestrator S C T H → StreamOrchestrator S C T H → Type 0 where
    started : (o : StreamOrchestrator S C T H) → Step o (start o)
    subscribed :
        (streams : GatewayStreams S G E T) (r : BrokerRegistry S F G Z)
        (headroom : Option (S → EndpointClass → ℕ)) (policy : SourceSelectionPolicy S F)
        (sid sub_id : S) (trace : String) (request : SubscriptionRequest S C)
        (o : StreamOrchestrator S C T H)
        → contains dec sid o.sessions ≡ false
        → Step o (subscribe dec ops streams r headroom policy sid sub_id trace request o).0
    unsubscribed : (sub_id : S) (o : StreamOrchestrator S C T H) → Step o (unsubscribe dec sub_id o)
    watched :
        (is_connected : T → Bool) (sid : S) (o : StreamOrchestrator S C T H)
        → Step o (watch dec ops is_connected sid o).0
    reopened :
        (streams : GatewayStreams S G E T) (r : BrokerRegistry S F G Z)
        (headroom : Option (S → EndpointClass → ℕ)) (policy : SourceSelectionPolicy S F)
        (trace : String) (sid : S) (o : StreamOrchestrator S C T H)
        → Step o (reopen dec ops streams r headroom policy trace sid o)
    framed :
        (now at : ℕ) (sid : S) (kind : StreamKind) (frame : Frame V)
        (o : StreamOrchestrator S C T H)
        → Step o (handle_frame dec ops py now at sid kind frame o).0
    beaten : (now : ℕ) (o : StreamOrchestrator S C T H) → Step o (heartbeat_round ops now o).0

  -- A run from one state to another.
  pub data Run : StreamOrchestrator S C T H → StreamOrchestrator S C T H → Type 0 where
    done : (o : StreamOrchestrator S C T H) → Run o o
    next : {o p q : StreamOrchestrator S C T H} → Step o p → Run p q → Run o q

module _ {S C T H : Type 0} (dec : Discrete S) (ops : HealthOps H) where
  deliver_tick-IsWired :
      {V N : Type 0} (at : ℕ) (sid : S) (tick : MarketTick S V N) (o : StreamOrchestrator S C T H)
      → IsWired dec o
      → IsWired dec (deliver_tick dec ops at sid tick o).0
  unfolding deliver_tick
  deliver_tick-IsWired at sid tick o w = elim (Option-cases (lookup dec sid o.sessions)) [
    | inl e ↦ rw (deliver_tick, e) w
    | inr (s, e) ↦
        rw (deliver_tick, e)
          (put_session-IsWired dec sid s _ o w e (All-lookup dec _ sid s o.sessions w.ids e) refl)
  ]

  delivered_tick-IsWired :
      {V N X : Type 0} (at : ℕ) (sid : S) (o : StreamOrchestrator S C T H)
      (x : Result X (Option (MarketTick S V N)))
      → IsWired dec o
      → IsWired dec (delivered_tick dec ops at sid o x).0
  unfolding deliver_tick
  delivered_tick-IsWired at sid o (err _) w = w
  delivered_tick-IsWired at sid o (ok none) w = w
  delivered_tick-IsWired at sid o (ok (some tick)) w = deliver_tick-IsWired at sid tick o w

  delivered_update-IsWired :
      {V N X : Type 0} (sid : S) (o : StreamOrchestrator S C T H)
      (x : Result X (Option (OrderUpdate S V N)))
      → IsWired dec o
      → IsWired dec (delivered_update dec sid o x).0
  unfolding deliver_order_update
  delivered_update-IsWired sid o (err _) w = w
  delivered_update-IsWired sid o (ok none) w = w
  delivered_update-IsWired sid o (ok (some _)) w = w

module _ {S C T H V X N : Type 0} (dec : Discrete S) (ops : HealthOps H) (py : ValueOps V X N) where
  delivered-IsWired :
      (now at : ℕ) (sid broker : S) (frame : Frame V) (o : StreamOrchestrator S C T H)
      (kind : StreamKind)
      → IsWired dec o
      → IsWired dec (delivered dec ops py now at sid broker frame o kind).0
  unfolding normalize_tick normalize_order_update
  delivered-IsWired now at sid broker frame o market w =
      delivered_tick-IsWired dec ops at sid o (normalize_tick py frame sid broker now) w
  delivered-IsWired now at sid broker frame o order w =
      delivered_update-IsWired dec ops sid o (normalize_order_update py frame sid broker now) w
  delivered-IsWired now at sid broker frame o portfolio w =
      delivered_update-IsWired dec ops sid o (normalize_order_update py frame sid broker now) w

  handle_frame-IsWired :
      (now at : ℕ) (sid : S) (kind : StreamKind) (frame : Frame V) (o : StreamOrchestrator S C T H)
      → IsWired dec o
      → IsWired dec (handle_frame dec ops py now at sid kind frame o).0
  unfolding handle_frame
  handle_frame-IsWired now at sid kind frame o w = elim (Option-cases (lookup dec sid o.sessions)) [
    | inl e ↦ rw (handle_frame, e) w
    | inr (s, e) ↦
        let heard =
          put_session-IsWired dec sid s (record s { health = ops.record_message now s.health }) o w
            e (All-lookup dec _ sid s o.sessions w.ids e) refl in
        rw (handle_frame, e) (delivered-IsWired now at sid s.broker_id frame _ kind heard)
  ]

module _ {S C T H : Type 0} (dec : Discrete S) where
  new-IsWired : IsWired dec (new_orchestrator {S = S} {C = C} {T = T} {H = H})
  unfolding new_orchestrator
  new-IsWired = record {
    ids = tt;
    sessions_distinct = tt;
    handles_distinct = tt;
    tasks_distinct = tt;
    handlers_distinct = tt;
    subscriptions_distinct = tt;
    served = λ k a h. absurd (ground arith);
    watched = λ k. refl;
    alive = λ k h. absurd (ground arith);
    called = λ k s h g. absurd (ground arith);
  }

module _ {S H : Type 0} (dec : Discrete S) (ops : HealthOps H) (now : ℕ) where
  abbrev checked : Dict S (StreamSession S H) → Dict S (StreamSession S H)
  checked d = map (λ (e : S × StreamSession S H). (e.0, check_freshness ops now e.1)) d

  keys-checked : (d : Dict S (StreamSession S H)) → keys (checked d) ≡ keys d
  keys-checked [] = refl
  keys-checked (e ∷ d) = ground (arith, keys-checked d)

  check-keeps :
      (s : StreamSession S H)
      → ((check_freshness ops now s).session_id ≡ s.session_id)
        × ((check_freshness ops now s).stream_kind ≡ s.stream_kind)
  unfolding check_freshness
  check-keeps s = ground arith

  checked-ids :
      (d : Dict S (StreamSession S H))
      → All (λ (e : S × StreamSession S H). e.1.session_id ≡ e.0) d
      → All (λ (e : S × StreamSession S H). e.1.session_id ≡ e.0) (checked d)
  checked-ids [] h = tt
  checked-ids (e ∷ d) h = ((check-keeps e.1).0 ∙ h.0, checked-ids d h.1)

  lookup-checked :
      (k : S) (t : StreamSession S H) (d : Dict S (StreamSession S H))
      → lookup dec k (checked d) ≡ some t
      → (s : StreamSession S H) × (lookup dec k d ≡ some s) × (t.stream_kind ≡ s.stream_kind)
  lookup-checked k t [] h = absurd (ground arith)
  lookup-checked k t (e ∷ d) h = elim (dec e.0 k) [
    | yes p ↦ (e.1, ground arith, ground (arith, check-keeps e.1))
    | no n ↦ let (s, f, g) = lookup-checked k t d (ground arith) in (s, ground arith, g)
  ]

  contains-checked :
      (k : S) (d : Dict S (StreamSession S H)) → contains dec k (checked d) ≡ contains dec k d
  contains-checked k [] = refl
  contains-checked k (e ∷ d) = ground (arith, contains-checked k d)

  heartbeat-IsWired :
      {C T : Type 0} (o : StreamOrchestrator S C T H)
      → IsWired dec o
      → IsWired dec (heartbeat_round ops now o).0
  unfolding heartbeat_round
  heartbeat-IsWired o w = record {
    ids = checked-ids o.sessions w.ids;
    sessions_distinct = rw (keys-checked o.sessions) w.sessions_distinct;
    handles_distinct = w.handles_distinct;
    tasks_distinct = w.tasks_distinct;
    handlers_distinct = w.handlers_distinct;
    subscriptions_distinct = w.subscriptions_distinct;
    served = λ k a h. contains-checked a.session_id o.sessions ∙ w.served k a h;
    watched = w.watched;
    alive = λ k h. contains-checked k o.sessions ∙ w.alive k h;
    called = λ k t h c. let (s, f, g) = lookup-checked k t o.sessions h in rw g (w.called k s f c);
  }

module _ {S C T H V X N : Type 0} (F G Z E : Type 0) (dec : Discrete S) (ops : HealthOps H)
    (py : ValueOps V X N) where
  pub Step-IsWired :
      (o p : StreamOrchestrator S C T H)
      → Step F G Z E dec ops py o p
      → IsWired dec o
      → IsWired dec p
  unfolding subscribe
  Step-IsWired o p (started _) w = start-IsWired dec ops o w
  Step-IsWired o p (subscribed streams r headroom policy sid sub_id trace request _ new_) w =
      elim (Result-cases (select_broker dec r headroom policy request trace)) [
        | inl (broker, e) ↦
            rw (subscribe, e)
              (subscribe_to-IsWired dec ops streams r sid sub_id broker request o w new_)
        | inr (_, e) ↦ rw (subscribe, e) w
      ]
  Step-IsWired o p (unsubscribed sub_id _) w = unsubscribe-IsWired dec ops sub_id o w
  Step-IsWired o p (watched is_connected sid _) w = watch-IsWired dec ops is_connected sid o w
  Step-IsWired o p (reopened streams r headroom policy trace sid _) w =
      reopen-IsWired dec ops streams r headroom policy trace sid o w
  Step-IsWired o p (framed now at sid kind frame _) w =
      handle_frame-IsWired dec ops py now at sid kind frame o w
  Step-IsWired o p (beaten now _) w = heartbeat-IsWired dec ops now o w

  steps-IsWired :
      (o p : StreamOrchestrator S C T H)
      → Run F G Z E dec ops py o p
      → IsWired dec o
      → IsWired dec p
  steps-IsWired o p (done _) w = w
  steps-IsWired o p (next {p = q} st rest) w = steps-IsWired q p rest (Step-IsWired o q st w)

  -- Every run from a new orchestrator, by calls of `start`, `subscribe`, and `unsubscribe`, by rounds of the reconnect
  -- tasks and of the heartbeat, and by frames, ends in a state where each subscription is of a session there is, and a
  -- session with a handle has its reconnect task and a callback of its kind, if the ids of sessions are new.
  pub Run-IsWired :
      (o : StreamOrchestrator S C T H) → Run F G Z E dec ops py new_orchestrator o → IsWired dec o
  Run-IsWired o h = steps-IsWired new_orchestrator o h (new-IsWired dec)
