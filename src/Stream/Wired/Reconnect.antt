-- ===== src/Stream/Wired/Reconnect.antt =====
-- The reconnect loop keeps the dicts of the stream orchestrator in agreement.
use Prim.Native.String.{String}
use inc_trade.Prelude.{
  ℕ, ◌≡◌, refl, ap, ◌∙◌, Bool, true, false, Option, some, List, [], ◌∷◌, arith, inl, inr,
  Option-cases, Bool-cases, Result-cases, leb, ◌&&◌,
}
use inc_trade.Prelude.Dict.{lookup, All-lookup}
use inc_trade.Prelude.Result.{Result, ok, err}
use inc_trade.Routing.Policy.{SourceSelectionPolicy}
use inc_trade.Routing.Registry.{BrokerRegistry}
use inc_trade.Routing.Router.{EndpointClass, route}
use inc_trade.Stream.Models.{HealthOps, StreamSession, GatewayStreams, Monitor, StreamOrchestrator}
use inc_trade.Stream.Sessions.{stream_request}
use inc_trade.Stream.Subscribe.{open_stream}
use inc_trade.Stream.Reconnect.{
  watch, reopen, set_monitor, max_reconnect_attempts, try_brokers, try_failover, reconnect,
  after_failover, transport_ok, failed_over, reconnected, plan_again, restored,
}
use inc_trade.Stream.Wired.{IsWired, put_session-IsWired, set_monitor-IsWired, with_handle-IsWired}

module _ {S C T H : Type 0} (dec : Discrete S) (ops : HealthOps H) where
  pub watch-IsWired :
      (is_connected : T → Bool) (sid : S) (o : StreamOrchestrator S C T H)
      → IsWired dec o
      → IsWired dec (watch dec ops is_connected sid o).0
  unfolding watch
  watch-IsWired is_connected sid o w =
      elim (Option-cases (lookup dec sid o.session_reconnect_tasks)) [
        | inl e ↦ rw (watch, e) w
        | inr (m, e) ↦ elim (Option-cases (lookup dec sid o.sessions)) [
          | inl f ↦ rw (watch, e, f) (set_monitor-IsWired dec sid m _ o w e)
          | inr (s, f) ↦ elim (Bool-cases m.finished) [
            | inl g ↦ rw (watch, e, f, g) w
            | inr g ↦ elim (Bool-cases (transport_ok is_connected (lookup dec sid o.handles))) [
              | inl h ↦ rw (watch, e, f, g, h) w
              | inr h ↦
                  rw (watch, e, f, g, h)
                    (set_monitor-IsWired dec sid m _ _
                      (put_session-IsWired dec sid s _ o w f
                        (All-lookup dec _ sid s o.sessions w.ids f) refl)
                      e)
            ]
          ]
        ]
      ]

module _ {S C F G Z E T H : Type 0} (dec : Discrete S) (ops : HealthOps H)
    (streams : GatewayStreams S G E T) (r : BrokerRegistry S F G Z) where
  failed_over-IsWired :
      {X : Type 0} (s t : StreamSession S H) (m : Monitor S C) (o : StreamOrchestrator S C T H)
      (rest : StreamOrchestrator S C T H × Bool) (x : Result X T)
      → IsWired dec o
      → lookup dec s.session_id o.session_reconnect_tasks ≡ some m
      → lookup dec s.session_id o.sessions ≡ some s
      → t.session_id ≡ s.session_id
      → t.stream_kind ≡ s.stream_kind
      → IsWired dec rest.0
      → IsWired dec (failed_over dec t o rest x).0
  failed_over-IsWired s t m o rest (err _) w h e f g k = k
  failed_over-IsWired s t m o rest (ok handle) w h e f g k =
      with_handle-IsWired dec s.session_id s t m handle o w h e f g

  try_brokers-IsWired :
      (s : StreamSession S H) (m : Monitor S C) (brokers : List S) (o : StreamOrchestrator S C T H)
      → IsWired dec o
      → lookup dec s.session_id o.session_reconnect_tasks ≡ some m
      → lookup dec s.session_id o.sessions ≡ some s
      → IsWired dec (try_brokers dec ops streams r s brokers o).0
  unfolding try_brokers
  try_brokers-IsWired s m [] o w h e = w
  try_brokers-IsWired s m (b ∷ bs) o w h e =
      let rest = try_brokers-IsWired s m bs o w h e in
      elim (dec b s.broker_id)
        as (λ x.
          IsWired dec
            (elim x as (λ _. StreamOrchestrator S C T H × Bool) [
              | yes _ ↦ try_brokers dec ops streams r s bs o
              | no _ ↦
                  failed_over dec
                    (record (restored ops s) { broker_id = b; reconnect_generation = 0 }) o
                    (try_brokers dec ops streams r s bs o)
                    (open_stream dec streams r b s.stream_kind (plan_again dec s o))
            ]).0) [ yes _ ↦ rest | no _ ↦ failed_over-IsWired s _ m o _ _ w h e refl refl rest ]

  reconnected-IsWired :
      {X : Type 0} (s t : StreamSession S H) (m n : Monitor S C) (o : StreamOrchestrator S C T H)
      (x : Result X T)
      → IsWired dec o
      → lookup dec s.session_id o.session_reconnect_tasks ≡ some n
      → lookup dec s.session_id o.sessions ≡ some s
      → t.session_id ≡ s.session_id
      → t.stream_kind ≡ s.stream_kind
      → IsWired dec (reconnected dec t m o x)
  unfolding set_monitor
  reconnected-IsWired s t m n o (err _) w h e f g = w
  reconnected-IsWired s t m n o (ok handle) w h e f g =
      set_monitor-IsWired dec t.session_id n _ _
        (with_handle-IsWired dec s.session_id s t n handle o w h e f g) (ground arith)

  reconnect-IsWired :
      (s : StreamSession S H) (m n : Monitor S C) (o : StreamOrchestrator S C T H)
      → IsWired dec o
      → lookup dec s.session_id o.session_reconnect_tasks ≡ some n
      → lookup dec s.session_id o.sessions ≡ some s
      → IsWired dec (reconnect dec ops streams r s m o)
  unfolding reconnect
  reconnect-IsWired s m n o w h e = reconnected-IsWired s (restored ops s) m n o _ w h e refl refl

  after_failover-IsWired :
      (headroom : Option (S → EndpointClass → ℕ)) (policy : SourceSelectionPolicy S F)
      (s : StreamSession S H) (m n : Monitor S C) (x : StreamOrchestrator S C T H × Bool)
      → IsWired dec x.0
      → lookup dec s.session_id x.0.session_reconnect_tasks ≡ some n
      → (x.1 ≡ false → lookup dec s.session_id x.0.sessions ≡ some s)
      → IsWired dec (after_failover dec ops streams r headroom policy s m x)
  after_failover-IsWired headroom policy s m n (o, true) w h e =
      set_monitor-IsWired dec s.session_id n _ o w h
  after_failover-IsWired headroom policy s m n (o, false) w h e =
      reconnect-IsWired s m n o w h (e refl)

  -- A failover that succeeds leaves the task of the session, and one that fails leaves all as it was.
  try_brokers-leaves :
      (s : StreamSession S H) (brokers : List S) (o : StreamOrchestrator S C T H)
      → let after = try_brokers dec ops streams r s brokers o in
        (after.0.session_reconnect_tasks ≡ o.session_reconnect_tasks)
        × (after.1 ≡ false → after.0 ≡ o)
  unfolding try_brokers
  try_brokers-leaves s [] o = (refl, λ _. refl)
  try_brokers-leaves s (b ∷ bs) o = ground (arith, try_brokers-leaves s bs o)

  try_failover-leaves :
      (headroom : Option (S → EndpointClass → ℕ)) (policy : SourceSelectionPolicy S F)
      (s : StreamSession S H) (trace : String) (o : StreamOrchestrator S C T H)
      → let after = try_failover dec ops streams r headroom policy s trace o in
        (after.0.session_reconnect_tasks ≡ o.session_reconnect_tasks)
        × (after.1 ≡ false → after.0 ≡ o)
  unfolding try_failover
  try_failover-leaves headroom policy s trace o =
      elim (Result-cases
        (route dec r headroom policy (stream_request dec r headroom policy s.stream_kind trace))) [
          | inr (e, h) ↦ rw (try_failover, h) (refl, λ _. refl)
          | inl (d, h) ↦ rw (try_failover, h) (try_brokers-leaves s d.fallback_brokers o)
        ]

  try_failover-IsWired :
      (headroom : Option (S → EndpointClass → ℕ)) (policy : SourceSelectionPolicy S F)
      (s : StreamSession S H) (m : Monitor S C) (trace : String) (o : StreamOrchestrator S C T H)
      → IsWired dec o
      → lookup dec s.session_id o.session_reconnect_tasks ≡ some m
      → lookup dec s.session_id o.sessions ≡ some s
      → IsWired dec (try_failover dec ops streams r headroom policy s trace o).0
  unfolding try_failover
  try_failover-IsWired headroom policy s m trace o w e f =
      elim (Result-cases
        (route dec r headroom policy (stream_request dec r headroom policy s.stream_kind trace))) [
          | inr (_, h) ↦ rw (try_failover, h) w
          | inl (d, h) ↦ rw (try_failover, h) (try_brokers-IsWired s m d.fallback_brokers o w e f)
        ]

  pub reopen-IsWired :
      (headroom : Option (S → EndpointClass → ℕ)) (policy : SourceSelectionPolicy S F)
      (trace : String) (sid : S) (o : StreamOrchestrator S C T H)
      → IsWired dec o
      → IsWired dec (reopen dec ops streams r headroom policy trace sid o)
  unfolding reopen
  reopen-IsWired headroom policy trace sid o w =
      elim (Option-cases (lookup dec sid o.session_reconnect_tasks)) [
        | inl e ↦ rw (reopen, e) w
        | inr (m, e) ↦ elim (Option-cases (lookup dec sid o.sessions)) [
          | inl f ↦ rw (reopen, e, f) w
          | inr (s, f) ↦
              let id = All-lookup dec _ sid s o.sessions w.ids f in
              let e' : lookup dec s.session_id o.session_reconnect_tasks ≡ some m = ground arith in
              let f' : lookup dec s.session_id o.sessions ≡ some s = ground arith in
              elim (Bool-cases
                (leb max_reconnect_attempts s.reconnect_generation && m.request.allow_failover)) [
                  | inr g ↦ rw (reopen, e, f, g) (reconnect-IsWired s m m o w e' f')
                  | inl g ↦
                      rw (reopen, e, f, g)
                        (let (same, back) = try_failover-leaves headroom policy s trace o in
                          after_failover-IsWired headroom policy s m m _
                            (try_failover-IsWired headroom policy s m trace o w e' f')
                            (ap (λ d. lookup dec s.session_id d) same ∙ e')
                            (λ no_. rw (back no_) f'))
                ]
        ]
      ]
