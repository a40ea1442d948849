-- ===== src/Stream/Failover.antt =====
-- `_try_failover` and `_reconnect_loop` of brokers/common/stream_orchestrator.py: where a session goes to, and
-- what becomes of its task.
use Prim.Native.String.{String}
use inc_trade.Prelude.{
  ℕ, ◌≤◌, ◌≡◌, refl, Bool, true, false, ◌&&◌, Option, some, List, arith, mem, leb, All-at, subst,
}
use inc_trade.Prelude.Dict.{lookup, lookup-insert_self}
use inc_trade.Prelude.Result.{Result, ok, err}
use inc_trade.Routing.Models.{RouteDecision}
use inc_trade.Routing.Policy.{Mode, SourceSelectionPolicy}
use inc_trade.Routing.Registry.{BrokerRegistry}
use inc_trade.Routing.Registry.Consistent.{IsConsistent}
use inc_trade.Routing.Router.{EndpointClass, RouteError, route}
use inc_trade.Routing.Router.Eligible.{eligible}
use inc_trade.Routing.Router.Selects.{route-eligible}
use inc_trade.Stream.Models.{
  StreamKind, HealthOps, StreamSession, GatewayStreams, Monitor, StreamOrchestrator,
}
use inc_trade.Stream.Sessions.{stream_request}
use inc_trade.Stream.Reconnect.{
  watch, set_monitor, reopen, try_brokers, try_failover, after_failover, search_route,
  max_reconnect_attempts,
}
use inc_trade.Stream.Candidates.{HasMoved, AllRefuse, Searched, try_brokers-Searched}

module _ {S C T H : Type 0} (dec : Discrete S) (ops : HealthOps H) where
  finished-unwatched :
      (is_connected : T → Bool) (sid : S) (m : Monitor S C) (t : StreamSession S H)
      (p : StreamOrchestrator S C T H)
      → lookup dec sid p.session_reconnect_tasks ≡ some m
      → lookup dec sid p.sessions ≡ some t
      → m.finished ≡ true
      → watch dec ops is_connected sid p ≡ (p, false)
  unfolding watch
  finished-unwatched is_connected sid m t p e f g = rw (watch, e, f, g) refl

module _ {S F G Z : Type 0} (dec : Discrete S) (r : BrokerRegistry S F G Z)
    (headroom : Option (S → EndpointClass → ℕ)) (policy : SourceSelectionPolicy S F) where
  -- The route that a failover asks for.
  abbrev pub failover_route : StreamKind → String → Result (RouteError S F) (RouteDecision S F Mode)
  failover_route kind trace =
      route dec r headroom policy (stream_request dec r headroom policy kind trace)

  -- The broker is an eligible candidate for the streams of the kind.
  abbrev pub IsStreamBroker : StreamKind → String → S → Type 0
  IsStreamBroker kind trace broker =
      mem dec broker
        (eligible dec r headroom policy (stream_request dec r headroom policy kind trace))
      ≡ true

  fallback-IsStreamBroker :
      (kind : StreamKind) (trace : String) (d : RouteDecision S F Mode) (broker : S)
      → IsConsistent dec r
      → failover_route kind trace ≡ ok d
      → mem dec broker d.fallback_brokers ≡ true
      → IsStreamBroker kind trace broker
  fallback-IsStreamBroker kind trace d broker c e m =
      All-at dec (IsStreamBroker kind trace) broker d.fallback_brokers
        (route-eligible dec r headroom policy c (stream_request dec r headroom policy kind trace) d
          e).0.1
        m

module _ {S C F G Z E T H : Type 0} (dec : Discrete S) (ops : HealthOps H)
    (streams : GatewayStreams S G E T) (r : BrokerRegistry S F G Z)
    (headroom : Option (S → EndpointClass → ℕ)) (policy : SourceSelectionPolicy S F) where
  -- What a failover comes to: the session has moved to an eligible broker; or all is as it was, and the fallbacks of
  -- the route, if there is one, refuse.
  abbrev pub FailoverEnds :
      StreamSession S H
      → String
      → StreamOrchestrator S C T H
      → StreamOrchestrator S C T H × Bool
      → Type 0
  FailoverEnds s trace o (p, true) =
      (broker : S) × IsStreamBroker dec r headroom policy s.stream_kind trace broker
      × HasMoved dec ops streams r s broker o p
  FailoverEnds s trace o (p, false) =
      (p ≡ o)
      × ((d : RouteDecision S F Mode)
          → failover_route dec r headroom policy s.stream_kind trace ≡ ok d
          → AllRefuse dec ops streams r s o d.fallback_brokers)

  Searched-FailoverEnds :
      (s : StreamSession S H) (trace : String) (o : StreamOrchestrator S C T H)
      (d : RouteDecision S F Mode) (x : StreamOrchestrator S C T H × Bool)
      → IsConsistent dec r
      → failover_route dec r headroom policy s.stream_kind trace ≡ ok d
      → Searched dec ops streams r s d.fallback_brokers o x
      → FailoverEnds s trace o x
  Searched-FailoverEnds s trace o d (p, true) c e (broker, m, h) =
      (broker, fallback-IsStreamBroker dec r headroom policy s.stream_kind trace d broker c e m, h)
  Searched-FailoverEnds s trace o d (p, false) c e (refuse, same) =
      (same, λ d' e'. subst (λ bs. AllRefuse dec ops streams r s o bs) (ground arith) refuse)

  search_route-ends :
      (s : StreamSession S H) (trace : String) (o : StreamOrchestrator S C T H)
      (x : Result (RouteError S F) (RouteDecision S F Mode))
      → IsConsistent dec r
      → failover_route dec r headroom policy s.stream_kind trace ≡ x
      → FailoverEnds s trace o (search_route dec ops streams r headroom policy s o x)
  unfolding try_brokers
  search_route-ends s trace o (err _) c e = (refl, λ d f. absurd (ground arith))
  search_route-ends s trace o (ok d) c e =
      Searched-FailoverEnds s trace o d _ c e
        (try_brokers-Searched dec ops streams r s d.fallback_brokers o)

  -- On a consistent registry, a failover that succeeds has moved the session, with its instruments and its
  -- subscriptions, to another broker, whose gateway has opened its stream, and which is an eligible candidate for
  -- the kind of the stream. One that fails leaves all as it was, and if there is a route, every other fallback broker
  -- of it refuses.
  pub try_failover-ends :
      (s : StreamSession S H) (trace : String) (o : StreamOrchestrator S C T H)
      → IsConsistent dec r
      → FailoverEnds s trace o (try_failover dec ops streams r headroom policy s trace o)
  unfolding try_failover
  try_failover-ends s trace o c =
      search_route-ends s trace o (failover_route dec r headroom policy s.stream_kind trace) c refl

  Searched-stands :
      (s : StreamSession S H) (bs : List S) (o : StreamOrchestrator S C T H)
      (x : StreamOrchestrator S C T H × Bool)
      → Searched dec ops streams r s bs o x
      → x.1 ≡ true
      → (t : StreamSession S H) × (lookup dec s.session_id x.0.sessions ≡ some t)
  Searched-stands s bs o (p, true) (broker, m, h) e = (h.session, h.stands)
  Searched-stands s bs o (p, false) h e = absurd (ground arith)

  search_route-stands :
      (s : StreamSession S H) (o : StreamOrchestrator S C T H)
      (x : Result (RouteError S F) (RouteDecision S F Mode))
      → (search_route dec ops streams r headroom policy s o x).1 ≡ true
      → (t : StreamSession S H) × (lookup dec s.session_id
            (search_route dec ops streams r headroom policy s o x).0.sessions
          ≡ some t)
  unfolding try_brokers
  search_route-stands s o (err _) e = absurd (ground arith)
  search_route-stands s o (ok d) e =
      Searched-stands s d.fallback_brokers o _
        (try_brokers-Searched dec ops streams r s d.fallback_brokers o) e

  after_failover-finishes :
      (s : StreamSession S H) (m : Monitor S C) (x : StreamOrchestrator S C T H × Bool)
      → x.1 ≡ true
      → after_failover dec ops streams r headroom policy s m x
        ≡ set_monitor dec s.session_id (record m { finished = true }) x.0
  after_failover-finishes s m (p, true) e = refl
  after_failover-finishes s m (p, false) e = absurd (ground arith)

  reopen-after :
      (s : StreamSession S H) (m : Monitor S C) (trace : String) (o : StreamOrchestrator S C T H)
      → lookup dec s.session_id o.session_reconnect_tasks ≡ some m
      → lookup dec s.session_id o.sessions ≡ some s
      → max_reconnect_attempts ≤ s.reconnect_generation
      → m.request.allow_failover ≡ true
      → (try_failover dec ops streams r headroom policy s trace o).1 ≡ true
      → reopen dec ops streams r headroom policy trace s.session_id o
        ≡ set_monitor dec s.session_id
            (record m { finished = true })
            (try_failover dec ops streams r headroom policy s trace o).0
  unfolding reopen
  reopen-after s m trace o e f a g h =
      let allowed : (leb max_reconnect_attempts s.reconnect_generation && m.request.allow_failover)
          ≡ true =
        ground arith in
      rw (reopen, e, f, allowed)
        (after_failover-finishes s m (try_failover dec ops streams r headroom policy s trace o) h)

  -- After a failover in a round of the reconnect loop the session is not watched any more: every later look finds
  -- nothing to do, whatever the handle is.
  pub reopen-unwatched :
      (is_connected : T → Bool) (s : StreamSession S H) (m : Monitor S C) (trace : String)
      (o : StreamOrchestrator S C T H)
      → lookup dec s.session_id o.session_reconnect_tasks ≡ some m
      → lookup dec s.session_id o.sessions ≡ some s
      → max_reconnect_attempts ≤ s.reconnect_generation
      → m.request.allow_failover ≡ true
      → (try_failover dec ops streams r headroom policy s trace o).1 ≡ true
      → let after = reopen dec ops streams r headroom policy trace s.session_id o in
        watch dec ops is_connected s.session_id after ≡ (after, false)
  unfolding set_monitor try_failover
  reopen-unwatched is_connected s m trace o e f a g h =
      let x = try_failover dec ops streams r headroom policy s trace o in
      let (t, there) =
        search_route-stands s o (failover_route dec r headroom policy s.stream_kind trace) h in
      let ended = reopen-after s m trace o e f a g h in
      rw ended (
        finished-unwatched dec ops is_connected s.session_id (record m { finished = true }) t
          (set_monitor dec s.session_id (record m { finished = true }) x.0)
          (lookup-insert_self dec s.session_id (record m { finished = true })
            x.0.session_reconnect_tasks)
          there refl)
