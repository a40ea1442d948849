-- ===== src/Stream/Candidates.antt =====
-- The candidates of a failover in brokers/common/stream_orchestrator.py.
use inc_trade.Prelude.{
  ◌≡◌, ◌≢◌, refl, Bool, true, false, some, List, [], ◌∷◌, arith, mem, inl, inr, Result-cases,
}
use inc_trade.Prelude.Dict.{lookup, lookup-insert_self}
use inc_trade.Prelude.Result.{ok}
use inc_trade.Routing.Registry.{BrokerRegistry}
use inc_trade.Stream.Models.{HealthOps, StreamSession, GatewayStreams, StreamOrchestrator}
use inc_trade.Stream.Subscribe.{open_stream}
use inc_trade.Stream.Reconnect.{try_brokers, plan_again, failed_over, with_handle, restored}

module _ {S C F G Z E T H : Type 0} (dec : Discrete S) (ops : HealthOps H)
    (streams : GatewayStreams S G E T) (r : BrokerRegistry S F G Z) where
  -- The session has moved to the broker, whose gateway has opened its stream.
  pub record HasMoved (s : StreamSession S H) (broker : S) (o p : StreamOrchestrator S C T H)
      : Type 0 where
    pub handle : T
    pub session : StreamSession S H
    pub other_broker : broker ≢ s.broker_id
    pub opens : open_stream dec streams r broker s.stream_kind (plan_again dec s o) ≡ ok handle
    pub has_handle : lookup dec s.session_id p.handles ≡ some handle
    pub stands : lookup dec s.session_id p.sessions ≡ some session
    pub at_broker : session.broker_id ≡ broker
    pub same_instruments : session.instruments ≡ s.instruments
    pub same_subscriptions : p.subscriptions ≡ o.subscriptions
    pub counts_anew : session.reconnect_generation ≡ 0

  pub moved-HasMoved :
      (s : StreamSession S H) (b : S) (handle : T) (o : StreamOrchestrator S C T H)
      → b ≢ s.broker_id
      → open_stream dec streams r b s.stream_kind (plan_again dec s o) ≡ ok handle
      → HasMoved s b o (
          with_handle dec
            (record (restored ops s) { broker_id = b; reconnect_generation = 0 })
            handle
            o)
  moved-HasMoved s b handle o other f =
      let moved : StreamSession S H = record (restored ops s) {
        broker_id = b;
        reconnect_generation = 0;
      } in
      record {
        handle = handle;
        session = moved;
        other_broker = other;
        opens = f;
        has_handle = lookup-insert_self dec s.session_id handle o.handles;
        stands = lookup-insert_self dec s.session_id moved o.sessions;
        at_broker = refl;
        same_instruments = refl;
        same_subscriptions = refl;
        counts_anew = refl;
      }

  -- No other broker of the list opens the stream.
  abbrev pub AllRefuse : StreamSession S H → StreamOrchestrator S C T H → List S → Type 0
  AllRefuse s o [] = Unit
  AllRefuse s o (b ∷ bs) =
      (b ≢ s.broker_id
        → (x : T) → open_stream dec streams r b s.stream_kind (plan_again dec s o) ≢ ok x)
      × AllRefuse s o bs

  -- What comes of a search among the brokers: one of them has the session, or all refuse and nothing has changed.
  abbrev pub Searched :
      StreamSession S H
      → List S
      → StreamOrchestrator S C T H
      → StreamOrchestrator S C T H × Bool
      → Type 0
  Searched s brokers o (p, true) =
      (broker : S) × (mem dec broker brokers ≡ true) × HasMoved s broker o p
  Searched s brokers o (p, false) = AllRefuse s o brokers × (p ≡ o)

  pub Searched-later :
      (s : StreamSession S H) (b : S) (bs : List S) (o : StreamOrchestrator S C T H)
      (x : StreamOrchestrator S C T H × Bool)
      → (b ≢ s.broker_id
          → (y : T) → open_stream dec streams r b s.stream_kind (plan_again dec s o) ≢ ok y)
      → Searched s bs o x
      → Searched s (b ∷ bs) o x
  Searched-later s b bs o (p, true) no_ (c, m, h) = (c, ground arith, h)
  Searched-later s b bs o (p, false) no_ h = ((no_, h.0), h.1)

  pub try_brokers-Searched :
      (s : StreamSession S H) (brokers : List S) (o : StreamOrchestrator S C T H)
      → Searched s brokers o (try_brokers dec ops streams r s brokers o)
  unfolding try_brokers
  try_brokers-Searched s [] o = (tt, refl)
  try_brokers-Searched s (b ∷ bs) o =
      let later = try_brokers-Searched s bs o in
      elim (dec b s.broker_id)
        as (λ x. Searched s (b ∷ bs) o (elim x as (λ _. StreamOrchestrator S C T H × Bool) [
          | yes _ ↦ try_brokers dec ops streams r s bs o
          | no _ ↦
              failed_over dec (record (restored ops s) { broker_id = b; reconnect_generation = 0 })
                o (try_brokers dec ops streams r s bs o)
                (open_stream dec streams r b s.stream_kind (plan_again dec s o))
        ])) [
          | yes same ↦ Searched-later s b bs o _ (λ other. absurd (other same)) later
          | no other ↦
              elim (Result-cases (open_stream dec streams r b s.stream_kind (plan_again dec s o))) [
                | inr (e, f) ↦ rw f (Searched-later s b bs o _ (λ _ y g. ground arith) later)
                | inl (handle, f) ↦ rw f (b, ground arith, moved-HasMoved s b handle o other f)
              ]
        ]
