-- ===== src/Stream/Wired.antt =====
-- The dicts of the stream orchestrator agree with each other.
pub mod Subscribe
pub mod Reconnect
use inc_trade.Prelude.{
  ◌≡◌, ◌≢◌, refl, ◌++◌, Bool, true, false, Option, some, none, List, [], ◌∷◌, All, IsDistinct,
  arith, inl, inr, Option-cases,
}
use inc_trade.Prelude.Dict.{
  Dict, keys, lookup, contains, insert, erase, insert-IsDistinct, erase-IsDistinct, lookup-insert,
  lookup-insert_self, contains-insert, contains-erase, lookup-erase_self, lookup-erase_ne,
  All-insert, All-erase,
}
use inc_trade.Stream.Models.{
  StreamKind, StreamSession, SubscriptionRequest, ActiveSubscription, Monitor, monitor_of,
  StreamOrchestrator,
}
use inc_trade.Stream.Sessions.{put_session, disconnect_session, subscribers}
use inc_trade.Stream.Subscribe.{handled}
use inc_trade.Stream.Reconnect.{set_monitor, with_handle}

module _ {S C : Type 0} (dec : Discrete S) where
  subscribers-none :
      (sid sub_id : S) (a : ActiveSubscription S C) (d : Dict S (ActiveSubscription S C))
      → subscribers dec sid d ≡ []
      → lookup dec sub_id d ≡ some a
      → a.session_id ≢ sid
  subscribers-none sid sub_id a [] h e = absurd (ground arith)
  subscribers-none sid sub_id a (x ∷ d) h e = ground (arith, subscribers-none sid sub_id a d)

module _ {S C T H : Type 0} (dec : Discrete S) where
  -- A session stands under its id, every subscription is of a session there is, and a session with a
  -- handle has a reconnect task and a callback of its own kind.
  pub record IsWired (o : StreamOrchestrator S C T H) : Type 0 where
    pub ids : All (λ (e : S × StreamSession S H). e.1.session_id ≡ e.0) o.sessions
    pub sessions_distinct : IsDistinct dec (keys o.sessions)
    pub handles_distinct : IsDistinct dec (keys o.handles)
    pub tasks_distinct : IsDistinct dec (keys o.session_reconnect_tasks)
    pub handlers_distinct : IsDistinct dec (keys o.session_frame_handlers)
    pub subscriptions_distinct : IsDistinct dec (keys o.subscriptions)
    pub served :
        (sub_id : S) (a : ActiveSubscription S C)
        → lookup dec sub_id o.subscriptions ≡ some a
        → contains dec a.session_id o.sessions ≡ true
    pub watched : (k : S) → contains dec k o.session_reconnect_tasks ≡ contains dec k o.handles
    pub alive : (k : S) → contains dec k o.handles ≡ true → contains dec k o.sessions ≡ true
    pub called :
        (k : S) (s : StreamSession S H)
        → lookup dec k o.sessions ≡ some s
        → contains dec k o.handles ≡ true
        → lookup dec k o.session_frame_handlers ≡ some (k, s.stream_kind)

  -- A session that is there is changed, but not its kind.
  pub put_session-IsWired :
      (k : S) (s t : StreamSession S H) (o : StreamOrchestrator S C T H)
      → IsWired o
      → lookup dec k o.sessions ≡ some s
      → t.session_id ≡ k
      → t.stream_kind ≡ s.stream_kind
      → IsWired (put_session dec t o)
  put_session-IsWired k s t o w h e f = record {
    ids = All-insert dec _ t.session_id t o.sessions w.ids (ground arith);
    sessions_distinct = insert-IsDistinct dec t.session_id t o.sessions w.sessions_distinct;
    handles_distinct = w.handles_distinct;
    tasks_distinct = w.tasks_distinct;
    handlers_distinct = w.handlers_distinct;
    subscriptions_distinct = w.subscriptions_distinct;
    served = λ sub_id a g.
        ground
          (arith, w.served sub_id a g, contains-insert dec a.session_id t.session_id t o.sessions);
    watched = w.watched;
    alive = λ j g. ground (arith, w.alive j g, contains-insert dec j t.session_id t o.sessions);
    called = λ j u g i.
        ground (arith, w.called k s h, w.called j u, lookup-insert dec j t.session_id t o.sessions);
  }

  pub set_monitor-IsWired :
      (k : S) (m n : Monitor S C) (o : StreamOrchestrator S C T H)
      → IsWired o
      → lookup dec k o.session_reconnect_tasks ≡ some m
      → IsWired (set_monitor dec k n o)
  unfolding set_monitor
  set_monitor-IsWired k m n o w h = record {
    ids = w.ids;
    sessions_distinct = w.sessions_distinct;
    handles_distinct = w.handles_distinct;
    tasks_distinct = insert-IsDistinct dec k n o.session_reconnect_tasks w.tasks_distinct;
    handlers_distinct = w.handlers_distinct;
    subscriptions_distinct = w.subscriptions_distinct;
    served = w.served;
    watched = λ j. ground (arith, w.watched j, contains-insert dec j k n o.session_reconnect_tasks);
    alive = w.alive;
    called = w.called;
  }

  set_handle-IsWired :
      (k : S) (m : Monitor S C) (handle : T) (o : StreamOrchestrator S C T H)
      → IsWired o
      → lookup dec k o.session_reconnect_tasks ≡ some m
      → IsWired (record o { handles = insert dec k handle o.handles })
  set_handle-IsWired k m handle o w h = record {
    ids = w.ids;
    sessions_distinct = w.sessions_distinct;
    handles_distinct = insert-IsDistinct dec k handle o.handles w.handles_distinct;
    tasks_distinct = w.tasks_distinct;
    handlers_distinct = w.handlers_distinct;
    subscriptions_distinct = w.subscriptions_distinct;
    served = w.served;
    watched = λ j. ground (arith, w.watched j, contains-insert dec j k handle o.handles);
    alive = λ j g. ground (arith, w.alive j, w.watched j, contains-insert dec j k handle o.handles);
    called = λ j u e g.
        ground (arith, w.called j u e, w.watched j, contains-insert dec j k handle o.handles);
  }

  pub with_handle-IsWired :
      (k : S) (s t : StreamSession S H) (m : Monitor S C) (handle : T)
      (o : StreamOrchestrator S C T H)
      → IsWired o
      → lookup dec k o.session_reconnect_tasks ≡ some m
      → lookup dec k o.sessions ≡ some s
      → t.session_id ≡ k
      → t.stream_kind ≡ s.stream_kind
      → IsWired (with_handle dec t handle o)
  with_handle-IsWired k s t m handle o w h g e f =
      set_handle-IsWired t.session_id m handle (put_session dec t o)
        (put_session-IsWired k s t o w g e f) (ground arith)

  pub disconnect_session-IsWired :
      (sid : S) (o : StreamOrchestrator S C T H)
      → IsWired o
      → subscribers dec sid o.subscriptions ≡ []
      → IsWired (disconnect_session dec sid o)
  unfolding disconnect_session
  disconnect_session-IsWired sid o w h = record {
    ids = All-erase dec _ sid o.sessions w.ids;
    sessions_distinct = erase-IsDistinct dec sid o.sessions w.sessions_distinct;
    handles_distinct = erase-IsDistinct dec sid o.handles w.handles_distinct;
    tasks_distinct = erase-IsDistinct dec sid o.session_reconnect_tasks w.tasks_distinct;
    handlers_distinct = erase-IsDistinct dec sid o.session_frame_handlers w.handlers_distinct;
    subscriptions_distinct = w.subscriptions_distinct;
    served = λ sub_id a g. ground (
      arith,
      w.served sub_id a g,
      subscribers-none dec sid sub_id a o.subscriptions h g,
      contains-erase dec a.session_id sid o.sessions w.sessions_distinct,
    );
    watched = λ j. ground (
      arith,
      w.watched j,
      contains-erase dec j sid o.handles w.handles_distinct,
      contains-erase dec j sid o.session_reconnect_tasks w.tasks_distinct,
    );
    alive = λ j g. ground (
      arith,
      w.alive j,
      contains-erase dec j sid o.handles w.handles_distinct,
      contains-erase dec j sid o.sessions w.sessions_distinct,
    );
    called = λ j u e g. ground (
      arith,
      w.called j u,
      contains-erase dec j sid o.handles w.handles_distinct,
      lookup-erase_self dec sid o.sessions w.sessions_distinct,
      lookup-erase_ne dec j sid o.sessions,
      lookup-erase_ne dec j sid o.session_frame_handlers,
    );
  }

  -- A session that is new has no handle.
  pub put_new-IsWired :
      (k : S) (t : StreamSession S H) (o : StreamOrchestrator S C T H)
      → IsWired o
      → contains dec k o.sessions ≡ false
      → t.session_id ≡ k
      → IsWired (put_session dec t o)
  put_new-IsWired k t o w h e = record {
    ids = All-insert dec _ t.session_id t o.sessions w.ids refl;
    sessions_distinct = insert-IsDistinct dec t.session_id t o.sessions w.sessions_distinct;
    handles_distinct = w.handles_distinct;
    tasks_distinct = w.tasks_distinct;
    handlers_distinct = w.handlers_distinct;
    subscriptions_distinct = w.subscriptions_distinct;
    served = λ sub_id a g.
        ground
          (arith, w.served sub_id a g, contains-insert dec a.session_id t.session_id t o.sessions);
    watched = w.watched;
    alive = λ j g. ground (arith, w.alive j g, contains-insert dec j t.session_id t o.sessions);
    called = λ j u g i.
        ground (arith, w.alive j i, w.called j u, lookup-insert dec j t.session_id t o.sessions);
  }

  -- A callback is put down for a session of its kind.
  set_handler-IsWired :
      (k : S) (t : StreamSession S H) (o : StreamOrchestrator S C T H)
      → IsWired o
      → lookup dec k o.sessions ≡ some t
      → t.session_id ≡ k
      → IsWired (record o {
        session_frame_handlers =
            insert dec t.session_id (t.session_id, t.stream_kind) o.session_frame_handlers;
      })
  set_handler-IsWired k t o w h e =
      let cb : S × StreamKind = (t.session_id, t.stream_kind) in
      record {
        ids = w.ids;
        sessions_distinct = w.sessions_distinct;
        handles_distinct = w.handles_distinct;
        tasks_distinct = w.tasks_distinct;
        handlers_distinct =
            insert-IsDistinct dec t.session_id cb o.session_frame_handlers w.handlers_distinct;
        subscriptions_distinct = w.subscriptions_distinct;
        served = w.served;
        watched = w.watched;
        alive = w.alive;
        called = λ j u g i.
            ground (
              arith,
              w.called j u g i,
              lookup-insert dec j t.session_id cb o.session_frame_handlers,
            );
      }

  pub handled-IsWired :
      (k : S) (t : StreamSession S H) (o : StreamOrchestrator S C T H)
      → IsWired o
      → contains dec k o.sessions ≡ false
      → t.session_id ≡ k
      → IsWired (handled dec t o)
  handled-IsWired k t o w h e =
      set_handler-IsWired t.session_id t (put_session dec t o) (put_new-IsWired k t o w h e)
        (lookup-insert_self dec t.session_id t o.sessions) refl

  pub opened-IsWired :
      (k : S) (t : StreamSession S H) (handle : T) (request : SubscriptionRequest S C)
      (o : StreamOrchestrator S C T H)
      → IsWired o
      → contains dec k o.sessions ≡ false
      → t.session_id ≡ k
      → IsWired (record (handled dec t o) {
        handles = insert dec t.session_id handle o.handles;
        session_reconnect_tasks =
            insert dec t.session_id
              (record { request = request; delay = 1; finished = false })
              o.session_reconnect_tasks;
        tasks = o.tasks ++ monitor_of t.session_id ∷ [];
      })
  opened-IsWired k t handle request o w h e =
      let v = handled-IsWired k t o w h e in
      let m : Monitor S C = record { request = request; delay = 1; finished = false } in
      let cb : S × StreamKind = (t.session_id, t.stream_kind) in
      record {
        ids = v.ids;
        sessions_distinct = v.sessions_distinct;
        handles_distinct = insert-IsDistinct dec t.session_id handle o.handles w.handles_distinct;
        tasks_distinct =
            insert-IsDistinct dec t.session_id m o.session_reconnect_tasks w.tasks_distinct;
        handlers_distinct = v.handlers_distinct;
        subscriptions_distinct = w.subscriptions_distinct;
        served = v.served;
        watched = λ j. ground (
          arith,
          w.watched j,
          contains-insert dec j t.session_id m o.session_reconnect_tasks,
          contains-insert dec j t.session_id handle o.handles,
        );
        alive = λ j g. ground (
          arith,
          w.alive j,
          contains-insert dec j t.session_id t o.sessions,
          contains-insert dec j t.session_id handle o.handles,
        );
        called = λ j u g i. ground (
          arith,
          v.called j u g,
          lookup-insert dec j t.session_id t o.sessions,
          lookup-insert dec j t.session_id cb o.session_frame_handlers,
          contains-insert dec j t.session_id handle o.handles,
        );
      }
