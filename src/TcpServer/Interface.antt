-- ===== src/TcpServer/Interface.antt =====
-- What a `TCPServer` (src/tcp_server.h) offers to an application: its public methods, and what an
-- application relies on. `L` is a loop, `S` a server; `rounds`, `plan` and `polls` are what the
-- workers do while they are awaited, `visit` is the order in which the table is iterated.
use libasio.Prelude.{ℕ, ◌≤◌, ◌≡◌, refl, Bool, true, false, List, Option, Result, ok}
use libasio.EventLoop.{EventLoop, IoService, Task}
use libasio.EventLoop
use libasio.EventLoop.Interface.{event_loop}
use libasio.EventLoopThread.Start.{total}
use libasio.EventLoopThreadPool.{Plan}
use libasio.TcpServer
use libasio.TcpServer.{Server, ConnectionMap}
use libasio.TcpServer.Control
use libasio.TcpServer.Serving.{start-serves}

pub record ServerInterface (L S : Type 0) : Type 0 where
  pub make : (name : List ℕ) → (thread_num : ℕ) → S
  pub destroy : (acceptor_open : Bool) → S → Result (Unit {0})
  pub init : S → Bool
  pub start : List ℕ → S → Result (Bool × S)
  pub stop : (caller : ℕ) → Plan → List (ℕ → ℕ) → L → S → Result (Bool × L × S)
  pub set_connection_callback : Option ℕ → S → S
  pub set_message_callback : Option ℕ → S → S
  pub is_running : L → S → Result Bool
  pub is_stopped : L → S → Result Bool
  pub stop_in_loop : (caller : ℕ) → Plan → List (ℕ → ℕ) → S → Result (Bool × S)
  pub remove_conn : (name : List ℕ) → S → S
  pub loop_runs : L → Bool
  pub init-make : (n : List ℕ) (k : ℕ) → init (make n k) ≡ true
  -- A new server, with whatever callbacks, that is started runs, if its loop does.
  pub start-runs :
      (n : List ℕ) (k : ℕ) (cb mb : Option ℕ) (rounds : List ℕ) (l : L)
      → 3 ≤ total rounds
      → loop_runs l ≡ true
      → (s : S) × (start rounds (set_message_callback mb (set_connection_callback cb (make n k)))
          ≡ ok (true, s))
        × (is_running l s ≡ ok true)
  -- Stopping it from another thread than its loop's returns and leaves it as it is.
  pub in_loop : (caller : ℕ) → L → Bool
  pub stop-elsewhere :
      (c : ℕ) (plan : Plan) (polls : List (ℕ → ℕ)) (l : L) (s : S)
      → in_loop c l ≡ false
      → (l' : L) × (stop c plan polls l s ≡ ok (true, l', s)) × (loop_runs l' ≡ loop_runs l)
  -- Whether it runs depends on the loop only by whether that runs.
  pub is_running-loop_runs :
      (l l' : L) (s : S) → loop_runs l' ≡ loop_runs l → is_running l' s ≡ is_running l s

module _ {F : Type 0} (io : IoService F) (owner : ℕ) (id_text : ℕ → List ℕ) (stop_fn : Task F)
    (visit : ConnectionMap → ConnectionMap) where
  unfoldable pub tcp_server : ServerInterface (EventLoop F) (Server F)
  unfolding event_loop TcpServer.make TcpServer.set_connection_callback
      TcpServer.set_message_callback Control.init Control.is_running
  tcp_server = record {
    make = TcpServer.make;
    destroy = Control.destroy;
    init = Control.init;
    start = Control.start io owner id_text;
    stop = λ c plan polls l s. Control.stop io c visit (event_loop F) stop_fn plan polls l s;
    set_connection_callback = TcpServer.set_connection_callback;
    set_message_callback = TcpServer.set_message_callback;
    is_running = Control.is_running;
    is_stopped = Control.is_stopped;
    stop_in_loop = λ c plan polls s. Control.stop_in_loop io c visit plan polls s;
    remove_conn = TcpServer.remove_conn;
    loop_runs = EventLoop.is_running;
    init-make = λ n k. refl;
    start-runs = λ n k cb mb rounds l h r.
        let t =
          TcpServer.set_message_callback mb
            (TcpServer.set_connection_callback cb (TcpServer.make n k)) in
        let (s, e, tr, ts, q, c, m) = start-serves io owner id_text rounds t k l h refl r in
        (s, e, q);
    in_loop = EventLoop.is_in_loop_thread;
    stop-elsewhere = λ c plan polls l s h. (
      EventLoop.queue_in_loop stop_fn l,
      Control.stop-elsewhere io c visit (event_loop F) stop_fn plan polls l s h,
      (event_loop F).queue_in_loop-is_running stop_fn l,
    );
    is_running-loop_runs = λ l l' s h. rw h refl;
  }

module _ {L S : Type 0} (server : ServerInterface L S) where
  -- Asking a server that was started to stop, from another thread than its loop's, leaves it running.
  stop-is_running :
      (n : List ℕ) (k : ℕ) (cb mb : Option ℕ) (rounds : List ℕ) (l : L)
      → 3 ≤ total rounds
      → server.loop_runs l ≡ true
      → (s : S) × (server.start rounds
            (server.set_message_callback mb (server.set_connection_callback cb (server.make n k)))
          ≡ ok (true, s))
        × ((c : ℕ) (plan : Plan) (polls : List (ℕ → ℕ))
            → server.in_loop c l ≡ false
            → (l' : L) × (server.stop c plan polls l s ≡ ok (true, l', s))
              × (server.is_running l' s ≡ ok true))
  stop-is_running n k cb mb rounds l h r =
      let (s, e, q) = server.start-runs n k cb mb rounds l h r in
      (
        s,
        e,
        λ c plan polls o.
            let (l', d, x) = server.stop-elsewhere c plan polls l s o in
            (l', d, rw (server.is_running-loop_runs l l' s x) q),
      )
