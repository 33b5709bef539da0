-- ===== src/Programs.antt =====
-- The main functions of examples/tcp_echo (client/client.cc, server/server.cc) and of
-- examples/tcp_cereal_packet (client/client.cc, server/server.cc), up to the loop that they run
-- until it is stopped. Those of the packets first set up the log, log4z, which is a parameter.
pub mod Running
use libasio.Prelude.{ℕ, Bool, true, false, List, some, codes, Result, ok, ◌>>=◌}
use libasio.EventLoop
use libasio.EventLoop.{EventLoop, IoService, begin_run}
use libasio.TcpServer
use libasio.TcpServer.{Server, set_connection_callback}
use libasio.TcpServer.Control.{start}
use libasio.TcpClient
use libasio.TcpClient.{Client, connect, set_auto_reconnect, set_conn_callback}
use libasio.Messages.Impl.{ClientImpl, client_impl, server_impl}
use libasio.SimpleClient.Timer.{SteadyTimer}
use libasio.SimpleClient

-- The callbacks `OnConnection` and `OnMessage` of the echo programs, by number.
abbrev pub on_connection_fn : ℕ
on_connection_fn = 0

abbrev pub on_message_fn : ℕ
on_message_fn = 1

-- `ILog4zManager` of log4z, as far as the programs use it.
pub record LogManager (M : Type 0) : Type 0 where
  pub main_logger_id : ℕ
  pub level_trace : ℕ
  pub set_logger_level : (id level : ℕ) → M → M
  pub set_logger_limitsize : (id limitsize : ℕ) → M → M
  pub set_logger_name : (id : ℕ) (name : List ℕ) → M → M
  pub set_logger_reserve_days : (id days : ℕ) → M → M
  pub start : M → M

module _ {M : Type 0} (manager : LogManager M) where
  -- The log of a program of that name.
  set_up_log : (name : List ℕ) → M → M
  set_up_log name m =
      let id = manager.main_logger_id in
      manager.start (
        manager.set_logger_reserve_days id 7 (
          manager.set_logger_name id name (
            manager.set_logger_limitsize id 10
              (manager.set_logger_level id manager.level_trace m))))

module _ {F : Type 0} where
  -- `loop.Run()` once the server was started, that is, if its `Start` returned.
  unfoldable pub serve : (main : ℕ) → EventLoop F → Bool → Server F → Bool × EventLoop F × Server F
  serve main l false s = (false, l, s)
  serve main l true s = (true, begin_run main l, s)

  module _ (io : IoService F) (main : ℕ) (id_text : ℕ → List ℕ) where
    unfoldable pub echo_server : List ℕ → Result (Bool × EventLoop F × Server F)
    echo_server rounds = do
      let s =
          TcpServer.set_message_callback (some on_message_fn) (
            set_connection_callback (some on_connection_fn) (TcpServer.make (codes "EchoServer") 4))
      (up, s') ← start io main id_text rounds s
      ok (serve main (EventLoop.make main) up s')

    -- `SimpleServer`'s constructor, which is `TcpServerImpl`'s.
    unfoldable pub new_simple_server :
        List ℕ → (name : List ℕ) → (thread_num : ℕ) → Result (Bool × Server F)
    new_simple_server rounds name n = server_impl io main id_text rounds name n

    unfoldable pub packet_server :
        {M : Type 0} → LogManager M → M → List ℕ → Result (M × Bool × EventLoop F × Server F)
    unfolding set_up_log
    packet_server manager m rounds = do
      let m' = set_up_log manager (codes "SimpleServer") m
      (up, s) ← new_simple_server rounds (codes "SimpleServer") 2
      let (served, l, s') = serve main (EventLoop.make main) up s
      ok (m', served, l, s')

  unfoldable pub echo_client : (main : ℕ) → EventLoop F × Client
  echo_client main =
      let t = TcpClient.make (codes "127.0.0.1") 7788 (codes "EchoClient") in
      (
        begin_run main (EventLoop.make main),
        TcpClient.set_message_callback (some on_message_fn)
            (set_conn_callback (some on_connection_fn) (set_auto_reconnect true (connect t))),
      )

  unfoldable pub packet_client :
      {M : Type 0}
      → LogManager M
      → M
      → (t : SteadyTimer) → t.Timer
      → (main : ℕ) → M × EventLoop F × ClientImpl × SimpleClient.SimpleClient t
  unfolding set_up_log
  packet_client manager m t timer main = (
    set_up_log manager (codes "NetworkClient") m,
    begin_run main (EventLoop.make main),
    client_impl (codes "127.0.0.1") 1188 (codes "SimpleClient"),
    SimpleClient.make t timer,
  )
