-- ===== src/Tests/Programs.antt =====
-- The echo programs at concrete inputs, and the end of a client.
use libasio.Prelude.{
  false, fault, assertion_failed, ℕ, ◌≡◌, refl, true, [], ◌∷◌, some, ok, codes, arith,
}
use libasio.EventLoop
use libasio.EventLoop.{EventLoop, is_in_loop_thread}
use libasio.EventLoopThreadPool.{thread}
use libasio.EventLoopThreadPool.Life.{workers}
use libasio.TcpConn
use libasio.TcpConn.Types.{Conn}
use libasio.TcpConn.Stream.{accepted}
use libasio.TcpConn.Handlers.{handle_close}
use libasio.TcpConn.Closing.{close_calls}
use libasio.Echo.{client, silent}
use libasio.TcpServer.{failure, socket, Server, accept}
use libasio.TcpServer.Control.{is_running}
use libasio.TcpClient.{Client, Held, async_connect, connect_done}
use libasio.TcpClient.Control.{destroy}
use libasio.TcpClient.Release.{destroy-disconnecting}
use libasio.TcpServer.Accepting.{answer_all, all_told}
use libasio.Messages.Impl.{server_impl}
use libasio.Messages.Lifetime.{destroy_server_impl, server_impl-lasts}
use libasio.Programs.{echo_server, echo_client, on_connection_fn, on_message_fn}
use libasio.Programs.Running.{greeting, echo_server-serves, echo_client-greets}
use libasio.Tests.Conns.{plain, nowhere, silent-Quiet}
use libasio.Tests.Loops.{service, text_of}
use libasio.Tests.Clients.{third, talker}

echo_server-serves_example :
    (l : EventLoop ℕ) × (s : Server ℕ) × (echo_server service 1 text_of (1 ∷ 2 ∷ [])
      ≡ ok (true, l, s))
    × (is_running l s ≡ ok true)
    × (s.pool.threads ≡ workers service 1 text_of 4 0)
    × (s.trace ≡ accept (thread 0) ∷ [])
    × (s.conn_fn ≡ some on_connection_fn)
    × (s.msg_fn ≡ some on_message_fn)
echo_server-serves_example = echo_server-serves service 1 text_of (1 ∷ 2 ∷ []) (omega arith)

echo_client-greets_example :
    (t : Client) × (h : Held) × (EventLoop.is_running (echo_client {F = ℕ} 1).0 ≡ true)
    × (is_in_loop_thread 1 (echo_client {F = ℕ} 1).0 ≡ true)
    × ((echo_client {F = ℕ} 1).1.trace ≡ async_connect (codes "127.0.0.1") 7788 ∷ [])
    × (connect_done plain (client plain) 9 (some (nowhere, nowhere)) (echo_client {F = ℕ} 1).1
        ≡ ok t)
    × (t.conn ≡ some h)
    × (accepted h.conn.trace ≡ greeting)
    × (t.auto_reconnect ≡ true)
echo_client-greets_example = echo_client-greets plain 9 nowhere nowhere ℕ 1 refl

abbrev closing : Held
closing = record { id = 3; conn = TcpConn.close third.conn }

destroy-disconnecting_example :
    (k : Held) × (c : Conn) × (destroy 3 (record talker { conn = some closing }) ≡ ok (some k))
    × (handle_close plain silent true k.conn ≡ ok c)
    × (close_calls c.trace ≡ close_calls closing.conn.trace)
unfolding TcpConn.is_disconnecting TcpConn.close
destroy-disconnecting_example =
    destroy-disconnecting plain silent 3 (record talker { conn = some closing }) closing
      (record {
        conn = λ f c. (c, refl);
        message = λ f c. (c, refl);
        high_water = λ f n c. (c, refl);
        close = λ f c. (c, refl);
      })
      silent-Quiet refl refl (omega arith)

server_impl-lasts_example :
    (s₁ s₂ : Server ℕ) × (server_impl service 1 text_of (3 ∷ []) (codes "simple") 4 ≡ ok (true, s₁))
    × (answer_all (failure ∷ socket (some (nowhere, nowhere)) ∷ []) s₁ ≡ ok s₂)
    × (destroy_server_impl false (record s₂ { conns = [] }) ≡ fault assertion_failed)
unfolding all_told
server_impl-lasts_example =
    server_impl-lasts service 1 text_of (3 ∷ []) (codes "simple") 4
      (failure ∷ socket (some (nowhere, nowhere)) ∷ []) false [] (omega arith) (omega arith) refl
