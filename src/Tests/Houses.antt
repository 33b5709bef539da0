-- ===== src/Tests/Houses.antt =====
-- A server and its connections at concrete inputs: the peers of some connections end their streams.
use libasio.Prelude.{ℕ, ◌≡◌, refl, [], none, some, Result, codes, if◌then◌else◌, ◌==◌, arith}
use libasio.ByteBuffer.{valid_size, default}
use libasio.TcpConn.{make, construct, set_message_callback, set_conn_callback, set_close_callback}
use libasio.TcpConn.Types.{Conn, eof}
use libasio.TcpConn.Handlers.{
  handle_read, handle_close, close_and_notify, close_if_open, notify_conn, notify_close,
}
use libasio.TcpConn.Closing.{close_calls}
use libasio.TcpConn.Events.{Event, read_done, step, filled}
use libasio.EventLoopThreadPool.{base}
use libasio.TcpServer
use libasio.TcpServer.{Server, conn_name, lookup, add_conn, handle_new_conn}
use libasio.TcpServer.Hosting.{
  House, open_house, accepted_conn, Reach, start, later, accepts, acts, removes,
}
use libasio.TcpServer.Hosting.Live.{accepted_in, table_is_open}
use libasio.Echo.{silent}
use libasio.Tests.Conns.{plain, nowhere}

abbrev before : House ℕ
before = open_house ℕ (codes "chat") 0 (λ i. make [] nowhere nowhere [])

-- All that a connection runs at the end of its stream.
abbrev ending : Event → Conn → Result Conn
unfolding step filled handle_read handle_close close_and_notify close_if_open notify_conn
    notify_close accepted_conn make set_message_callback set_conn_callback set_close_callback
    handle_new_conn add_conn construct TcpServer.make valid_size default
ending = step plain silent

-- Two are accepted, and the second one's peer ends its stream.
abbrev one_left : (h : House ℕ) × Reach plain silent before h
unfolding ending
one_left = (
  _,
  later
      (later
        (later (later start (accepts base nowhere nowhere refl))
          (accepts base nowhere nowhere refl))
        (acts 1 (read_done eof []) 1 (omega arith) refl (omega arith) refl refl))
      (removes 1 [] refl),
)

table_is_open_example :
    lookup (conn_name (codes "chat") 0) one_left.0.server.conns
    ≡ (if close_calls (one_left.0.conn 0).trace == 0 then some 0 else none)
unfolding accepted_in one_left
table_is_open_example =
    table_is_open plain silent (codes "chat") 0 (λ i. make [] nowhere nowhere []) one_left.1 0
      (omega arith) (omega arith) refl
