-- ===== src/Echo.antt =====
-- The callbacks of the echo client and server (examples/tcp_echo/client/client.cc and
-- examples/tcp_echo/server/server.cc). They run in the connection's loop. What they print is left
-- out.
pub mod Safe
pub mod Answers
pub mod Dialogue
pub mod Traffic
use libasio.Prelude.{ℕ, true, List, Result, ok, codes, if◌then◌else◌}
use libasio.ByteBuffer.{size, read_bytes, normalize}
use libasio.TcpConn.Types.{Conn, Callbacks}
use libasio.TcpConn.Socket.{Socket}
use libasio.TcpConn.{is_connected}
use libasio.TcpConn.Handlers.{send}

-- An application that does nothing when it is called back.
abbrev pub silent : Callbacks
silent = record {
  on_conn = λ f c. ok c;
  on_message = λ f c. ok c;
  on_high_water_mark = λ f n c. ok c;
  on_close = λ f c. ok c;
}

-- `buffer.ReadBytes(buffer.Size()); buffer.Normalize();`
unfoldable pub consume_all : Conn → Conn
consume_all c = record c { recv_buffer = normalize (read_bytes (size c.recv_buffer) c.recv_buffer) }

module _ (sock : Socket) where
  -- `OnMessage`
  unfoldable pub on_message : (answer : List ℕ) → Conn → Result Conn
  on_message answer c = send sock silent true answer (consume_all c)

  -- `OnConnection` of the client; that of the server only prints.
  unfoldable pub on_connection : Conn → Result Conn
  on_connection c =
      if is_connected c then send sock silent true (codes "client say hello!") c else ok c

  unfoldable pub client : Callbacks
  client = record silent {
    on_conn = λ f c. on_connection c;
    on_message = λ f c. on_message (codes "client say hello!") c;
  }

  unfoldable pub server : Callbacks
  server = record silent { on_message = λ f c. on_message (codes "server say hello!") c }
