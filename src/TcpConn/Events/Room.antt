-- ===== src/TcpConn/Events/Room.antt =====
-- The room that `AsyncRead` (src/tcp_conn.cc) offers for a read, where the application does not
-- normalise the buffer.
use libasio.Prelude.{ℕ, ◌*◌, ◌≡◌, List, [], ◌++◌, length, ok}
use libasio.ByteBuffer.Valid.{IsValid}
use libasio.TcpConn
use libasio.TcpConn.Types.{success, Conn, Callbacks}
use libasio.TcpConn.Socket.{Socket}
use libasio.TcpConn.Events.{read_done, Runs, here, next}
use libasio.TcpConn.Traffic.{Aside}

-- Of a receive buffer: it is valid, `n` bytes were ever put in it, and it has the storage it began with.
pub record Holds (n : ℕ) (c : Conn) : Type 0 where
  pub valid : IsValid c.recv_buffer
  pub position : c.recv_buffer.wpos ≡ n
  pub storage : length c.recv_buffer.storage ≡ 8 * 1024

-- An application that reads what it likes of the buffer, but leaves its write position, and its
-- storage at 8 KiB; its other callbacks leave the buffer alone.
pub record Reading (app : Callbacks) : Type 0 where
  pub aside : Aside app
  pub message :
      (f n : ℕ) (c : Conn) {c' : Conn} → app.on_message f c ≡ ok c' → Holds n c → Holds n c'

module _ (sock : Socket) (app : Callbacks) where
  -- The bytes that reads put in the buffer, in a run.
  pub arrived : {c c' : Conn} → Runs sock app c c' → List ℕ
  arrived here = []
  arrived (next (read_done success d) r a s) = arrived r ++ d
  arrived (next e r a s) = arrived r
