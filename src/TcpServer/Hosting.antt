-- ===== src/TcpServer/Hosting.antt =====
-- A `TCPServer` together with the `TCPConn`s that it accepted (`HandleNewConn` and `RemoveConn` of
-- src/tcp_server.cc). The connections live in their own loops; `RemoveConn`, their close callback,
-- leaves a task for the listening loop.
pub mod Counts
pub mod Live
use libasio.Prelude.{
  ℕ, ◌+◌, ◌≡◌, ◌<◌, List, [], ◌∷◌, ◌++◌, replicate, some, ◌==◌, if◌then◌else◌, ok,
}
use libasio.TcpConn
use libasio.TcpConn.Types.{Endpoint, Conn, Callbacks}
use libasio.TcpConn.Socket.{Socket}
use libasio.TcpConn.{set_message_callback, set_conn_callback, set_close_callback}
use libasio.TcpConn.Closing.{close_calls}
use libasio.TcpConn.Events
use libasio.TcpConn.Events.{Allowed}
use libasio.EventLoopThreadPool.{Turn}
use libasio.TcpServer
use libasio.TcpServer.{Server, conn_name, handle_new_conn, remove_conn}

-- `RemoveConn` as a close callback, by number.
abbrev pub remove_conn_fn : ℕ
remove_conn_fn = 0

module _ {F : Type 0} where
  -- The connection that `HandleNewConn` makes of an accepted socket.
  unfoldable pub accepted_conn : Endpoint → Endpoint → Server F → Conn
  accepted_conn l r s = set_close_callback (some remove_conn_fn) (
      set_conn_callback s.conn_fn
        (set_message_callback s.msg_fn (TcpConn.make (conn_name s.name s.next_conn_id) l r [])))

module _ (F : Type 0) where
  pub record House : Type 0 where
    pub server : Server F
    pub conn : ℕ → Conn  -- those that were accepted, by number
    pub due : List ℕ  -- the connections whose `RemoveConn` waits in the listening loop

abbrev pub place_conn : ℕ → Conn → (ℕ → Conn) → ℕ → Conn
place_conn i c conn j = if i == j then c else conn j

module _ {F : Type 0} (sock : Socket) (app : Callbacks) where
  -- What may happen next.
  pub data Move (h : House F) : House F → Type 0 where
    accepts :
        (t : Turn) (l r : Endpoint) {s : Server F}
        → handle_new_conn (some (l, r)) t h.server ≡ ok s
        → Move h (record h {
          server = s;
          conn = place_conn h.server.next_conn_id (accepted_conn l r h.server) h.conn;
        })
    -- Each call of the close callback leaves a task. The application leaves that callback alone.
    acts :
        (i : ℕ) (e : Events.Event) (k : ℕ) {c : Conn}
        → i < h.server.next_conn_id
        → (h.conn i).close_fn ≡ some remove_conn_fn
        → Allowed e (h.conn i)
        → Events.step sock app e (h.conn i) ≡ ok c
        → close_calls c.trace ≡ close_calls (h.conn i).trace + k
        → Move h (record h { conn = place_conn i c h.conn; due = h.due ++ replicate k i })
    removes :
        (i : ℕ) (rest : List ℕ)
        → h.due ≡ i ∷ rest
        → Move h
            (record h { server = remove_conn (conn_name h.server.name i) h.server; due = rest })

  pub data Reach (h : House F) : House F → Type 0 where
    start : Reach h h
    later : {h' h'' : House F} → Reach h h' → Move h' h'' → Reach h h''

-- A new server, which has accepted nothing.
abbrev pub open_house : (F : Type 0) → (name : List ℕ) → (thread_num : ℕ) → (ℕ → Conn) → House F
open_house F name n conn = record { server = TcpServer.make name n; conn = conn; due = [] }
