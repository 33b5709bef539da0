-- ===== src/TcpClient.antt =====
-- `TCPClient` of src/tcp_client.h and src/tcp_client.cc: it connects, holds the connection, and
-- connects again when an attempt fails or the connection is removed. Calls are made in the loop's
-- thread, so the assertions of that hold. The name of the server resolves. A connection has a
-- number, for the comparison of two pointers.
pub mod Attach
pub mod Retries
pub mod Notices
pub mod Life
pub mod Control
pub mod Release
pub mod Interface
use libasio.Prelude.{
  ℕ, ◌+◌, Bool, true, false, not, ◌&&◌, List, [], ◌∷◌, Option, none, some, ltb, ◌==◌, if◌then◌else◌,
  Result, ok, fault, bad_function_call, assert, ◌>>=◌, ◌>>◌,
}
use libasio.TcpConn.Types.{outgoing, Ends, Conn, Callbacks, call_conn}
use libasio.TcpConn.Socket.{Socket}
use libasio.TcpConn.{is_disconnected, is_disconnecting, set_type, set_close_callback}
use libasio.TcpConn.Handlers.{on_attached_to_loop}
use libasio.TcpConn

abbrev pub default_max_reconnect_time : ℕ
default_max_reconnect_time = 5

-- What the client asks of asio.
pub data Action : Type 0 where
  async_connect : (address : List ℕ) → (port : ℕ) → Action
  async_wait : (seconds : ℕ) → Action  -- `expires_from_now` and `async_wait(Reconnect)`

pub record Held : Type 0 where
  pub id : ℕ
  pub conn : Conn

pub record Client : Type 0 where
  pub remote_addr : List ℕ
  pub remote_port : ℕ
  pub name : List ℕ
  pub auto_reconnect : Bool
  pub reconnect_interval : ℕ
  pub reconnecting_times : ℕ
  pub conn : Option Held
  pub conn_fn : Option ℕ
  pub msg_fn : Option ℕ
  pub next_id : ℕ  -- the number of the next connection that is made
  pub trace : List Action  -- newest first

-- The constructor.
unfoldable pub make : List ℕ → ℕ → List ℕ → Client
make remote_addr port name = record {
  remote_addr = remote_addr;
  remote_port = port;
  name = name;
  auto_reconnect = false;
  reconnect_interval = 3;
  reconnecting_times = 0;
  conn = none;
  conn_fn = none;
  msg_fn = none;
  next_id = 0;
  trace = [];
}

unfoldable pub set_auto_reconnect : Bool → Client → Client
set_auto_reconnect v t = record t { auto_reconnect = v }

unfoldable pub set_reconnect_interval : ℕ → Client → Client
set_reconnect_interval timeout t = record t { reconnect_interval = timeout }

unfoldable pub set_message_callback : Option ℕ → Client → Client
set_message_callback cb t = record t { msg_fn = cb }

-- `SetConnCallback`, of the held connection too.
pub set_conn_of : Option ℕ → Option Held → Option Held
set_conn_of cb none = none
set_conn_of cb (some h) = some (record h { conn = TcpConn.set_conn_callback cb h.conn })

unfoldable pub set_conn_callback : Option ℕ → Client → Client
unfolding set_conn_of
set_conn_callback cb t = record t { conn_fn = cb; conn = set_conn_of cb t.conn }

-- `Connect` up to its completion handler.
unfoldable pub connect : Client → Client
connect t = record t { trace = async_connect t.remote_addr t.remote_port ∷ t.trace }

-- `Reconnect`
unfoldable pub reconnect : Client → Client
reconnect t = connect (record t { reconnecting_times = t.reconnecting_times + 1 })

-- `DisconnectInLoop`
unfoldable pub close_held : Option Held → Result (Option Held)
close_held none = ok none
close_held (some h) = do
  assert (not (is_disconnected h.conn) && not (is_disconnecting h.conn))
  ok (some (record h { conn = TcpConn.close h.conn }))

unfoldable pub disconnect_in_loop : Client → Result Client
disconnect_in_loop t = do
  held ← close_held t.conn
  ok (record t { auto_reconnect = false; conn = held })

-- `OnRemoveConn`, for the connection `id`.
unfoldable pub on_remove_held : ℕ → Option Held → Client → Result Client
on_remove_held id none t = ok t
on_remove_held id (some h) t = do
  assert (id == h.id)
  let t' = record t { conn = none }
  ok (if t'.auto_reconnect then reconnect t' else t')

unfoldable pub on_remove_conn : ℕ → Client → Result Client
on_remove_conn id t = on_remove_held id t.conn t

-- The connect handler for an error.
unfoldable pub connect_failed : Client → Client
connect_failed t =
    if t.auto_reconnect && ltb t.reconnecting_times default_max_reconnect_time
    then record t { trace = async_wait t.reconnect_interval ∷ t.trace }
    else t

-- `remove_fn` is the number of `OnRemoveConn` among the callbacks.
module _ (sock : Socket) (app : Callbacks) (remove_fn : ℕ) where
  -- `conn_fn_` for a socket that is not open.
  unfoldable pub report_unopened : Option ℕ → Conn → Result Conn
  report_unopened none c = fault bad_function_call
  report_unopened (some f) c = app.on_conn f (record c { trace = call_conn c.status ∷ c.trace })

  -- What `HandleConn` sets up in the connection that it constructed.
  unfoldable pub new_conn : Client → Conn → Conn
  new_conn t c = set_close_callback (some remove_fn) (
      TcpConn.set_conn_callback t.conn_fn
        (TcpConn.set_message_callback t.msg_fn (set_type outgoing c)))

  -- `ends` is what the connected socket tells of its ends.
  module _ (ends : Ends) where
    -- The early return of `HandleConn`, which constructs a connection first.
    unfoldable pub report_closed : Client → Result Client
    report_closed t = do
      c ← TcpConn.construct t.name ends []
      c' ← report_unopened t.conn_fn c
      ok t

    -- `HandleConn` past its early return: the client holds the connection, which is then attached.
    unfoldable pub hold_conn : Client → Result Client
    hold_conn t = do
      made ← TcpConn.construct t.name ends []
      c ← on_attached_to_loop sock app true (new_conn t made)
      ok (record t { conn = some (record { id = t.next_id; conn = c }); next_id = t.next_id + 1 })

    -- `HandleConn`
    unfoldable pub handle_conn : Client → Result Client
    handle_conn t = if not (sock.is_open []) then report_closed t else hold_conn t

    -- The connect handler for success.
    unfoldable pub connect_done : Client → Result Client
    connect_done t = handle_conn (record t { reconnecting_times = 0 })
