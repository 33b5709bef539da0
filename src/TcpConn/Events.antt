-- ===== src/TcpConn/Events.antt =====
-- A connection's life as the sequence of the calls that its loop, its socket and the application
-- make on it. A task that the loop was given runs as an event of its own.
pub mod Safe
pub mod Returns
pub mod Room
pub mod Drain
use libasio.Prelude.{ℕ, ◌≤◌, ◌≡◌, Bool, true, false, length, List, Option, Result, ok, ◌>>=◌}
use libasio.ByteBuffer.{size, valid_size, memcpy_at_write_begin}
use libasio.TcpConn.Types.{Kind, ErrorCode, Conn, Callbacks}
use libasio.TcpConn.Socket.{Socket}
use libasio.TcpConn.{
  close, close_in_loop, set_high_water_mark_callback, set_message_callback, set_conn_callback,
  set_close_callback, set_type, set_tcp_no_delay,
}
use libasio.TcpConn.Handlers.{on_attached_to_loop, send, send_in_loop, handle_read, handle_write}

pub data Event : Type 0 where
  attached : Event
  sent : (in_loop : Bool) → List ℕ → Event
  send_task : List ℕ → Event
  closed : Event
  close_task : Event
  read_done : ErrorCode → (bytes : List ℕ) → Event  -- the bytes that the socket put in the buffer
  write_done : ErrorCode → ℕ → Event
  set_high_water : Option ℕ → ℕ → Event
  set_message set_conn set_close : Option ℕ → Event
  set_kind : Kind → Event
  set_no_delay : Bool → Event

-- The calls of `Send`, and the task of it.
abbrev pub is_send : Event → Bool
is_send (sent in_loop d) = true
is_send (send_task d) = true
is_send _ = false

-- `async_read_some` puts bytes where `WriteBegin` pointed when it was called.
unfoldable pub filled : List ℕ → Conn → Conn
filled d c = record c { recv_buffer = memcpy_at_write_begin d c.recv_buffer }

-- What asio documents of a completed operation: it moved no more bytes than it was given room for.
abbrev pub Allowed : Event → Conn → Type 0
Allowed (read_done err d) c = length d ≤ valid_size c.recv_buffer
Allowed (write_done err n) c = n ≤ size c.writing_buffer
Allowed _ c = Unit {0}

module _ (sock : Socket) (app : Callbacks) where
  unfoldable pub step : Event → Conn → Result Conn
  step attached c = on_attached_to_loop sock app true c
  step (sent in_loop d) c = send sock app in_loop d c
  step (send_task d) c = send_in_loop sock app true d c
  step closed c = ok (close c)
  step close_task c = close_in_loop true c
  step (read_done err d) c = handle_read sock app err (length d) (filled d c)
  step (write_done err n) c = handle_write sock app err n c
  step (set_high_water f n) c = ok (set_high_water_mark_callback f n c)
  step (set_message f) c = ok (set_message_callback f c)
  step (set_conn f) c = ok (set_conn_callback f c)
  step (set_close f) c = ok (set_close_callback f c)
  step (set_kind k) c = ok (set_type k c)
  step (set_no_delay on) c = ok (set_tcp_no_delay on c)

  -- `Runs es c c'`: the events lead from `c` to `c'`, each allowed where it happens and returning.
  pub data Runs (c : Conn) : Conn → Type 0 where
    here : Runs c c
    next : {d d' : Conn} (e : Event) → Runs c d → Allowed e d → step e d ≡ ok d' → Runs c d'
