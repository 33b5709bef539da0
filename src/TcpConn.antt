-- ===== src/TcpConn.antt =====
-- `TCPConn` of src/tcp_conn.h and src/tcp_conn.cc: a connection with a receive buffer and two send
-- buffers, one being written and one filling up. A method returns the new connection. Each takes
-- the socket and the callbacks, and, where the source asks `loop_->IsInLoopThread()`, whether the
-- calling thread is the loop's.
pub mod Types
pub mod Socket
pub mod Handlers
pub mod Stream
pub mod Events
pub mod Closing
pub mod Taking
pub mod Traffic
pub mod Quiet
pub mod Posting
pub mod Interface
use libasio.Prelude.{
  fault, system_error, ℕ, ◌+◌, ◌*◌, Bool, true, false, ◌||◌, List, ◌∷◌, Option, none, some, length,
  ltb, ◌==◌, if◌then◌else◌, word, Result, ok, fault, out_of_memory, assert, ◌>>=◌, ◌>>◌,
}
use libasio.ByteBuffer.{ByteBuffer, default, size, valid_size, at_read_begin}
use libasio.ByteBuffer
use Types.{
  Kind, incoming, outgoing, Status, disconnected, connecting, connected, disconnecting, Endpoint,
  Ends, Action, close_socket, set_no_delay, read_some, write_some, post_close, Conn,
}

-- The state that the constructor leaves, when the socket has told its ends.
unfoldable pub make : List ℕ → Endpoint → Endpoint → List Action → Conn
make name local remote trace = record {
  kind = incoming;
  status = disconnected;
  name = name;
  local_ep = local;
  remote_ep = remote;
  recv_buffer = default;
  async_writing = false;
  write_buffer = default;
  writing_buffer = default;
  high_water_mark = 32 * 1024 * 1024;
  conn_fn = none;
  msg_fn = none;
  write_complete_fn = none;
  high_water_mark_fn = none;
  close_fn = none;
  trace = trace;
}

-- The constructor, which throws if the socket does not tell its ends.
unfoldable pub construct : List ℕ → Ends → List Action → Result Conn
construct name none trace = fault system_error
construct name (some (l, r)) trace = ok (make name l r trace)

abbrev pub status_eq : Status → Status → Bool
status_eq disconnected disconnected = true
status_eq connecting connecting = true
status_eq connected connected = true
status_eq disconnecting disconnecting = true
status_eq _ _ = false

unfoldable pub is_connected : Conn → Bool
is_connected c = status_eq c.status connected

unfoldable pub is_connecting : Conn → Bool
is_connecting c = status_eq c.status connecting

unfoldable pub is_disconnected : Conn → Bool
is_disconnected c = status_eq c.status disconnected

unfoldable pub is_disconnecting : Conn → Bool
is_disconnecting c = status_eq c.status disconnecting

-- What the accessors read. `to_string` of an address is asio's, so an address is its text.
unfoldable pub get_local_address : Conn → List ℕ
get_local_address c = c.local_ep.address

unfoldable pub get_local_port : Conn → ℕ
get_local_port c = c.local_ep.port

unfoldable pub get_remote_address : Conn → List ℕ
get_remote_address c = c.remote_ep.address

unfoldable pub get_remote_port : Conn → ℕ
get_remote_port c = c.remote_ep.port

unfoldable pub get_type : Conn → Kind
get_type c = c.kind

abbrev pub kind_eq : Kind → Kind → Bool
kind_eq incoming incoming = true
kind_eq outgoing outgoing = true
kind_eq _ _ = false

unfoldable pub is_incoming_conn : Conn → Bool
is_incoming_conn c = kind_eq c.kind incoming

unfoldable pub get_status : Conn → Status
get_status c = c.status

unfoldable pub get_name : Conn → List ℕ
get_name c = c.name

abbrev pub log : Action → Conn → Conn
log a c = record c { trace = a ∷ c.trace }

-- `Write` on a buffer. A growth that `size_t` cannot compute is of more bytes than there are
-- addresses, so the allocation fails.
unfoldable pub store : List ℕ → ByteBuffer → Result ByteBuffer
store d b =
    if ltb ((length b.storage + length d) * 3) word
    then ok (ByteBuffer.write d b)
    else fault out_of_memory

-- `AsyncRead`
unfoldable pub async_read : Conn → Conn
async_read c = log (read_some (valid_size c.recv_buffer)) c

-- `AsyncWrite`
unfoldable pub async_write : Conn → Conn
async_write c =
    if c.async_writing || size c.writing_buffer == 0
    then c
    else log (write_some (at_read_begin c.writing_buffer)) (record c { async_writing = true })

-- `writing_buffer_.Swap(write_buffer_)`
unfoldable pub swap_buffers : Conn → Conn
swap_buffers c =
    let (writing, write) = ByteBuffer.swap c.writing_buffer c.write_buffer in
    record c { writing_buffer = writing; write_buffer = write }

-- `SetHighWaterMarkCallback`, and the other setters.
unfoldable pub set_high_water_mark_callback : Option ℕ → ℕ → Conn → Conn
set_high_water_mark_callback cb mark c = record c {
  high_water_mark_fn = cb;
  high_water_mark = mark;
}

unfoldable pub set_message_callback : Option ℕ → Conn → Conn
set_message_callback cb c = record c { msg_fn = cb }

unfoldable pub set_conn_callback : Option ℕ → Conn → Conn
set_conn_callback cb c = record c { conn_fn = cb }

unfoldable pub set_close_callback : Option ℕ → Conn → Conn
set_close_callback cb c = record c { close_fn = cb }

unfoldable pub set_type : Kind → Conn → Conn
set_type k c = record c { kind = k }

-- `SetTCPNoDelay`: the error code of `set_option` is dropped.
unfoldable pub set_tcp_no_delay : Bool → Conn → Conn
set_tcp_no_delay on c = log (set_no_delay on) c

-- `Close`: the socket is closed later, by a task of the loop.
unfoldable pub close : Conn → Conn
close c = log post_close (record c { status = disconnecting })

-- The task that `Close` posts.
unfoldable pub close_in_loop : (in_loop : Bool) → Conn → Result Conn
close_in_loop in_loop c = do assert in_loop; ok (log close_socket c)
