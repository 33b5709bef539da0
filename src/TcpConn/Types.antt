-- ===== src/TcpConn/Types.antt =====
-- The state of a `TCPConn` (src/tcp_conn.h) and what it does to the world.
use libasio.Prelude.{ℕ, Bool, List, Option, Result}
use libasio.ByteBuffer.{ByteBuffer}

-- `TCPConn::Type`
pub data Kind : Type 0 where
  incoming outgoing : Kind

-- `TCPConn::Status`
pub data Status : Type 0 where
  disconnected connecting connected disconnecting : Status

-- What the handlers tell apart in an `asio::error_code`.
pub data ErrorCode : Type 0 where
  success eof : ErrorCode
  other : ℕ → ErrorCode

-- `tcp::endpoint`, as far as the getters read it.
pub record Endpoint : Type 0 where
  pub address : List ℕ
  pub port : ℕ

-- What `local_endpoint()` and `remote_endpoint()` of a socket give, or none if one of them throws: on
-- a socket that is closed, and where the peer has reset the connection.
abbrev pub Ends : Type 0
Ends = Option (Endpoint × Endpoint)

-- What a connection did, one entry for each call of the socket, of a callback and of the loop.
-- `took` and `wrote` are entries for the proofs alone: the bytes that `SendInLoop` put in a buffer,
-- and those that a completed write reports as sent.
pub data Action : Type 0 where
  close_socket : Action
  set_no_delay : Bool → Action
  read_some : (room : ℕ) → Action
  write_some : (bytes : List ℕ) → Action
  call_conn : Status → Action
  call_message : (bytes : List ℕ) → Action
  call_high_water : ℕ → Action
  call_close : Status → Action
  post_close : Action
  post_send : List ℕ → Action
  took : List ℕ → Action
  wrote : List ℕ → Action

-- A `std::function` is the number of a callback of the application, or none.
pub record Conn : Type 0 where
  pub kind : Kind
  pub status : Status
  pub name : List ℕ
  pub local_ep : Endpoint
  pub remote_ep : Endpoint
  pub recv_buffer : ByteBuffer
  pub async_writing : Bool
  pub write_buffer : ByteBuffer
  pub writing_buffer : ByteBuffer
  pub high_water_mark : ℕ
  pub conn_fn : Option ℕ
  pub msg_fn : Option ℕ
  pub write_complete_fn : Option ℕ
  pub high_water_mark_fn : Option ℕ
  pub close_fn : Option ℕ
  -- newest first
  pub trace : List Action

-- The application's callbacks. Each gets the connection and returns it as the calls that it makes
-- leave it.
pub record Callbacks : Type 0 where
  pub on_conn : ℕ → Conn → Result Conn
  pub on_message : ℕ → Conn → Result Conn
  pub on_high_water_mark : ℕ → ℕ → Conn → Result Conn
  pub on_close : ℕ → Conn → Result Conn
