-- ===== src/TcpConn/Interface.antt =====
-- What a `TCPConn` (src/tcp_conn.h) offers to an application: its public methods, and what an
-- application relies on. `S` is a connection with an application that has no high water mark callback.
use libasio.Prelude.{
  ◌∙◌, ℕ, ◌+◌, ◌≡◌, refl, Bool, true, List, ◌++◌, Option, if◌then◌else◌, Result, ok,
}
use libasio.TcpConn
use libasio.TcpConn.Types.{
  Kind, incoming, Status, disconnected, connecting, connected, disconnecting, post_close, Conn,
}
use libasio.TcpConn.Socket.{Socket}
use libasio.TcpConn.{status_eq, kind_eq}
use libasio.TcpConn.Handlers.{update, on_attached_to_loop, send}
use libasio.TcpConn.Events.Returns.{HasRoom}
use libasio.TcpConn.Stream.{accepted}
use libasio.TcpConn.Taking.{send-takes}
use libasio.Echo.{silent}

pub record ConnInterface (S : Type 0) : Type 1 where
  pub close : S → S
  pub update : S → Bool
  pub set_message_callback : Option ℕ → S → S
  pub set_conn_callback : Option ℕ → S → S
  pub set_high_water_mark_callback : Option ℕ → (mark : ℕ) → S → S
  pub set_close_callback : Option ℕ → S → S
  pub on_attached_to_loop : (in_loop : Bool) → S → Result S
  pub get_local_address : S → List ℕ
  pub get_local_port : S → ℕ
  pub get_remote_address : S → List ℕ
  pub get_remote_port : S → ℕ
  pub set_tcp_no_delay : Bool → S → S
  pub send : (in_loop : Bool) → List ℕ → S → Result S
  pub is_connected : S → Bool
  pub is_connecting : S → Bool
  pub is_disconnected : S → Bool
  pub is_disconnecting : S → Bool
  pub set_type : Kind → S → S
  pub get_type : S → Kind
  pub is_incoming_conn : S → Bool
  pub get_status : S → Status
  pub get_name : S → List ℕ
  -- The four tests are of the status.
  pub is_connected-status : (s : S) → is_connected s ≡ status_eq (get_status s) connected
  pub is_connecting-status : (s : S) → is_connecting s ≡ status_eq (get_status s) connecting
  pub is_disconnected-status : (s : S) → is_disconnected s ≡ status_eq (get_status s) disconnected
  pub is_disconnecting-status :
      (s : S) → is_disconnecting s ≡ status_eq (get_status s) disconnecting
  pub is_incoming_conn-type : (s : S) → is_incoming_conn s ≡ kind_eq (get_type s) incoming
  pub get_type-set_type : (k : Kind) (s : S) → get_type (set_type k s) ≡ k
  pub get_status-set_type : (k : Kind) (s : S) → get_status (set_type k s) ≡ get_status s
  pub get_status-close : (s : S) → get_status (close s) ≡ disconnecting
  -- What it took to send, and whether it has memory for more.
  pub sent : S → List ℕ
  pub Room : List ℕ → S → Type 0
  -- Closing only begins: nothing that was sent is lost by it, and the socket is open as before.
  pub sent-close : (s : S) → sent (close s) ≡ sent s
  pub update-close : (s : S) → update (close s) ≡ update s
  -- In the loop's thread, on an open socket, sending returns and takes exactly the bytes.
  pub send-takes :
      (d : List ℕ) (s : S)
      → update s ≡ true
      → Room d s
      → (s' : S) × (send true d s ≡ ok s') × (sent s' ≡ sent s ++ d)

unfoldable pub tcp_conn : Socket → ConnInterface Conn
unfolding TcpConn.close TcpConn.is_connected TcpConn.is_connecting TcpConn.is_disconnected
    TcpConn.is_disconnecting TcpConn.get_status TcpConn.get_type TcpConn.set_type
    TcpConn.is_incoming_conn update
tcp_conn sock = record {
  close = TcpConn.close;
  update = update sock silent;
  set_message_callback = TcpConn.set_message_callback;
  set_conn_callback = TcpConn.set_conn_callback;
  set_high_water_mark_callback = TcpConn.set_high_water_mark_callback;
  set_close_callback = TcpConn.set_close_callback;
  on_attached_to_loop = on_attached_to_loop sock silent;
  get_local_address = TcpConn.get_local_address;
  get_local_port = TcpConn.get_local_port;
  get_remote_address = TcpConn.get_remote_address;
  get_remote_port = TcpConn.get_remote_port;
  set_tcp_no_delay = TcpConn.set_tcp_no_delay;
  send = send sock silent;
  is_connected = TcpConn.is_connected;
  is_connecting = TcpConn.is_connecting;
  is_disconnected = TcpConn.is_disconnected;
  is_disconnecting = TcpConn.is_disconnecting;
  set_type = TcpConn.set_type;
  get_type = TcpConn.get_type;
  is_incoming_conn = TcpConn.is_incoming_conn;
  get_status = TcpConn.get_status;
  get_name = TcpConn.get_name;
  is_connected-status = λ c. refl;
  is_connecting-status = λ c. refl;
  is_disconnected-status = λ c. refl;
  is_disconnecting-status = λ c. refl;
  is_incoming_conn-type = λ c. refl;
  get_type-set_type = λ k c. refl;
  get_status-set_type = λ k c. refl;
  get_status-close = λ c. refl;
  sent = λ c. accepted c.trace;
  Room = HasRoom;
  sent-close = λ c. refl;
  update-close = λ c. sock.is_open-other post_close c.trace refl;
  send-takes = send-takes sock;
}

one_of :
    (t : Status)
    → let n : Bool → ℕ = λ b. if b then 1 else 0 in
      n (status_eq t connected)
        + n (status_eq t connecting)
        + n (status_eq t disconnected)
        + n (status_eq t disconnecting)
      ≡ 1
one_of disconnected = refl
one_of connecting = refl
one_of connected = refl
one_of disconnecting = refl

module _ {S : Type 0} (conn : ConnInterface S) where
  -- Of the four tests exactly one holds.
  one_status :
      (s : S)
      → let n : Bool → ℕ = λ b. if b then 1 else 0 in
        n (conn.is_connected s)
          + n (conn.is_connecting s)
          + n (conn.is_disconnected s)
          + n (conn.is_disconnecting s)
        ≡ 1
  one_status s =
      rw
        (
          conn.is_connected-status s,
          conn.is_connecting-status s,
          conn.is_disconnected-status s,
          conn.is_disconnecting-status s,
        )
        (one_of (conn.get_status s))

  -- A last message before closing is taken, and the connection is then closing.
  farewell :
      (d : List ℕ) (s : S)
      → conn.update s ≡ true
      → conn.Room d s
      → (s' : S) × (conn.send true d s ≡ ok s')
        × (conn.sent (conn.close s') ≡ conn.sent s ++ d)
        × (conn.get_status (conn.close s') ≡ disconnecting)
  farewell d s o r =
      let (s', e, a) = conn.send-takes d s o r in
      (s', e, conn.sent-close s' ∙ a, conn.get_status-close s')
