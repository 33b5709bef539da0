-- ===== src/SimpleClient.antt =====
-- The client of examples/tcp_cereal_packet, `SimpleClient` (client/simple_client.h,
-- client/simple_client.cc there), in the thread of the loop. What it logs is left out, but not what
-- it reads for that. Its timer is asio's, and so a parameter.
pub mod Timer
pub mod Session
pub mod Keepalive
use libasio.Prelude.{
  ℕ, ◌+◌, Bool, true, false, not, Option, none, some, ◌==◌, if◌then◌else◌, codes, Result, ok, fault,
  null_pointer, bad_cast, ◌>>=◌,
}
use libasio.TcpConn.Types.{Conn, Callbacks}
use libasio.TcpConn.Socket.{Socket}
use libasio.TcpConn.{is_connected, is_disconnecting}
use libasio.Messages
use libasio.Messages.{Codec, PacketHandlers, on_recv_data}
use libasio.Packets.{
  Packet, Body, login_ack, packet_keepalive_ack, packet_login_ack, keepalive_pkt, login_pkt,
}
use Timer.{SteadyTimer}

-- `conn_` is the connection that the client holds.
pub record SimpleClient (t : SteadyTimer) : Type 0 where
  pub is_login : Bool
  pub conn : Option Conn
  pub keepalive_timer : t.Timer

-- The constructor, past that of `TcpClientImpl`.
unfoldable pub make : (t : SteadyTimer) → t.Timer → SimpleClient t
make t timer = record { is_login = false; conn = none; keepalive_timer = timer }

module _ (codec : Codec Packet) (sock : Socket) (app : Callbacks) (t : SteadyTimer) where
  send_on : Packet → Option Conn → Result Conn
  send_on p none = fault null_pointer
  send_on p (some c) = Messages.send_pkt codec sock app true (some p) c

  -- `SendPkt`: with no connection it logs the name of the connection.
  unfoldable pub send_pkt : Packet → SimpleClient t → Result (Bool × SimpleClient t)
  unfolding send_on
  send_pkt p s = do c ← send_on p s.conn; ok (true, record s { conn = some c })

  -- `async_wait(DoKeepAlve)`, after the expiry is set.
  unfoldable pub wait_until : ℕ → SimpleClient t → SimpleClient t
  wait_until x s = record s { keepalive_timer = t.async_wait (t.expires_at x s.keepalive_timer) }

  -- `DoKeepAlve`
  unfoldable pub do_keepalive : SimpleClient t → Result (Bool × SimpleClient t)
  do_keepalive s =
      if not s.is_login
      then ok (false, s)
      else send_pkt keepalive_pkt (wait_until (t.expiry s.keepalive_timer + 3) s)

  -- A handler of the timer that is due runs.
  unfoldable pub run_due : SimpleClient t → Result (SimpleClient t)
  run_due s = do
    (sent, s') ← do_keepalive (record s { keepalive_timer = t.run_handler s.keepalive_timer })
    ok s'

  -- `OnKeepAliveAck` only logs.
  unfoldable pub on_keepalive_ack : SimpleClient t → SimpleClient t
  on_keepalive_ack s = s

  -- `OnLoginAck`, at the time `now`.
  unfoldable pub on_login_ack : (now ack : ℕ) → SimpleClient t → SimpleClient t
  on_login_ack now ack s =
      if ack == 0
      then wait_until (now + 3) (record s { is_login = true })
      else record s { is_login = false }

  -- The part of `OnConnect` for a connection that was made. The `id_` of the packet is not set: `id`
  -- is what its memory holds.
  unfoldable pub log_in : (id : ℕ) → SimpleClient t → Result (SimpleClient t)
  log_in id s = do (sent, s') ← send_pkt (login_pkt id (codes "test") (codes "abc#123")) s; ok s'

  -- `conn_` when the connection that it points to has become `c`.
  refresh : Conn → Option Conn → Option Conn
  refresh c none = none
  refresh c (some old) = some c

  -- `OnConnect`, which is also called when the connection is closed. If the client holds one, it is
  -- this one or, when `c` is connected, an earlier one.
  unfoldable pub on_connect : (id : ℕ) → Conn → SimpleClient t → Result (SimpleClient t)
  unfolding refresh
  on_connect id c s =
      if is_connected c
      then log_in id (record s { conn = some c })
      else ok (
          if is_disconnecting c
          then record s { is_login = false; conn = refresh c s.conn }
          else record s { conn = refresh c s.conn })

  -- `OnLoginAck` of a packet that was cast to a `LoginAck`. Reading the field of a packet of another
  -- class has no meaning in C++; it is a fault here.
  unfoldable pub cast_login_ack : (now : ℕ) → Body → SimpleClient t → Result (SimpleClient t)
  cast_login_ack now (login_ack a) s = ok (on_login_ack now a s)
  cast_login_ack now _ s = fault bad_cast

  -- `OnRecvData`, which reads the type of the packet for the log before it asks for null.
  unfoldable pub on_packet : (now : ℕ) → Option Packet → SimpleClient t → Result (SimpleClient t)
  on_packet now none s = fault null_pointer
  on_packet now (some p) s =
      if p.type == packet_keepalive_ack
      then ok (on_keepalive_ack s)
      else if p.type == packet_login_ack
      then cast_login_ack now p.body s
      else ok s

  -- The class, as `TcpClientImpl` sees it, for a client that holds the connection.
  abbrev pub simple_client : (now id : ℕ) → SimpleClient t → PacketHandlers Packet (SimpleClient t)
  simple_client now id s = record {
    on_recv_data = λ c p. on_packet now p (record s { conn = some c });
    on_connect = λ c. on_connect id c s;
  }

  -- The message callback that `TcpClientImpl` installs.
  unfoldable pub on_message : (now id : ℕ) → Conn → SimpleClient t → Result (SimpleClient t)
  on_message now id c s =
      on_recv_data codec (λ d. record s { conn = some d }) (simple_client now id s) c
