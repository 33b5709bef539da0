-- ===== src/SimpleServer.antt =====
-- The server of examples/tcp_cereal_packet, `SimpleServer` (server/simple_server.cc there). What it
-- logs is left out, but not what it reads for that. Its callbacks run in the loop of the connection.
pub mod Answers
use libasio.Prelude.{true, Option, none, some, ◌==◌, if◌then◌else◌, Result, ok, fault, bad_cast}
use libasio.TcpConn.Types.{Conn, Callbacks}
use libasio.TcpConn.Socket.{Socket}
use libasio.Messages.{Codec, PacketHandlers, send_pkt, on_recv_data}
use libasio.Packets.{
  Packet, Body, login, packet_keepalive, packet_login, operate_success, keepalive_ack_pkt,
  login_ack_pkt,
}

module _ (codec : Codec Packet) (sock : Socket) (app : Callbacks) where
  unfoldable pub on_keepalive : Conn → Result Conn
  on_keepalive c = send_pkt codec sock app true (some keepalive_ack_pkt) c

  -- `OnLogin` of a packet that was cast to a `Login`, which reads its fields for the log. Reading a
  -- packet of another class has no meaning in C++; it is a fault here.
  unfoldable pub on_login : Body → Conn → Result Conn
  on_login (login id name password) c =
      send_pkt codec sock app true (some (login_ack_pkt operate_success)) c
  on_login _ c = fault bad_cast

  -- `OnConnect` only logs.
  unfoldable pub on_connect : Conn → Result Conn
  on_connect c = ok c

  -- `OnRecvData`
  unfoldable pub on_packet : Option Packet → Conn → Result Conn
  on_packet none c = ok c
  on_packet (some p) c =
      if p.type == packet_keepalive
      then on_keepalive c
      else if p.type == packet_login
      then on_login p.body c
      else ok c

  -- The class, as `TcpServerImpl` sees it.
  abbrev pub simple_server : PacketHandlers Packet Conn
  simple_server = record { on_recv_data = λ c p. on_packet p c; on_connect = on_connect }

  -- The message callback that `TcpServerImpl` installs.
  unfoldable pub on_message : Conn → Result Conn
  on_message c = on_recv_data codec (λ d. d) simple_server c
