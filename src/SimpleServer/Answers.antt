-- ===== src/SimpleServer/Answers.antt =====
-- What the server answers to the packets that it is sent.
use libasio.Prelude.{
  arith, ℕ, ◌≡◌, refl, sym, ◌∙◌, Bool-cases, inl, inr, true, false, Bool, fault, bad_cast, List, [],
  ◌++◌, append-nil, some, ◌==◌, if◌then◌else◌, ok,
}
use libasio.ByteBuffer.Valid.{IsValid}
use libasio.ByteBuffer.Bytes.{readable}
use libasio.TcpConn.Types.{Conn}
use libasio.TcpConn.Socket.{Socket}
use libasio.TcpConn.Events.Returns.{HasRoom}
use libasio.TcpConn.Taking.{send-takes}
use libasio.TcpConn.Stream.{accepted}
use libasio.Echo.{silent, consume_all}
use libasio.Messages.{Codec, bytes_of, send_pkt}
use libasio.Messages.Receiving.{first_packet_only}
use libasio.Packets.{
  Packet, Body, keepalive, keepalive_ack, login, login_ack, packet_keepalive, packet_login,
  operate_success, keepalive_ack_pkt, login_ack_pkt,
}
use libasio.SimpleServer.{simple_server, on_packet, on_message, on_login, on_keepalive}

abbrev is_login_body : Body → Bool
is_login_body (login id name password) = true
is_login_body _ = false

-- The packet is of the class that the server casts it to, where it reads it.
unfoldable pub well_cast : Packet → Bool
well_cast p = if p.type == packet_login then is_login_body p.body else true

module _ (codec : Codec Packet) where
  -- The packet that answers a packet of that type, if one does.
  unfoldable pub reply : (type : ℕ) → List ℕ
  reply n =
      if n == packet_keepalive
      then bytes_of codec keepalive_ack_pkt
      else if n == packet_login
      then bytes_of codec (login_ack_pkt operate_success)
      else []

  on_login-answers :
      (sock : Socket) (b : Body) (c c' : Conn)
      → send_pkt codec sock silent true (some (login_ack_pkt operate_success)) c ≡ ok c'
      → on_login codec sock silent b c ≡ (if is_login_body b then ok c' else fault bad_cast)
  unfolding on_login
  on_login-answers sock keepalive c c' e = refl
  on_login-answers sock keepalive_ack c c' e = refl
  on_login-answers sock (login i n p) c c' e = e
  on_login-answers sock (login_ack a) c c' e = refl

  on_packet-answers :
      (sock : Socket) (c : Conn) (p : Packet)
      → sock.is_open c.trace ≡ true
      → HasRoom (reply p.type) c
      → (c' : Conn) × (on_packet codec sock silent (some p) c
          ≡ (if well_cast p then ok c' else fault bad_cast))
        × (accepted c'.trace ≡ accepted c.trace ++ reply p.type)
  unfolding on_packet on_keepalive send_pkt reply well_cast
  on_packet-answers sock c p o h = elim (Bool-cases (p.type == packet_keepalive)) [
    | inl alive ↦
        let (c', e, a) = send-takes sock (bytes_of codec keepalive_ack_pkt) c o (rw alive at h) in
        let n : (p.type == packet_login) ≡ false = ground arith in (c', rw (alive, n) e, rw alive a)
    | inr other ↦ elim (Bool-cases (p.type == packet_login)) [
      | inl log_in ↦
          let (c', e, a) =
            send-takes sock (bytes_of codec (login_ack_pkt operate_success)) c o
              (rw (other, log_in) at h) in
          (c', rw (other, log_in) (on_login-answers sock p.body c c' e), rw (other, log_in) a)
      | inr unknown ↦ (c, rw (other, unknown) refl, rw (other, unknown) (sym (append-nil _)))
    ]
  ]

  pub on_message-answers :
      (sock : Socket) (c : Conn) (p : Packet) (rest : List ℕ)
      → IsValid c.recv_buffer
      → c.recv_buffer.rpos ≡ 0
      → readable c.recv_buffer ≡ bytes_of codec p ++ rest
      → sock.is_open c.trace ≡ true
      → HasRoom (reply p.type) c
      → (c' : Conn) × (on_message codec sock silent c
          ≡ (if well_cast p then ok c' else fault bad_cast))
        × (accepted c'.trace ≡ accepted c.trace ++ reply p.type)
  unfolding on_message consume_all
  on_message-answers sock c p rest v z e o h =
      let (d, gone) =
        first_packet_only codec (λ k. k) (simple_server codec sock silent) c p rest v z e in
      let (c', r, a) = on_packet-answers sock (consume_all c) p o h in (c', d ∙ r, a)
