-- ===== src/SimpleClient/Session.antt =====
-- A login: the packets that the client and the server exchange.
use libasio.Prelude.{ℕ, ◌+◌, ◌≡◌, refl, sym, ap, ◌∙◌, true, [], ◌++◌, append-nil, some, codes, ok}
use libasio.ByteBuffer.Valid.{IsValid}
use libasio.ByteBuffer.Bytes.{readable}
use libasio.TcpConn.Types.{Conn}
use libasio.TcpConn.Socket.{Socket}
use libasio.TcpConn.{is_connected}
use libasio.TcpConn.Events.Returns.{HasRoom}
use libasio.TcpConn.Stream.{accepted}
use libasio.TcpConn.Taking.{send-takes}
use libasio.Echo.{silent, consume_all}
use libasio.Messages
use libasio.Messages.{Codec, bytes_of}
use libasio.Messages.Receiving.{first_packet_only}
use libasio.Packets.{Packet, login_pkt, login_ack_pkt, operate_success, packet_login}
use libasio.SimpleServer
use libasio.SimpleServer.Answers.{reply, on_message-answers, well_cast}
use libasio.SimpleClient.Timer.{SteadyTimer}
use libasio.SimpleClient.{
  SimpleClient, simple_client, on_connect, log_in, send_pkt, on_message, on_packet, cast_login_ack,
  on_login_ack, wait_until,
}

-- The packet that a client logs in with.
abbrev pub login_of : ℕ → Packet
login_of id = login_pkt id (codes "test") (codes "abc#123")

module _ (codec : Codec Packet) (t : SteadyTimer) where
  -- Called with a connection that is up, with memory for the packet, the client holds it and sends a
  -- login, and is not logged in by that.
  on_connect-sends :
      (sock : Socket) (id : ℕ) (c : Conn) (s : SimpleClient t)
      → is_connected c ≡ true
      → sock.is_open c.trace ≡ true
      → HasRoom (bytes_of codec (login_of id)) c
      → (c' : Conn) × (on_connect codec sock silent t id c s ≡ ok (record s { conn = some c' }))
        × (accepted c'.trace ≡ accepted c.trace ++ bytes_of codec (login_of id))
  unfolding on_connect log_in send_pkt Messages.send_pkt
  on_connect-sends sock id c s up o h =
      let (c', e, a) = send-takes sock (bytes_of codec (login_of id)) c o h in (c', simp (up, e), a)

  -- The acknowledgement of a login, when it fills the receive buffer, logs the client in and leaves
  -- the timer with one wait for three seconds from now.
  on_message-logs_in :
      (sock : Socket) (now id : ℕ) (c : Conn) (s : SimpleClient t)
      → IsValid c.recv_buffer
      → c.recv_buffer.rpos ≡ 0
      → readable c.recv_buffer ≡ bytes_of codec (login_ack_pkt operate_success)
      → (s' : SimpleClient t) × (on_message codec sock silent t now id c s ≡ ok s')
        × (s'.is_login ≡ true)
        × (t.waiting s'.keepalive_timer ≡ 1)
        × (t.expiry s'.keepalive_timer ≡ now + 3)
  unfolding on_message on_packet cast_login_ack on_login_ack wait_until
  on_message-logs_in sock now id c s v z e =
      let p = login_ack_pkt operate_success in
      let (d, gone) =
        first_packet_only codec (λ d. record s { conn = some d })
          (simple_client codec sock silent t now id s) c p [] v z (e ∙ sym (append-nil _)) in
      let b = t.expires_at (now + 3) s.keepalive_timer in
      (
        record s { is_login = true; conn = some (consume_all c); keepalive_timer = t.async_wait b },
        d,
        refl,
        t.waiting-async_wait b ∙ ap (λ n. n + 1) (t.waiting-expires_at (now + 3) s.keepalive_timer),
        t.expiry-async_wait b ∙ t.expiry-expires_at (now + 3) s.keepalive_timer,
      )

  -- A login, between a client whose connection `c` is up and the server at the other end `d` of it,
  -- both with an open socket and memory for what they send: the client sends a packet; when it
  -- arrives whole, the server sends an acknowledgement; when that arrives whole, on what the
  -- client's connection has become, `c₂`, the client is logged in and will be woken once, in three
  -- seconds.
  pub login_exchange :
      (here there : Socket) (id now : ℕ) (c d c₂ : Conn) (s : SimpleClient t)
      → is_connected c ≡ true
      → here.is_open c.trace ≡ true
      → HasRoom (bytes_of codec (login_of id)) c
      → IsValid d.recv_buffer
      → d.recv_buffer.rpos ≡ 0
      → readable d.recv_buffer ≡ bytes_of codec (login_of id)
      → there.is_open d.trace ≡ true
      → HasRoom (reply codec packet_login) d
      → IsValid c₂.recv_buffer
      → c₂.recv_buffer.rpos ≡ 0
      → readable c₂.recv_buffer ≡ bytes_of codec (login_ack_pkt operate_success)
      → (c₁ d₁ : Conn) × (s₁ s₂ : SimpleClient t) × (on_connect codec here silent t id c s ≡ ok s₁)
        × (s₁.conn ≡ some c₁)
        × (accepted c₁.trace ≡ accepted c.trace ++ readable d.recv_buffer)
        × (SimpleServer.on_message codec there silent d ≡ ok d₁)
        × (accepted d₁.trace ≡ accepted d.trace ++ readable c₂.recv_buffer)
        × (on_message codec here silent t now id c₂ s₁ ≡ ok s₂)
        × (s₂.is_login ≡ true)
        × (t.waiting s₂.keepalive_timer ≡ 1)
        × (t.expiry s₂.keepalive_timer ≡ now + 3)
  unfolding reply well_cast
  login_exchange here there id now c d c₂ s up o h v z e o' h' v₂ z₂ e₂ =
      let (c₁, r₁, a₁) = on_connect-sends here id c s up o h in
      let s₁ : SimpleClient t = record s { conn = some c₁ } in
      let (d₁, r₂, a₂) =
        on_message-answers codec there d (login_of id) [] v z (e ∙ sym (append-nil _)) o' h' in
      let (s₂, r₃, l, w, x) = on_message-logs_in here now id c₂ s₁ v₂ z₂ e₂ in
      (
        c₁,
        d₁,
        s₁,
        s₂,
        r₁,
        refl,
        a₁ ∙ ap (λ k. accepted c.trace ++ k) (sym e),
        r₂,
        a₂ ∙ ap (λ k. accepted d.trace ++ k) (sym e₂),
        r₃,
        l,
        w,
        x,
      )
