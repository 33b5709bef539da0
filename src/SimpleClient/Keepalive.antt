-- ===== src/SimpleClient/Keepalive.antt =====
-- How often a client that is logged in sends keepalives.
use libasio.Prelude.{
  subst, ℕ, zero, suc, ◌+◌, ◌*◌, ◌≡◌, refl, sym, ap, ◌∙◌, true, List, [], ◌++◌, append_assoc,
  append-nil, some, Result, ok, ok-injective, returned, ◌>>=◌, arith,
}
use libasio.TcpConn.Types.{Conn}
use libasio.TcpConn.Socket.{Socket}
use libasio.TcpConn.Events.Returns.{HasRoom}
use libasio.TcpConn.Handlers.{send}
use libasio.TcpConn.Stream.{accepted}
use libasio.TcpConn.Taking.{send-Took, send-takes}
use libasio.Echo.{silent}
use libasio.Messages
use libasio.Messages.{Codec, bytes_of}
use libasio.Packets.{Packet, keepalive_pkt}
use libasio.SimpleClient.Timer.{SteadyTimer}
use libasio.SimpleClient.{SimpleClient, do_keepalive, run_due, send_pkt, on_login_ack, wait_until}

module _ (codec : Codec Packet) (sock : Socket) (t : SteadyTimer) where
  -- The timer after a handler of it ran and waits again.
  pub again : t.Timer → t.Timer
  again k = t.async_wait (t.expires_at (t.expiry (t.run_handler k) + 3) (t.run_handler k))

  waiting-again : (k : t.Timer) → t.waiting (again k) ≡ 1
  unfolding again
  waiting-again k =
      t.waiting-async_wait _ ∙ ap (λ n. n + 1) (t.waiting-expires_at _ (t.run_handler k))

  due-again : (k : t.Timer) (n m : ℕ) → t.due k ≡ suc n → t.waiting k ≡ m → t.due (again k) ≡ n + m
  unfolding again
  due-again k n m d w =
      t.due-async_wait _
      ∙ omega (
        arith,
        t.due-expires_at (t.expiry (t.run_handler k) + 3) (t.run_handler k),
        t.due-run_handler k,
        t.waiting-run_handler k,
        d,
        w,
      )

  expiry-again : (k : t.Timer) → t.expiry (again k) ≡ t.expiry k + 3
  unfolding again
  expiry-again k =
      t.expiry-async_wait _
      ∙ t.expiry-expires_at _ (t.run_handler k)
      ∙ ap (λ n. n + 3) (t.expiry-run_handler k)

  -- A timer that has expired wakes the client once: with memory for the packet it sends exactly one
  -- keepalive, is not woken again before the timer expires, and that is three seconds later.
  run_due-once :
      (s : SimpleClient t) (c : Conn)
      → s.is_login ≡ true
      → s.conn ≡ some c
      → sock.is_open c.trace ≡ true
      → HasRoom (bytes_of codec keepalive_pkt) c
      → t.due s.keepalive_timer ≡ 0
      → t.waiting s.keepalive_timer ≡ 1
      → (s' : SimpleClient t) × (c' : Conn) × (run_due codec sock silent t
            (record s { keepalive_timer = t.expire s.keepalive_timer })
          ≡ ok s')
        × (s'.conn ≡ some c')
        × (accepted c'.trace ≡ accepted c.trace ++ bytes_of codec keepalive_pkt)
        × (t.due s'.keepalive_timer ≡ 0)
        × (t.waiting s'.keepalive_timer ≡ 1)
        × (t.expiry s'.keepalive_timer ≡ t.expiry s.keepalive_timer + 3)
  unfolding run_due do_keepalive send_pkt Messages.send_pkt wait_until again
  run_due-once s c l e o h d w =
      let k = t.expire s.keepalive_timer in
      let (c', r, a) = send-takes sock (bytes_of codec keepalive_pkt) c o h in
      (
        record s { conn = some c'; keepalive_timer = again k },
        c',
        simp (l, e, r),
        refl,
        a,
        due-again k 0 0 (omega (arith, t.due-expire s.keepalive_timer, d, w))
            (t.waiting-expire s.keepalive_timer),
        waiting-again k,
        expiry-again k ∙ ap (λ n. n + 3) (t.expiry-expire s.keepalive_timer),
      )

  -- So many handlers in a row that are due.
  unfoldable pub run_dues : ℕ → SimpleClient t → Result (SimpleClient t)
  run_dues zero s = ok s
  run_dues (suc n) s = do s' ← run_due codec sock silent t s; run_dues n s'

  -- `n` keepalives.
  unfoldable pub keepalives : ℕ → List ℕ
  keepalives zero = []
  keepalives (suc n) = bytes_of codec keepalive_pkt ++ keepalives n

  -- A client that is logged in and that one wait will wake, while another one already does.
  pub record IsFlooding (sent : List ℕ) (s : SimpleClient t) : Type 0 where
    pub conn : Conn
    pub holds : s.conn ≡ some conn
    pub logged_in : s.is_login ≡ true
    pub is_open : sock.is_open conn.trace ≡ true
    pub sends : accepted conn.trace ≡ sent
    pub one_due : t.due s.keepalive_timer ≡ 1
    pub one_waits : t.waiting s.keepalive_timer ≡ 1

  run_due-IsFlooding :
      (s s' : SimpleClient t) {sent : List ℕ}
      → IsFlooding sent s
      → run_due codec sock silent t s ≡ ok s'
      → IsFlooding (sent ++ bytes_of codec keepalive_pkt) s'
        × (t.expiry s'.keepalive_timer ≡ t.expiry s.keepalive_timer + 3)
  unfolding run_due do_keepalive send_pkt Messages.send_pkt wait_until again
  run_due-IsFlooding s s' f r =
      let k = s.keepalive_timer in
      let d = bytes_of codec keepalive_pkt in
      let (p, e, q) =
        returned
          (send_pkt codec sock silent t keepalive_pkt
            (record { is_login = true; conn = some f.conn; keepalive_timer = again k }))
          (λ p. ok p.1) (simp (f.logged_in, f.holds) at r) in
      let (c', e', q') = returned (send sock silent true d f.conn) _ e in
      let took = send-Took sock d f.conn f.is_open e' in
      let u : SimpleClient t = record {
        is_login = true;
        conn = some c';
        keepalive_timer = again k;
      } in
      let same : u ≡ s' = ap (λ x. x.1) (ok-injective q') ∙ ok-injective q in
      rw (← same) (
        record {
          conn = c';
          holds = refl;
          logged_in = refl;
          is_open = took.still_open;
          sends = took.takes ∙ ap (λ x. x ++ d) f.sends;
          one_due = due-again k 0 1 f.one_due f.one_waits;
          one_waits = waiting-again k;
        },
        expiry-again k,
      )

  run_dues-IsFlooding :
      (n : ℕ) (s s' : SimpleClient t) {sent : List ℕ}
      → IsFlooding sent s
      → run_dues n s ≡ ok s'
      → IsFlooding (sent ++ keepalives n) s'
        × (t.expiry s'.keepalive_timer ≡ t.expiry s.keepalive_timer + n * 3)
  unfolding run_dues keepalives
  run_dues-IsFlooding zero s s' {sent} f r =
      let q = ok-injective r in
      rw (← q) (subst (λ x. IsFlooding x s) (sym (append-nil sent)) f, omega arith)
  run_dues-IsFlooding (suc n) s s' {sent} f r =
      let d = bytes_of codec keepalive_pkt in
      let (u, e, q) = returned (run_due codec sock silent t s) _ r in
      let (g, x) = run_due-IsFlooding s u f e in
      let (h, y) = run_dues-IsFlooding n u s' g q in
      (subst (λ z. IsFlooding z s') (append_assoc sent d (keepalives n)) h, omega (arith, x, y))

  -- Logging in again while a wait is pending, as after a reconnect within three seconds: that wait is
  -- cancelled and its handler runs at once, which cancels the wait of the login, and so on. Without
  -- any passing of time, after any number of handlers that ran, each of which sent a keepalive, one
  -- more is due.
  pub login_again-floods :
      (n now : ℕ) (s s' : SimpleClient t) (c : Conn)
      → s.conn ≡ some c
      → sock.is_open c.trace ≡ true
      → t.due s.keepalive_timer ≡ 0
      → t.waiting s.keepalive_timer ≡ 1
      → run_dues n (on_login_ack codec sock silent t now 0 s) ≡ ok s'
      → IsFlooding (accepted c.trace ++ keepalives n) s'
        × (t.expiry s'.keepalive_timer ≡ now + 3 + n * 3)
  unfolding on_login_ack wait_until
  login_again-floods n now s s' c h o d w r =
      let k = s.keepalive_timer in
      let b = t.expires_at (now + 3) k in
      let f : IsFlooding (accepted c.trace) (on_login_ack codec sock silent t now 0 s) = record {
        conn = c;
        holds = h;
        logged_in = refl;
        is_open = o;
        sends = refl;
        one_due = t.due-async_wait b ∙ omega (arith, t.due-expires_at (now + 3) k, d, w);
        one_waits = t.waiting-async_wait b ∙ ap (λ m. m + 1) (t.waiting-expires_at (now + 3) k);
      } in
      let (g, x) = run_dues-IsFlooding n _ s' f r in
      (g, omega (arith, x, t.expiry-async_wait b, t.expiry-expires_at (now + 3) k))
