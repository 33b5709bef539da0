-- ===== src/Echo/Answers.antt =====
-- What the echo server (examples/tcp_echo/server/server.cc) says over the life of a connection.
use libasio.Prelude.{
  ℕ, suc, zero, ◌≡◌, refl, sym, ◌∙◌, false, Bool-cases, inl, inr, List, [], ◌++◌, Option, none,
  some, codes, ok, ok-injective, returned,
}
use libasio.ByteBuffer.{at_read_begin}
use libasio.TcpConn
use libasio.TcpConn.Types.{call_message, success, Endpoint, Conn}
use libasio.TcpConn.Socket.{Socket}
use libasio.TcpConn.{log, async_read, close}
use libasio.TcpConn.Handlers.{must_notify_message, handle_read, send, send_in_loop}
use libasio.TcpConn.Stream.{accepted}
use libasio.TcpConn.Taking.{asked, send-Took}
use libasio.TcpConn.Quiet.{Quiet, same, QuietApp, accepted-Quiet, asked-Quiet, step-Quiet}
use libasio.TcpConn.Events.{
  is_send, Event, sent, send_task, read_done, step, filled, Runs, here, next,
}
use libasio.Echo.{server, on_message, consume_all}

-- The same bytes, so many times.
abbrev pub repeated : ℕ → List ℕ → List ℕ
repeated zero d = []
repeated (suc n) d = repeated n d ++ d

module _ (sock : Socket) where
  server-QuietApp : QuietApp (server sock)
  unfolding server
  server-QuietApp = record {
    conn = λ f {c} {c'} e. rw (← ok-injective e) same;
    high_water = λ f n {c} {c'} e. rw (← ok-injective e) same;
    close = λ f {c} {c'} e. rw (← ok-injective e) same;
  }

  -- What was taken to send is an answer for each message that was shown on an open socket.
  Answering : Conn → Type 0
  Answering c = accepted c.trace ≡ repeated (asked sock c.trace) (codes "server say hello!")

  Quiet-Answering : (c c' : Conn) → Quiet c.trace c'.trace → Answering c → Answering c'
  unfolding Answering
  Quiet-Answering c c' q a = rw (accepted-Quiet q, asked-Quiet sock q) a

  -- A message is answered if the socket is open, and otherwise dropped.
  must_notify-Answering :
      (f : Option ℕ) (c : Conn) {c' : Conn}
      → must_notify_message sock (server sock) f c ≡ ok c'
      → Answering c
      → Answering c'
  unfolding Answering must_notify_message server on_message send send_in_loop consume_all
  must_notify-Answering none c e a = cc
  must_notify-Answering (some f) c e a =
      let shown : Conn = log (call_message (at_read_begin c.recv_buffer)) c in
      let same = sock.is_open-other (call_message (at_read_begin c.recv_buffer)) c.trace refl in
      elim (Bool-cases (sock.is_open c.trace)) [
        | inl o ↦
            let t = send-Took sock (codes "server say hello!") (consume_all shown) (same ∙ o) e in
            t.takes ∙ sym (rw (t.unasked, o) (rw a refl))
        | inr shut ↦ let q = ok-injective (simp (same ∙ shut) at e) in rw (← q) (rw shut a)
      ]

  -- Any event but a call of `Send` from outside keeps that.
  step-Answering :
      (e : Event) (c : Conn) {c' : Conn}
      → is_send e ≡ false
      → step sock (server sock) e c ≡ ok c'
      → Answering c
      → Answering c'
  unfolding Answering step handle_read filled async_read
  step-Answering (sent in_loop d) c s e a = cc
  step-Answering (send_task d) c s e a = cc
  step-Answering (read_done success d) c s e a =
      let (c₂, e₂, r) =
        returned (must_notify_message sock (server sock) (filled d c).msg_fn _) _ e in
      rw (← ok-injective r) (must_notify-Answering c.msg_fn _ e₂ a)
  step-Answering x c {c'} s e a =
      Quiet-Answering c c' (step-Quiet sock (server sock) server-QuietApp x c refl e) a

  -- No call of `Send` from outside, in a run.
  abbrev pub Unprompted : {c c' : Conn} → Runs sock (server sock) c c' → Type 0
  Unprompted here = Unit {0}
  Unprompted (next e r a s) = (is_send e ≡ false) × Unprompted r

  Runs-Answering :
      {c c' : Conn} (run : Runs sock (server sock) c c')
      → Unprompted run
      → Answering c
      → Answering c'
  Runs-Answering here u a = a
  Runs-Answering (next e r k s) u a = step-Answering e _ u.0 s (Runs-Answering r u.1 a)

  -- After any sequence of events on a new connection of the echo server, none of them a call of `Send`
  -- from outside the callbacks, what the connection took to send is one answer for each message
  -- that was shown while the socket was open.
  pub answers_each :
      (name : List ℕ) (l r : Endpoint) {c : Conn}
      → (run : Runs sock (server sock) (TcpConn.make name l r []) c) → Unprompted run
      → accepted c.trace ≡ repeated (asked sock c.trace) (codes "server say hello!")
  unfolding Answering TcpConn.make
  answers_each name l r run u = Runs-Answering run u refl
