-- ===== src/TcpClient/Release.antt =====
-- Destroying a client while its connection closes.
use libasio.Prelude.{
  ℕ, ◌≤◌, ◌≡◌, refl, true, false, ◌||◌, none, some, leb, Bool-cases, inl, inr, ok, ok-injective,
  fault, assertion_failed, arith,
}
use libasio.TcpConn.Types.{Conn, Callbacks, disconnected}
use libasio.TcpConn.Socket.{Socket}
use libasio.TcpConn.{is_disconnected, is_disconnecting, status_eq, set_close_callback}
use libasio.TcpConn.Handlers.{handle_close}
use libasio.TcpConn.Closing.{Quiet, close_calls, close_calls-close_and_notify-none}
use libasio.TcpConn.Events.Returns.{Returning, handle_close-returns}
use libasio.TcpClient.{Client, Held}
use libasio.TcpClient.Control.{release, release_held, destroy}

-- Destroying a client whose connection is neither closed nor closing fails an assertion.
pub destroy-connected :
    (n : ℕ) (t : Client) (h : Held)
    → t.conn ≡ some h
    → is_disconnected h.conn ≡ false
    → is_disconnecting h.conn ≡ false
    → destroy n t ≡ fault assertion_failed
unfolding destroy release release_held
destroy-connected n t h e d c = simp (e, d, c)

module _ (sock : Socket) (app : Callbacks) where
  handle_close-silent :
      (c c' : Conn)
      → Quiet app
      → c.close_fn ≡ none
      → handle_close sock app true c ≡ ok c'
      → close_calls c'.trace ≡ close_calls c.trace
  unfolding handle_close
  handle_close-silent c c' q f e = elim (Bool-cases (status_eq c.status disconnected)) [
    | inl down ↦ let w = ok-injective (rw down at e) in rw (← w) refl
    | inr up ↦ close_calls-close_and_notify-none sock app c q f (rw up at e)
  ]

  -- Destroying a client while its connection is closing, with the three pointers to it that the
  -- destructor expects, lets the connection go without its close callback: closing it then returns
  -- and does not call the client that is gone, if the application's callbacks return and leave the
  -- close callback alone.
  pub destroy-disconnecting :
      (n : ℕ) (t : Client) (h : Held)
      → Returning app
      → Quiet app
      → t.conn ≡ some h
      → is_disconnecting h.conn ≡ true
      → 3 ≤ n
      → (k : Held) × (c : Conn) × (destroy n t ≡ ok (some k))
        × (handle_close sock app true k.conn ≡ ok c)
        × (close_calls c.trace ≡ close_calls h.conn.trace)
  unfolding destroy release release_held set_close_callback
  destroy-disconnecting n t h r q e d m =
      let l : leb 3 n ≡ true = ground arith in
      let o : (is_disconnected h.conn || true) ≡ true = ground arith in
      let k : Held = record h { conn = set_close_callback none h.conn } in
      let (c, y) = handle_close-returns sock app r k.conn in
      (k, c, simp (e, d, o, l), y, handle_close-silent k.conn c q refl y)
