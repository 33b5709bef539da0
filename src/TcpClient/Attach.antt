-- ===== src/TcpClient/Attach.antt =====
-- A connected socket becomes the connection that the client holds.
use libasio.Prelude.{ℕ, ◌+◌, ◌≡◌, ap, ◌∙◌, true, [], some, ok, ◌>>=◌}
use libasio.TcpConn.Types.{Conn, Callbacks, Endpoint, connected, call_conn}
use libasio.TcpConn.Socket.{Socket}
use libasio.TcpConn
use libasio.TcpConn.{async_read, log}
use libasio.TcpConn.Handlers.{on_attached_to_loop, must_notify_conn}
use libasio.TcpClient.{Client, handle_conn, hold_conn, new_conn}

module _ (sock : Socket) (app : Callbacks) (remove_fn : ℕ) (l r : Endpoint) where
  on_attached-returns :
      (c : Conn) (f : ℕ)
      → c.conn_fn ≡ some f
      → ((c : Conn) → (c' : Conn) × (app.on_conn f c ≡ ok c'))
      → (c' : Conn) × (on_attached_to_loop sock app true c ≡ ok c')
  unfolding on_attached_to_loop must_notify_conn
  on_attached-returns c f e returns =
      let up : Conn = record c { status = connected } in
      let (c', h) = returns (log (call_conn connected) up) in
      let n : must_notify_conn sock app c.conn_fn up ≡ ok c' =
        ap (λ k. must_notify_conn sock app k up) e ∙ h in
      (async_read c', ap (λ m. m >>= (λ d. ok (async_read d))) n)

  pub handle_conn-holds :
      (t : Client) (f : ℕ)
      → t.conn_fn ≡ some f
      → sock.is_open [] ≡ true
      → ((c : Conn) → (c' : Conn) × (app.on_conn f c ≡ ok c'))
      → (c : Conn) × (handle_conn sock app remove_fn (some (l, r)) t
          ≡ ok (record t {
            conn = some (record { id = t.next_id; conn = c });
            next_id = t.next_id + 1;
          }))
  unfolding handle_conn hold_conn new_conn TcpConn.construct
  handle_conn-holds t f e o returns =
      let (c, h) =
        on_attached-returns (new_conn sock app remove_fn t (TcpConn.make t.name l r [])) f
          (unfold TcpConn.set_conn_callback TcpConn.set_close_callback in e) returns in
      (c, simp (o, h))
