-- ===== src/TcpClient/Notices.antt =====
-- The notices that a client's connection is gone, and asking it to disconnect.
use libasio.Prelude.{
  ℕ, ◌+◌, ◌<◌, ◌≡◌, refl, true, false, ◌==◌, [], ◌∷◌, none, some, ok, fault, assertion_failed,
  arith,
}
use libasio.TcpConn.Types.{Conn, Callbacks, Endpoint}
use libasio.TcpConn.Socket.{Socket}
use libasio.TcpConn
use libasio.TcpConn.{is_disconnected, is_disconnecting}
use libasio.TcpClient.{
  Client, Held, async_connect, on_remove_conn, on_remove_held, disconnect_in_loop, close_held,
  connect_done, reconnect, connect,
}
use libasio.TcpClient.Attach.{handle_conn-holds}

-- A client that was asked to disconnect holds its connection until the close callback, and may not
-- be asked again before: the second call fails its assertion.
pub disconnect_twice :
    (t : Client) (h : Held)
    → t.conn ≡ some h
    → is_disconnected h.conn ≡ false
    → is_disconnecting h.conn ≡ false
    → (t' : Client) × (disconnect_in_loop t ≡ ok t')
      × (t'.auto_reconnect ≡ false)
      × (disconnect_in_loop t' ≡ fault assertion_failed)
unfolding disconnect_in_loop close_held TcpConn.close is_disconnected is_disconnecting
disconnect_twice t h e d c =
    let closed : Held = record h { conn = TcpConn.close h.conn } in
    (record t { auto_reconnect = false; conn = some closed }, simp (e, d, c), refl, refl)

-- The notice of the connection that is held removes it, and a client that reconnects tries at once.
on_remove_conn-held :
    (t : Client) (h : Held)
    → t.conn ≡ some h
    → t.auto_reconnect ≡ true
    → on_remove_conn h.id t ≡ ok (reconnect (record t { conn = none }))
unfolding on_remove_conn on_remove_held
on_remove_conn-held t h e a = let z : (h.id == h.id) ≡ true = ground arith in simp (e, z, a)

-- A notice for another connection than the one that is held.
on_remove_conn-other :
    (t : Client) (h : Held) (id : ℕ)
    → t.conn ≡ some h
    → id < h.id
    → on_remove_conn id t ≡ fault assertion_failed
unfolding on_remove_conn on_remove_held
on_remove_conn-other t h id e l = let z : (id == h.id) ≡ false = ground arith in simp (e, z)

module _ (sock : Socket) (app : Callbacks) (remove_fn : ℕ) (l r : Endpoint) where
  -- A connection whose close callback runs twice ends a client that reconnects: the first notice
  -- removes the connection and the client connects again; when that succeeds, with an open socket that
  -- tells its ends and a connection callback that returns, and it holds the new connection, numbered
  -- after the old one and with the count of attempts reset, the second notice of the old one fails
  -- the assertion of `OnRemoveConn`.
  pub notice-repeated :
      (t : Client) (h : Held) (f : ℕ)
      → t.conn ≡ some h
      → h.id < t.next_id
      → t.auto_reconnect ≡ true
      → t.conn_fn ≡ some f
      → sock.is_open [] ≡ true
      → ((c : Conn) → (c' : Conn) × (app.on_conn f c ≡ ok c'))
      → (t₁ t₂ : Client) × (on_remove_conn h.id t ≡ ok t₁)
        × (t₁.trace ≡ async_connect t.remote_addr t.remote_port ∷ t.trace)
        × (connect_done sock app remove_fn (some (l, r)) t₁ ≡ ok t₂)
        × (t₂.reconnecting_times ≡ 0)
        × (on_remove_conn h.id t₂ ≡ fault assertion_failed)
  unfolding connect_done reconnect connect
  notice-repeated t h f e n a cf o returns =
      let t₁ : Client = reconnect (record t { conn = none }) in
      let (c, d) =
        handle_conn-holds sock app remove_fn l r (record t₁ { reconnecting_times = 0 }) f cf o
          returns in
      let held : Held = record { id = t.next_id; conn = c } in
      let t₂ : Client = record t₁ {
        reconnecting_times = 0;
        conn = some held;
        next_id = t.next_id + 1;
      } in
      (t₁, t₂, on_remove_conn-held t h e a, refl, d, refl, on_remove_conn-other t₂ held h.id refl n)
