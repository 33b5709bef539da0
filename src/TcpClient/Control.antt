-- ===== src/TcpClient/Control.antt =====
-- The rest of `TCPClient` (src/tcp_client.h, src/tcp_client.cc): its accessors, `Disconnect` from any
-- thread, and its destructor.
use libasio.Prelude.{
  false, ◌≡◌, refl, ℕ, Bool, ◌||◌, List, Option, none, some, leb, if◌then◌else◌, Result, ok, assert,
  ◌>>=◌, ◌>>◌,
}
use libasio.EventLoop.Interface.{LoopInterface}
use libasio.TcpConn.{is_disconnected, is_disconnecting, set_close_callback}
use libasio.TcpClient.{Client, Held, disconnect_in_loop}

unfoldable pub get_auto_reconnect : Client → Bool
get_auto_reconnect t = t.auto_reconnect

unfoldable pub get_reconnect_interval : Client → ℕ
get_reconnect_interval t = t.reconnect_interval

unfoldable pub remote_address : Client → List ℕ
remote_address t = t.remote_addr

unfoldable pub remote_port : Client → ℕ
remote_port t = t.remote_port

unfoldable pub get_name : Client → List ℕ
get_name t = t.name

-- `GetTCPConn`: another thread than the loop's takes the lock first.
unfoldable pub get_tcp_conn : Client → Option Held
get_tcp_conn t = t.conn

-- `Disconnect`: in the loop's thread at once, elsewhere `disconnect_fn` is left to the loop.
module _ {G L : Type 0} (loop : LoopInterface G L) (caller : ℕ) (disconnect_fn : G) where
  unfoldable pub run_disconnect : Option G × L → Client → Result (L × Client)
  run_disconnect (none, l) t = ok (l, t)
  run_disconnect (some f, l) t = do t' ← disconnect_in_loop t; ok (l, t')

  unfoldable pub disconnect : L → Client → Result (L × Client)
  disconnect l t = run_disconnect (loop.run_in_loop caller disconnect_fn l) t

  -- From another thread the client is as it was, and the task is queued.
  pub disconnect-elsewhere :
      (l : L) (t : Client)
      → loop.is_in_loop_thread caller l ≡ false
      → disconnect l t ≡ ok (loop.queue_in_loop disconnect_fn l, t)
  unfolding disconnect run_disconnect
  disconnect-elsewhere l t h = rw (loop.run_in_loop-elsewhere caller disconnect_fn l h) refl

-- The part of the destructor for the connection that the client holds, to which `use_count` pointers
-- refer. It is what the connection, which lives on, becomes.
unfoldable pub release : (use_count : ℕ) → Held → Result Held
release n h = do
  assert (is_disconnected h.conn || is_disconnecting h.conn)
  if is_disconnecting h.conn
      then assert (leb 3 n) >> ok (record h { conn = set_close_callback none h.conn })
      else ok h

unfoldable pub release_held : (use_count : ℕ) → Option Held → Result (Option Held)
release_held n none = ok none
release_held n (some h) = do k ← release n h; ok (some k)

-- The destructor: the connection that it lets go, if it held one. The rest of the client is gone.
unfoldable pub destroy : (use_count : ℕ) → Client → Result (Option Held)
destroy n t = release_held n t.conn
