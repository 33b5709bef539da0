-- ===== src/Programs/Running.antt =====
-- The echo programs once they run.
use libasio.Prelude.{ℕ, ◌≤◌, ◌≡◌, refl, ◌∙◌, true, List, [], ◌∷◌, ◌++◌, some, codes, ok, arith}
use libasio.ByteBuffer.Valid.{length-default}
use libasio.EventLoop
use libasio.EventLoop.{EventLoop, IoService, begin_run, is_in_loop_thread}
use libasio.EventLoopThread.Start.{total}
use libasio.EventLoopThreadPool.{thread}
use libasio.EventLoopThreadPool.Life.{workers}
use libasio.TcpConn
use libasio.TcpConn.Types.{Conn, Endpoint, connected, call_conn}
use libasio.TcpConn.Socket.{Socket}
use libasio.TcpConn.{log, async_read, is_connected}
use libasio.TcpConn.Handlers.{on_attached_to_loop, must_notify_conn}
use libasio.TcpConn.Events.Returns.{HasRoom}
use libasio.TcpConn.Stream.{accepted}
use libasio.TcpConn.Taking.{send-takes}
use libasio.Echo.{client, on_connection}
use libasio.TcpServer
use libasio.TcpServer.{Server, accept, set_connection_callback}
use libasio.TcpServer.Control.{is_running}
use libasio.TcpServer.Serving.{start-serves}
use libasio.TcpClient
use libasio.TcpClient.{Client, Held, async_connect, connect_done, handle_conn, hold_conn, new_conn}
use libasio.Programs.{serve, echo_server, echo_client, on_connection_fn, on_message_fn}

module _ {F : Type 0} (io : IoService F) (main : ℕ) (id_text : ℕ → List ℕ) where
  -- The echo server's main function reaches its loop if each of the four workers makes at least three
  -- steps while it is awaited. Then the server is running, with all of its threads, its callbacks and
  -- one accept for the first thread.
  pub echo_server-serves :
      (rounds : List ℕ)
      → 3 ≤ total rounds
      → (l : EventLoop F) × (s : Server F) × (echo_server io main id_text rounds ≡ ok (true, l, s))
        × (is_running l s ≡ ok true)
        × (s.pool.threads ≡ workers io main id_text 4 0)
        × (s.trace ≡ accept (thread 0) ∷ [])
        × (s.conn_fn ≡ some on_connection_fn)
        × (s.msg_fn ≡ some on_message_fn)
  unfolding echo_server serve begin_run EventLoop.make TcpServer.make TcpServer.set_message_callback
      set_connection_callback
  echo_server-serves rounds h =
      let s₀ : Server F =
        TcpServer.set_message_callback (some on_message_fn) (
          set_connection_callback (some on_connection_fn)
            (TcpServer.make (codes "EchoServer") 4)) in
      let l : EventLoop F = begin_run main (EventLoop.make main) in
      let (s, e, t, w, r, c, m) = start-serves io main id_text rounds s₀ 4 l h refl refl in
      (l, s, rw e refl, r, w, t, c, m)

-- The greeting of the echo client.
abbrev pub greeting : List ℕ
greeting = codes "client say hello!"

module _ (sock : Socket) (remove_fn : ℕ) (l r : Endpoint) where
  on_connection-greets :
      (c : Conn)
      → is_connected c ≡ true
      → sock.is_open c.trace ≡ true
      → HasRoom greeting c
      → (c' : Conn) × (on_connection sock c ≡ ok c')
        × (accepted c'.trace ≡ accepted c.trace ++ greeting)
  unfolding on_connection
  on_connection-greets c up o h =
      let (c', e, a) = send-takes sock greeting c o h in (c', simp up e, a)

  -- The echo client's main function runs its loop in its own thread, with one attempt to connect to
  -- the server's port running. When the attempt succeeds, with an open socket that tells its ends, the
  -- client holds the connection and its greeting is what that connection took to send; it will
  -- reconnect.
  pub echo_client-greets :
      (F : Type 0) (main : ℕ)
      → sock.is_open [] ≡ true
      → let t = (echo_client {F = F} main).1 in
        let loop = (echo_client {F = F} main).0 in
        (t' : Client) × (h : Held) × (EventLoop.is_running loop ≡ true)
        × (is_in_loop_thread main loop ≡ true)
        × (t.trace ≡ async_connect (codes "127.0.0.1") 7788 ∷ [])
        × (connect_done sock (client sock) remove_fn (some (l, r)) t ≡ ok t')
        × (t'.conn ≡ some h)
        × (accepted h.conn.trace ≡ greeting)
        × (t'.auto_reconnect ≡ true)
  unfolding echo_client begin_run EventLoop.make EventLoop.is_running is_in_loop_thread connect_done
      handle_conn hold_conn on_attached_to_loop must_notify_conn client
      TcpClient.set_message_callback TcpClient.set_conn_callback TcpClient.set_auto_reconnect
      TcpClient.connect TcpClient.make is_connected new_conn TcpConn.make TcpConn.construct
      TcpConn.set_close_callback TcpConn.set_conn_callback TcpConn.set_message_callback
      TcpConn.set_type async_read
  echo_client-greets F main o =
      let t = (echo_client {F = F} main).1 in
      let c : Conn = record (new_conn sock (client sock) remove_fn t (TcpConn.make t.name l r [])) {
        status = connected;
      } in
      let room : HasRoom greeting c =
        (omega (arith, length-default), omega (arith, length-default)) in
      let (c', e, a) =
        on_connection-greets (log (call_conn connected) c) refl
          (sock.is_open-other (call_conn connected) [] refl ∙ o) room in
      let h : Held = record { id = 0; conn = async_read c' } in
      (
        record t { reconnecting_times = 0; conn = some h; next_id = 1 },
        h,
        refl,
        ground arith,
        refl,
        simp (o, e),
        refl,
        a,
        refl,
      )
