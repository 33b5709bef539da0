-- ===== src/TcpConn/Handlers.antt =====
-- The operations of `TCPConn` that ask the socket whether it is open or call the application back
-- (src/tcp_conn.cc): sending, closing, and the completion handlers of reads and writes.
use libasio.Prelude.{
  ℕ, Bool, true, false, List, Option, none, some, ltb, if◌then◌else◌, add_word, Result, ok, fault,
  bad_function_call, assert, ◌>>=◌, ◌>>◌, ◌&&◌, not,
}
use libasio.ByteBuffer.{size, at_read_begin, read_bytes, write_bytes}
use libasio.TcpConn.Types.{
  disconnected, connected, disconnecting, ErrorCode, success, eof, other, call_conn, call_message,
  call_high_water, call_close, close_socket, post_send, took, wrote, Conn, Callbacks,
}
use libasio.TcpConn.Socket.{Socket}
use libasio.TcpConn.{status_eq, log, store, async_read, async_write, swap_buffers}
use libasio.Prelude.{take}

-- `HandleWrite` after a write that succeeded: what is left is written, then what came meanwhile.
unfoldable pub write_on : Conn → Conn
write_on c =
    if ltb 0 (size c.writing_buffer)
    then async_write c
    else if ltb 0 (size c.write_buffer)
    then async_write (swap_buffers c)
    else c

unfoldable pub written : (trans_bytes : ℕ) → Conn → Conn
written trans_bytes c =
    log (wrote (take trans_bytes (at_read_begin c.writing_buffer)))
      (record c { async_writing = false; writing_buffer = read_bytes trans_bytes c.writing_buffer })

module _ (sock : Socket) (app : Callbacks) where
  -- `Update`
  unfoldable pub update : Conn → Bool
  update c = sock.is_open c.trace

  -- The destructor's assertions.
  unfoldable pub can_destroy : Conn → Bool
  can_destroy c = status_eq c.status disconnected && not (sock.is_open c.trace)

  -- `if (conn_fn_) conn_fn_(conn)` and its kin.
  unfoldable pub notify_conn : Option ℕ → Conn → Result Conn
  notify_conn none c = ok c
  notify_conn (some f) c = app.on_conn f (log (call_conn c.status) c)

  unfoldable pub notify_close : Option ℕ → Conn → Result Conn
  notify_close none c = ok c
  notify_close (some f) c = app.on_close f (log (call_close c.status) c)

  unfoldable pub notify_high_water : Option ℕ → ℕ → Conn → Result Conn
  notify_high_water none n c = ok c
  notify_high_water (some f) n c = app.on_high_water_mark f n (log (call_high_water n) c)

  -- `conn_fn_(…)` and `msg_fn_(…)` with no test: an empty one throws.
  unfoldable pub must_notify_conn : Option ℕ → Conn → Result Conn
  must_notify_conn none c = fault bad_function_call
  must_notify_conn (some f) c = app.on_conn f (log (call_conn c.status) c)

  unfoldable pub must_notify_message : Option ℕ → Conn → Result Conn
  must_notify_message none c = fault bad_function_call
  must_notify_message (some f) c =
      app.on_message f (log (call_message (at_read_begin c.recv_buffer)) c)

  -- `OnAttachedToLoop`
  unfoldable pub on_attached_to_loop : (in_loop : Bool) → Conn → Result Conn
  on_attached_to_loop in_loop c = do
    assert in_loop
    c' ← must_notify_conn c.conn_fn (record c { status = connected })
    ok (async_read c')

  unfoldable pub close_if_open : Conn → Conn
  close_if_open c = if sock.is_open c.trace then log close_socket c else c

  -- `HandleClose` past its early return.
  unfoldable pub close_and_notify : Conn → Result Conn
  unfolding close_if_open
  close_and_notify c = do
    let c₁ = record (close_if_open c) { status = disconnecting }
    c₂ ← notify_conn c₁.conn_fn c₁
    c₃ ← notify_close c₂.close_fn c₂
    ok (record c₃ { status = disconnected })

  -- `HandleClose`
  unfoldable pub handle_close : (in_loop : Bool) → Conn → Result Conn
  handle_close in_loop c = do
    assert in_loop
    if status_eq c.status disconnected then ok c else close_and_notify c

  -- `HandleError`
  unfoldable pub handle_error : (in_loop : Bool) → Conn → Result Conn
  unfolding handle_close
  handle_error in_loop c = handle_close in_loop (record c { status = disconnecting })

  -- `SendInLoop` when no write is running.
  unfoldable pub send_idle : List ℕ → Conn → Result Conn
  send_idle bytes c = do
    let c₁ = if ltb 0 (size c.write_buffer) then swap_buffers c else c
    b ← store bytes c₁.writing_buffer
    ok (async_write (log (took bytes) (record c₁ { writing_buffer = b })))

  -- `SendInLoop` while a write is running.
  unfoldable pub send_busy : List ℕ → Conn → Result Conn
  send_busy bytes c = do
    b ← store bytes c.write_buffer
    let c₁ = log (took bytes) (record c { write_buffer = b })
    let buffered = add_word (size c₁.write_buffer) (size c₁.writing_buffer)
    if ltb c₁.high_water_mark buffered
        then notify_high_water c₁.high_water_mark_fn buffered c₁
        else ok c₁

  -- `SendInLoop`
  unfoldable pub send_in_loop : (in_loop : Bool) → List ℕ → Conn → Result Conn
  send_in_loop in_loop bytes c = do
    assert in_loop
    if sock.is_open c.trace
        then if c.async_writing then send_busy bytes c else send_idle bytes c
        else ok c

  -- `Send`, both overloads: from another thread the loop is given a copy to send.
  unfoldable pub send : (in_loop : Bool) → List ℕ → Conn → Result Conn
  send in_loop bytes c =
      if in_loop then send_in_loop in_loop bytes c else ok (log (post_send bytes) c)

  -- `HandleRead`
  unfoldable pub handle_read : ErrorCode → (trans_bytes : ℕ) → Conn → Result Conn
  handle_read success trans_bytes c = do
    let c₁ = record c { recv_buffer = write_bytes trans_bytes c.recv_buffer }
    c₂ ← must_notify_message c₁.msg_fn c₁
    ok (async_read c₂)
  handle_read eof trans_bytes c = handle_close true (record c { status = disconnecting })
  handle_read (other e) trans_bytes c = handle_error true c

  -- `HandleWrite`
  unfoldable pub handle_write : ErrorCode → (trans_bytes : ℕ) → Conn → Result Conn
  handle_write success trans_bytes c = ok (write_on (written trans_bytes c))
  handle_write eof trans_bytes c = handle_error true (record c { async_writing = false })
  handle_write (other e) trans_bytes c = handle_error true (record c { async_writing = false })
