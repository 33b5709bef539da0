-- ===== src/TcpConn/Stream/Close.antt =====
-- The other operations keep the stream in order too: attaching, reading, closing and errors.
use libasio.Prelude.{
  ◌≢◌, ◌≤◌, false, ℕ, ◌≡◌, refl, true, Bool-cases, Option, none, some, inl, inr, ok, ok-injective,
  returned,
}
use libasio.ByteBuffer.{valid_size}
use libasio.ByteBuffer.Valid.{write_bytes-IsValid}
use libasio.TcpConn.Types.{
  ErrorCode, success, eof, other, Conn, Callbacks, disconnected, connected, disconnecting,
  call_conn, call_message, call_close, close_socket, read_some,
}
use libasio.TcpConn.Socket.{Socket}
use libasio.TcpConn.{status_eq, async_read}
use libasio.TcpConn.Handlers.{
  handle_error, handle_read, handle_write, notify_conn, notify_close, must_notify_conn,
  must_notify_message, on_attached_to_loop, close_if_open, close_and_notify, handle_close,
}
use libasio.TcpConn.Stream.{Inv, Keeps, log-Inv, status-Inv, recv-Inv}

module _ (sock : Socket) (app : Callbacks) where
  notify_conn-Inv :
      (f : Option ℕ) {c c' : Conn}
      → Keeps app (Inv sock)
      → notify_conn sock app f c ≡ ok c'
      → Inv sock c
      → Inv sock c'
  unfolding notify_conn
  notify_conn-Inv none k e v = let q = ok-injective e in rw (← q) v
  notify_conn-Inv (some f) {c} k e v = k.conn f e (log-Inv sock (call_conn c.status) refl v)

  notify_close-Inv :
      (f : Option ℕ) {c c' : Conn}
      → Keeps app (Inv sock)
      → notify_close sock app f c ≡ ok c'
      → Inv sock c
      → Inv sock c'
  unfolding notify_close
  notify_close-Inv none k e v = let q = ok-injective e in rw (← q) v
  notify_close-Inv (some f) {c} k e v = k.close f e (log-Inv sock (call_close c.status) refl v)

  must_notify_conn-Inv :
      (f : Option ℕ) {c c' : Conn}
      → Keeps app (Inv sock)
      → must_notify_conn sock app f c ≡ ok c'
      → Inv sock c
      → Inv sock c'
  unfolding must_notify_conn
  must_notify_conn-Inv none k e v = cc
  must_notify_conn-Inv (some f) {c} k e v = k.conn f e (log-Inv sock (call_conn c.status) refl v)

  must_notify_message-Inv :
      (f : Option ℕ) {c c' : Conn}
      → Keeps app (Inv sock)
      → must_notify_message sock app f c ≡ ok c'
      → Inv sock c
      → Inv sock c'
  unfolding must_notify_message
  must_notify_message-Inv none k e v = cc
  must_notify_message-Inv (some f) {c} k e v = k.message f e (log-Inv sock (call_message _) refl v)

  -- `OnAttachedToLoop`
  pub on_attached_to_loop-Inv :
      {c c' : Conn}
      → Keeps app (Inv sock)
      → on_attached_to_loop sock app true c ≡ ok c'
      → Inv sock c
      → Inv sock c'
  unfolding on_attached_to_loop async_read
  on_attached_to_loop-Inv {c} k e v =
      let (d, called, r) =
        returned (must_notify_conn sock app c.conn_fn (record c { status = connected })) _ e in
      let q = ok-injective r in
      rw (← q) (
        log-Inv sock (read_some _) refl
          (must_notify_conn-Inv c.conn_fn k called (status-Inv sock connected v)))

  close_if_open-Inv : {c : Conn} → Inv sock c → Inv sock (close_if_open sock app c)
  unfolding close_if_open
  close_if_open-Inv {c} v = elim (Bool-cases (sock.is_open c.trace)) [
    | inl o ↦ rw o (log-Inv sock close_socket refl v)
    | inr o ↦ rw o v
  ]

  -- Whatever `close_if_open` leaves is not open, so a write that failed may be forgotten.
  pub is_open-close_if_open : (c : Conn) → sock.is_open (close_if_open sock app c).trace ≡ false
  unfolding close_if_open
  is_open-close_if_open c = elim (Bool-cases (sock.is_open c.trace)) [
    | inl o ↦ rw o (sock.is_open-close c.trace)
    | inr o ↦ simp o
  ]

  abandon-Inv :
      {c : Conn}
      → sock.is_open c.trace ≡ false
      → Inv sock c
      → Inv sock (record c { async_writing = false })
  abandon-Inv o v = record {
    recv_valid = v.recv_valid;
    write_valid = v.write_valid;
    writing_valid = v.writing_valid;
    in_order = v.in_order;
    grown = v.grown;
    drained = λ _ o'. cc;
    untouched = λ h. cc;
  }

  failed_write-Inv :
      {c : Conn}
      → Inv sock c
      → Inv sock
          (close_if_open sock app (record c { async_writing = false; status = disconnecting }))
  unfolding close_if_open
  failed_write-Inv {c} v = elim (Bool-cases (sock.is_open c.trace)) [
    | inl o ↦ rw o (
        status-Inv sock disconnecting
          (abandon-Inv (sock.is_open-close c.trace) (log-Inv sock close_socket refl v)))
    | inr o ↦ rw o (status-Inv sock disconnecting (abandon-Inv o v))
  ]

  close_and_notify-Inv :
      (c : Conn) {c' : Conn}
      → Keeps app (Inv sock)
      → close_and_notify sock app c ≡ ok c'
      → Inv sock (close_if_open sock app c)
      → Inv sock c'
  unfolding close_and_notify
  close_and_notify-Inv c k e v =
      let (c₂, e₂, r) = returned (notify_conn sock app _ _) _ e in
      let (c₃, e₃, r') = returned (notify_close sock app c₂.close_fn c₂) _ r in
      let q = ok-injective r' in
      rw (← q) (
        status-Inv sock disconnected (
          notify_close-Inv c₂.close_fn k e₃
            (notify_conn-Inv _ k e₂ (status-Inv sock disconnecting v))))

  -- `HandleClose`
  pub handle_close-Inv :
      {c c' : Conn}
      → Keeps app (Inv sock)
      → handle_close sock app true c ≡ ok c'
      → Inv sock c
      → Inv sock c'
  unfolding handle_close
  handle_close-Inv {c} k e v = elim (Bool-cases (status_eq c.status disconnected)) [
    | inl d ↦ let q = ok-injective (simp d at e) in rw (← q) v
    | inr d ↦ close_and_notify-Inv c k (simp d at e) (close_if_open-Inv v)
  ]

  -- `HandleRead`, for a read of at most the room that it was given.
  pub handle_read-Inv :
      (err : ErrorCode) (n : ℕ) {c c' : Conn}
      → n ≤ valid_size c.recv_buffer
      → Keeps app (Inv sock)
      → handle_read sock app err n c ≡ ok c'
      → Inv sock c
      → Inv sock c'
  unfolding handle_read handle_error async_read
  handle_read-Inv success n {c} h k e v =
      let (d, called, r) = returned (must_notify_message sock app c.msg_fn _) _ e in
      let q = ok-injective r in
      rw (← q) (
        log-Inv sock (read_some _) refl (
          must_notify_message-Inv c.msg_fn k called
            (recv-Inv sock (write_bytes-IsValid n h v.recv_valid) v)))
  handle_read-Inv eof n h k e v = handle_close-Inv k e (status-Inv sock disconnecting v)
  handle_read-Inv (other x) n h k e v = handle_close-Inv k e (status-Inv sock disconnecting v)

  -- `HandleWrite` after a failure: nothing more is written, and nothing is out of order.
  pub failed_handle_write-Inv :
      (err : ErrorCode) (n : ℕ) {c c' : Conn}
      → err ≢ success
      → Keeps app (Inv sock)
      → handle_write sock app err n c ≡ ok c'
      → Inv sock c
      → Inv sock c'
  unfolding handle_write handle_error handle_close
  failed_handle_write-Inv success n x k e v = absurd (x refl)
  failed_handle_write-Inv eof n x k e v = close_and_notify-Inv _ k e (failed_write-Inv v)
  failed_handle_write-Inv (other y) n x k e v = close_and_notify-Inv _ k e (failed_write-Inv v)
