-- ===== src/TcpConn/Events/Safe.antt =====
-- Every connection that is made keeps its stream in order, whatever happens to it.
use libasio.Prelude.{
  append-nil, some, append-nil, ℕ, ◌+◌, ◌∙◌, sym, ◌≤◌, ◌≡◌, refl, true, false, List, [], ◌++◌,
  length, ok, ok-injective, arith,
}
use libasio.ByteBuffer.{default, capacity, at_read_begin, valid_size}
use libasio.ByteBuffer.Valid.{default-IsValid, memcpy-IsValid, valid_size-memcpy}
use libasio.ByteBuffer.Bytes.{readable, readable-default, at_read_begin-readable}
use libasio.TcpConn.Types.{
  success, eof, other, Endpoint, Conn, Callbacks, disconnecting, post_close, post_send,
  close_socket,
}
use libasio.TcpConn.Types
use libasio.TcpConn.Socket.{Socket}
use libasio.TcpConn.{
  make, close, close_in_loop, set_high_water_mark_callback, set_message_callback, set_conn_callback,
  set_close_callback, set_type, set_tcp_no_delay,
}
use libasio.TcpConn.Handlers.{send}
use libasio.TcpConn.Stream.{
  Inv, Keeps, log-Inv, status-Inv, recv-Inv, accepted, delivered, last_write,
}
use libasio.TcpConn.Stream.Send.{send_in_loop-Inv}
use libasio.TcpConn.Stream.Write.{handle_write-Inv}
use libasio.TcpConn.Stream.Close.{on_attached_to_loop-Inv, handle_read-Inv, failed_handle_write-Inv}
use libasio.TcpConn.Events.{
  Event, attached, sent, send_task, closed, close_task, read_done, write_done, set_high_water,
  set_message, set_conn, set_close, set_kind, set_no_delay, Allowed, step, Runs, here, next, filled,
}

module _ (sock : Socket) where
  -- A new connection has sent nothing and has nothing to send.
  pub make-Inv : (name : List ℕ) (l r : Endpoint) → Inv sock (make name l r [])
  unfolding make
  make-Inv name l r = record {
    recv_valid = default-IsValid;
    write_valid = default-IsValid;
    writing_valid = default-IsValid;
    in_order = rw readable-default;
    grown = unfold default in refl;
    drained = λ _ _. (readable-default, readable-default);
    untouched = λ h. cc;
  }

  setters-Inv :
      {c c' : Conn}
      → c'.recv_buffer ≡ c.recv_buffer
      → c'.write_buffer ≡ c.write_buffer
      → c'.writing_buffer ≡ c.writing_buffer
      → c'.async_writing ≡ c.async_writing
      → c'.trace ≡ c.trace
      → Inv sock c
      → Inv sock c'
  setters-Inv {c} {c'} r w w' a t v = record {
    recv_valid = rw r v.recv_valid;
    write_valid = rw w v.write_valid;
    writing_valid = rw w' v.writing_valid;
    in_order = rw (t, w, w') v.in_order;
    grown = rw (t, w, w') v.grown;
    drained = λ i o. rw (w, w') (v.drained (sym a ∙ i) (rw t at o));
    untouched = λ i. rw (t, w') (v.untouched (sym a ∙ i));
  }

  -- The bytes that arrive go where there was room for them.
  room-filled :
      (d : List ℕ) (c : Conn)
      → length d ≤ valid_size c.recv_buffer
      → length d ≤ valid_size (filled d c).recv_buffer
  unfolding filled
  room-filled d c h = rw (valid_size-memcpy d c.recv_buffer) h

  filled-Inv : (d : List ℕ) {c : Conn} → Inv sock c → Inv sock (filled d c)
  unfolding filled
  filled-Inv d v = recv-Inv sock (memcpy-IsValid d v.recv_valid) v

  module _ (app : Callbacks) (k : Keeps app (Inv sock)) where
    -- Each event keeps it.
    pub step-Inv :
        (e : Event) {c c' : Conn}
        → Allowed e c
        → step sock app e c ≡ ok c'
        → Inv sock c
        → Inv sock c'
    unfolding step send close close_in_loop set_high_water_mark_callback set_message_callback
        set_conn_callback set_close_callback set_type set_tcp_no_delay
    step-Inv attached a e v = on_attached_to_loop-Inv sock app k e v
    step-Inv (sent true d) a e v = send_in_loop-Inv sock app d k e v
    step-Inv (sent false d) a e v =
        let q = ok-injective e in rw (← q) (log-Inv sock (post_send d) refl v)
    step-Inv (send_task d) a e v = send_in_loop-Inv sock app d k e v
    step-Inv closed a e v =
        let q = ok-injective e in
        rw (← q) (log-Inv sock post_close refl (status-Inv sock disconnecting v))
    step-Inv close_task a e v =
        let q = ok-injective e in rw (← q) (log-Inv sock close_socket refl v)
    step-Inv (read_done err d) {c} a e v =
        handle_read-Inv sock app err (length d) (room-filled d c a) k e (filled-Inv d v)
    step-Inv (write_done success n) a e v =
        let (r, w) = handle_write-Inv sock app n a v in
        let q = ok-injective (sym r ∙ e) in rw (← q) w
    step-Inv (write_done eof n) a e v = failed_handle_write-Inv sock app eof n (λ q. cc) k e v
    step-Inv (write_done (other x) n) a e v =
        failed_handle_write-Inv sock app (other x) n (λ q. cc) k e v
    step-Inv (set_no_delay on) a e v =
        let q = ok-injective e in rw (← q) (log-Inv sock (Types.set_no_delay on) refl v)
    step-Inv (set_high_water f n) a e v =
        let q = ok-injective e in rw (← q) (setters-Inv refl refl refl refl refl v)
    step-Inv (set_message f) a e v =
        let q = ok-injective e in rw (← q) (setters-Inv refl refl refl refl refl v)
    step-Inv (set_conn f) a e v =
        let q = ok-injective e in rw (← q) (setters-Inv refl refl refl refl refl v)
    step-Inv (set_close f) a e v =
        let q = ok-injective e in rw (← q) (setters-Inv refl refl refl refl refl v)
    step-Inv (set_kind f) a e v =
        let q = ok-injective e in rw (← q) (setters-Inv refl refl refl refl refl v)

    pub Runs-Inv : {c c' : Conn} → Runs sock app c c' → Inv sock c → Inv sock c'
    Runs-Inv here v = v
    Runs-Inv (next e r a s) v = step-Inv e a s (Runs-Inv r v)

    -- After any sequence of events on a new connection, with callbacks that keep the invariant and
    -- completions of at most the bytes offered, the bytes that were sent, those in the buffer being
    -- written and those waiting are, in this order, the bytes that it took to send.
    pub stream_in_order :
        (name : List ℕ) (l r : Endpoint) {c : Conn}
        → Runs sock app (make name l r []) c
        → delivered c.trace ++ (readable c.writing_buffer ++ readable c.write_buffer)
          ≡ accepted c.trace
    stream_in_order name l r run = (Runs-Inv run (make-Inv name l r)).in_order

    -- After any sequence of events on a new connection, with callbacks that keep the invariant and
    -- completions of at most the bytes offered, if no write is running and the socket is open, all
    -- bytes that it took to send were sent.
    pub all_sent :
        (name : List ℕ) (l r : Endpoint) {c : Conn}
        → Runs sock app (make name l r []) c
        → c.async_writing ≡ false
        → sock.is_open c.trace ≡ true
        → delivered c.trace ≡ accepted c.trace
    all_sent name l r {c} run idle open_ =
        let v = Runs-Inv run (make-Inv name l r) in
        let d = v.drained idle open_ in
        let o : delivered c.trace ++ [] ≡ accepted c.trace = rw (d.0, d.1) at v.in_order in
        sym (append-nil (delivered c.trace)) ∙ o

    -- After any sequence of events on a new connection, with callbacks that keep the invariant and
    -- completions of at most the bytes offered, while a write runs the bytes that the socket was
    -- given for it stand unchanged in the buffer.
    pub write_untouched :
        (name : List ℕ) (l r : Endpoint) {c : Conn}
        → Runs sock app (make name l r []) c
        → c.async_writing ≡ true
        → last_write c.trace ≡ some (at_read_begin c.writing_buffer)
    write_untouched name l r run w =
        let v = Runs-Inv run (make-Inv name l r) in
        rw (at_read_begin-readable v.writing_valid) (v.untouched w)

    -- After any sequence of events on a new connection, with callbacks that keep the invariant and
    -- completions of at most the bytes offered, the storage of the two send buffers is at least as
    -- large as all that the connection ever took to send.
    pub storage_grows :
        (name : List ℕ) (l r : Endpoint) {c : Conn}
        → Runs sock app (make name l r []) c
        → length (accepted c.trace) ≤ capacity c.writing_buffer + capacity c.write_buffer
    unfolding capacity
    storage_grows name l r run = let v = Runs-Inv run (make-Inv name l r) in omega (arith, v.grown)
