-- ===== src/TcpConn/Traffic/Steps.antt =====
-- What each event of a `TCPConn` shows the application and sends.
use libasio.Prelude.{
  length, length-overwrite, ℕ, ◌≡◌, refl, ap, ◌∙◌, Bool, true, false, List, [], ◌++◌, take, Option,
  none, some, ok, ok-injective, returned,
}
use libasio.ByteBuffer.{at_read_begin, memcpy_at_write_begin}
use libasio.ByteBuffer.Valid.{IsValid, memcpy-IsValid, memcpy-lem}
use libasio.ByteBuffer.Bytes.{readable, readable-append, readable-memcpy, at_read_begin-readable}
use libasio.TcpConn.Types.{success, eof, other, disconnecting, Conn, Callbacks}
use libasio.TcpConn.Socket.{Socket}
use libasio.TcpConn.{
  async_read, close, close_in_loop, set_high_water_mark_callback, set_message_callback,
  set_conn_callback, set_close_callback, set_type, set_tcp_no_delay,
}
use libasio.TcpConn.Handlers.{
  must_notify_message, handle_close, handle_read, handle_write, handle_error, written, send,
}
use libasio.TcpConn.Stream.{delivered}
use libasio.TcpConn.Events.{
  Event, attached, sent, send_task, closed, close_task, read_done, write_done, Allowed, step,
  filled,
}
use libasio.TcpConn.Traffic.{
  messages, Still, Aside, write_on-Still, handle_close-Still, on_attached-Still, send_in_loop-Still,
}

-- An application that by itself shows and sends no bytes, whatever callback runs.
pub record Honest (app : Callbacks) : Type 0 where
  pub aside : Aside app
  pub message_heard :
      (f : ℕ) {c c' : Conn} → app.on_message f c ≡ ok c' → messages c'.trace ≡ messages c.trace
  pub message_sent :
      (f : ℕ) {c c' : Conn} → app.on_message f c ≡ ok c' → delivered c'.trace ≡ delivered c.trace

-- Such an application that takes all that it is shown out of the buffer.
pub record Consuming (app : Callbacks) : Type 0 where
  pub honest : Honest app
  pub message_valid :
      (f : ℕ) {c c' : Conn}
      → app.on_message f c ≡ ok c'
      → IsValid c.recv_buffer
      → IsValid c'.recv_buffer
  pub message_empty :
      (f : ℕ) {c c' : Conn}
      → app.on_message f c ≡ ok c'
      → IsValid c.recv_buffer
      → readable c'.recv_buffer ≡ []

-- The events that move bytes.
abbrev pub is_read : Event → Bool
is_read (read_done success d) = true
is_read _ = false

abbrev pub is_write : Event → Bool
is_write (write_done success n) = true
is_write _ = false

-- No byte was shown or sent, and what waits to be read is the same.
pub record Calm (c c' : Conn) : Type 0 where
  pub valid : IsValid c.recv_buffer → IsValid c'.recv_buffer
  pub unread : IsValid c.recv_buffer → readable c'.recv_buffer ≡ readable c.recv_buffer
  pub position : c'.recv_buffer.wpos ≡ c.recv_buffer.wpos
  pub storage : length c'.recv_buffer.storage ≡ length c.recv_buffer.storage
  pub heard : messages c'.trace ≡ messages c.trace
  pub sent : delivered c'.trace ≡ delivered c.trace

Still-Calm : {c c' : Conn} → Still c c' → Calm c c'
Still-Calm s = record {
  valid = λ v. rw (s.recv) v;
  unread = λ v. rw (s.recv) refl;
  position = rw (s.recv) refl;
  storage = rw (s.recv) refl;
  heard = s.heard;
  sent = s.sent;
}

filled-Calm : (d : List ℕ) {c c' : Conn} → Still (filled d c) c' → Calm c c'
unfolding filled memcpy_at_write_begin
filled-Calm d {c} s = record {
  valid = λ v. rw (s.recv) (memcpy-IsValid d v);
  unread = λ v. rw (s.recv) (readable-memcpy d v);
  position = rw (s.recv) refl;
  storage = rw (s.recv) (length-overwrite c.recv_buffer.storage c.recv_buffer.wpos d);
  heard = s.heard;
  sent = s.sent;
}

unmoved :
    {c d c' : Conn}
    → d ≡ c'
    → d.recv_buffer ≡ c.recv_buffer
    → messages d.trace ≡ messages c.trace
    → delivered d.trace ≡ delivered c.trace
    → Calm c c'
unmoved q r h s = rw (← q) (Still-Calm (record { recv = r; heard = h; sent = s }))

module _ (sock : Socket) (app : Callbacks) where
  ended :
      Aside app
      → (c : Conn) (writing : Bool) {c' : Conn}
      → handle_close sock app true (record c { async_writing = writing; status = disconnecting })
        ≡ ok c'
      → Still c c'
  ended a c writing e =
      let s =
        handle_close-Still sock app a
          {c = record c { async_writing = writing; status = disconnecting }} e in
      record { recv = s.recv; heard = s.heard; sent = s.sent }

  -- Any event but a read or a write that succeeds moves no byte.
  pub step-Calm :
      (e : Event) {c c' : Conn}
      → Aside app
      → is_read e ≡ false
      → is_write e ≡ false
      → step sock app e c ≡ ok c'
      → Calm c c'
  unfolding step send close close_in_loop set_high_water_mark_callback set_message_callback
      set_conn_callback set_close_callback set_type set_tcp_no_delay handle_read handle_write
      handle_error filled
  step-Calm attached a r w e = Still-Calm (on_attached-Still sock app a e)
  step-Calm (sent true d) a r w e = Still-Calm (send_in_loop-Still sock app a d e)
  step-Calm (send_task d) a r w e = Still-Calm (send_in_loop-Still sock app a d e)
  step-Calm (read_done success d) a r w e = cc
  step-Calm (read_done eof d) {c} a r w e = filled-Calm d (ended a (filled d c) c.async_writing e)
  step-Calm (read_done (other k) d) {c} a r w e =
      filled-Calm d (ended a (filled d c) c.async_writing e)
  step-Calm (write_done success n) a r w e = cc
  step-Calm (write_done eof n) {c} a r w e = Still-Calm (ended a c false e)
  step-Calm (write_done (other k) n) {c} a r w e = Still-Calm (ended a c false e)
  step-Calm (sent false d) a r w e = unmoved (ok-injective e) refl refl refl
  step-Calm closed a r w e = unmoved (ok-injective e) refl refl refl
  step-Calm close_task a r w e = unmoved (ok-injective e) refl refl refl
  step-Calm _ a r w e = unmoved (ok-injective e) refl refl refl

  -- A write that succeeds sends the first bytes of the buffer being written.
  pub step-write :
      (n : ℕ) (c : Conn) {c' : Conn}
      → step sock app (write_done success n) c ≡ ok c'
      → (c'.recv_buffer ≡ c.recv_buffer)
        × (messages c'.trace ≡ messages c.trace)
        × (delivered c'.trace ≡ delivered c.trace ++ take n (at_read_begin c.writing_buffer))
  unfolding step handle_write written
  step-write n c e =
      let q = ok-injective e in
      let s = write_on-Still (written n c) in rw (← q) (s.recv, s.heard, s.sent)

  shown-sent :
      (f : Option ℕ) (c : Conn) {c' : Conn}
      → Honest app
      → must_notify_message sock app f c ≡ ok c'
      → delivered c'.trace ≡ delivered c.trace
  unfolding must_notify_message
  shown-sent none c h e = cc
  shown-sent (some f) c h e = h.message_sent f e

  shown-all :
      (f : Option ℕ) (c : Conn) {c' : Conn}
      → Consuming app
      → IsValid c.recv_buffer
      → must_notify_message sock app f c ≡ ok c'
      → IsValid c'.recv_buffer
        × (readable c'.recv_buffer ≡ [])
        × (messages c'.trace ≡ messages c.trace ++ readable c.recv_buffer)
  unfolding must_notify_message
  shown-all none c h v e = cc
  shown-all (some f) c h v e = (
    h.message_valid f e v,
    h.message_empty f e v,
    h.honest.message_heard f e ∙ ap (◌++◌ (messages c.trace)) (at_read_begin-readable v),
  )

  -- A read that succeeds sends nothing.
  pub step-read_sent :
      (d : List ℕ) (c : Conn) {c' : Conn}
      → Honest app
      → step sock app (read_done success d) c ≡ ok c'
      → delivered c'.trace ≡ delivered c.trace
  unfolding step handle_read filled async_read
  step-read_sent d c h e =
      let (c₂, e₂, r) = returned (must_notify_message sock app (filled d c).msg_fn _) _ e in
      rw (← ok-injective r) (shown-sent c.msg_fn _ h e₂)

  -- A read that succeeds shows what arrived, if nothing was left unread, and a consuming application
  -- leaves nothing unread.
  pub step-read :
      (d : List ℕ) (c : Conn) {c' : Conn}
      → Consuming app
      → IsValid c.recv_buffer
      → readable c.recv_buffer ≡ []
      → Allowed (read_done success d) c
      → step sock app (read_done success d) c ≡ ok c'
      → IsValid c'.recv_buffer
        × (readable c'.recv_buffer ≡ [])
        × (messages c'.trace ≡ messages c.trace ++ d)
  unfolding step handle_read filled async_read
  step-read d c h v r a e =
      let (c₂, e₂, q) = returned (must_notify_message sock app (filled d c).msg_fn _) _ e in
      let (v', emptied, heard) = shown-all c.msg_fn _ h (memcpy-lem d a v).0 e₂ in
      let arrived = readable-append d a v ∙ ap (◌++ d) r in
      rw (← ok-injective q) (v', emptied, heard ∙ ap (◌++◌ (messages c.trace)) arrived)
