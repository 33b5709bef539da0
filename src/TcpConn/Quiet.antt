-- ===== src/TcpConn/Quiet.antt =====
-- The calls of a `TCPConn` (src/tcp_conn.cc) that take nothing to send, hand over nothing to send, and
-- show no message.
use libasio.Prelude.{
  ℕ, ◌≡◌, refl, Bool, true, false, Bool-cases, inl, inr, List, [], ◌∷◌, ◌++◌, Option, none, some,
  ◌||◌, ◌==◌, ltb, ok, ok-injective, returned,
}
use libasio.ByteBuffer.{size, at_read_begin}
use libasio.TcpConn.Types.{
  disconnected, disconnecting, success, eof, other, Action, took, call_message, post_send,
  call_conn, call_close, close_socket, write_some, Conn, Callbacks,
}
use libasio.TcpConn.Socket.{Socket}
use libasio.TcpConn.{
  status_eq, async_read, async_write, swap_buffers, close, close_in_loop,
  set_high_water_mark_callback, set_message_callback, set_conn_callback, set_close_callback,
  set_type, set_tcp_no_delay,
}
use libasio.TcpConn.Handlers.{
  close_if_open, close_and_notify, notify_conn, notify_close, must_notify_conn, on_attached_to_loop,
  handle_close, handle_error, handle_read, handle_write, write_on, written,
}
use libasio.TcpConn.Stream.{accepted, open_before}
use libasio.TcpConn.Taking.{asked}
use libasio.TcpConn.Events.{
  Event, attached, sent, send_task, closed, close_task, read_done, write_done, set_no_delay, step,
  filled,
}

abbrev is_quiet : Action → Bool
is_quiet (took d) = false
is_quiet (call_message d) = false
is_quiet (post_send d) = false
is_quiet _ = true

-- The second trace is the first with quiet entries on top.
pub data Quiet (t : List Action) : List Action → Type 0 where
  same : Quiet t t
  gain : {t' : List Action} (a : Action) → is_quiet a ≡ true → Quiet t t' → Quiet t (a ∷ t')

pub Quiet-trans : {t t' t'' : List Action} → Quiet t t' → Quiet t' t'' → Quiet t t''
Quiet-trans q same = q
Quiet-trans q (gain a h r) = gain a h (Quiet-trans q r)

-- The bytes of the tasks that `Send` handed to the loop.
abbrev pub posted : List Action → List ℕ
posted [] = []
posted (post_send d ∷ t) = posted t ++ d
posted (_ ∷ t) = posted t

pub accepted-Quiet : {t t' : List Action} → Quiet t t' → accepted t' ≡ accepted t
accepted-Quiet same = refl
accepted-Quiet (gain (took d) h q) = cc
accepted-Quiet (gain a h q) = accepted-Quiet q

pub posted-Quiet : {t t' : List Action} → Quiet t t' → posted t' ≡ posted t
posted-Quiet same = refl
posted-Quiet (gain (post_send d) h q) = cc
posted-Quiet (gain a h q) = posted-Quiet q

module _ (sock : Socket) where
  pub asked-Quiet : {t t' : List Action} → Quiet t t' → asked sock t' ≡ asked sock t
  asked-Quiet same = refl
  asked-Quiet (gain (call_message d) h q) = cc
  asked-Quiet (gain a h q) = asked-Quiet q

  pub open-Quiet :
      {t t' : List Action} → Quiet t t' → sock.is_open t' ≡ true → sock.is_open t ≡ true
  open-Quiet same o = o
  open-Quiet (gain {t'} a h q) o = open-Quiet q (open_before sock a t' o)

-- Every event is quiet but a call of `Send`, its task, and a read that succeeds.
abbrev is_quiet_event : Event → Bool
is_quiet_event (sent in_loop d) = false
is_quiet_event (send_task d) = false
is_quiet_event (read_done success d) = false
is_quiet_event _ = true

-- An application whose callbacks are quiet, but for that of messages.
pub record QuietApp (app : Callbacks) : Type 0 where
  pub conn : (f : ℕ) {c c' : Conn} → app.on_conn f c ≡ ok c' → Quiet c.trace c'.trace
  pub high_water :
      (f n : ℕ) {c c' : Conn} → app.on_high_water_mark f n c ≡ ok c' → Quiet c.trace c'.trace
  pub close : (f : ℕ) {c c' : Conn} → app.on_close f c ≡ ok c' → Quiet c.trace c'.trace

pub async_write-Quiet : (c : Conn) → Quiet c.trace (async_write c).trace
unfolding async_write
async_write-Quiet c = elim (Bool-cases (c.async_writing || size c.writing_buffer == 0)) [
  | inl stays ↦ rw stays same
  | inr writes ↦ rw writes (gain (write_some (at_read_begin c.writing_buffer)) refl same)
]

write_on-Quiet : (c : Conn) → Quiet c.trace (write_on c).trace
unfolding write_on swap_buffers
write_on-Quiet c = elim (Bool-cases (ltb 0 (size c.writing_buffer))) [
  | inl left ↦ rw left (async_write-Quiet c)
  | inr done ↦ elim (Bool-cases (ltb 0 (size c.write_buffer))) [
    | inl more ↦ rw (done, more) (async_write-Quiet (swap_buffers c))
    | inr none_waits ↦ rw (done, none_waits) same
  ]
]

module _ (sock : Socket) (app : Callbacks) (a : QuietApp app) where
  notify_conn-Quiet :
      (f : Option ℕ) (c : Conn) {c' : Conn}
      → notify_conn sock app f c ≡ ok c'
      → Quiet c.trace c'.trace
  unfolding notify_conn
  notify_conn-Quiet none c e = rw (← ok-injective e) same
  notify_conn-Quiet (some f) c e = Quiet-trans (gain (call_conn c.status) refl same) (a.conn f e)

  notify_close-Quiet :
      (f : Option ℕ) (c : Conn) {c' : Conn}
      → notify_close sock app f c ≡ ok c'
      → Quiet c.trace c'.trace
  unfolding notify_close
  notify_close-Quiet none c e = rw (← ok-injective e) same
  notify_close-Quiet (some f) c e = Quiet-trans (gain (call_close c.status) refl same) (a.close f e)

  must_notify_conn-Quiet :
      (f : Option ℕ) (c : Conn) {c' : Conn}
      → must_notify_conn sock app f c ≡ ok c'
      → Quiet c.trace c'.trace
  unfolding must_notify_conn
  must_notify_conn-Quiet none c e = cc
  must_notify_conn-Quiet (some f) c e =
      Quiet-trans (gain (call_conn c.status) refl same) (a.conn f e)

  close_if_open-Quiet : (c : Conn) → Quiet c.trace (close_if_open sock app c).trace
  unfolding close_if_open
  close_if_open-Quiet c = elim (Bool-cases (sock.is_open c.trace)) [
    | inl o ↦ rw o (gain close_socket refl same)
    | inr shut ↦ rw shut same
  ]

  handle_close-Quiet :
      (c : Conn) {c' : Conn} → handle_close sock app true c ≡ ok c' → Quiet c.trace c'.trace
  unfolding handle_close close_and_notify
  handle_close-Quiet c e = elim (Bool-cases (status_eq c.status disconnected)) [
    | inl d ↦ let q = ok-injective (simp d at e) in rw (← q) same
    | inr d ↦
        let (c₂, e₂, r) = returned (notify_conn sock app _ _) _ (simp d at e) in
        let (c₃, e₃, r') = returned (notify_close sock app c₂.close_fn c₂) _ r in
        let q = Quiet-trans (close_if_open-Quiet c) (notify_conn-Quiet _ _ e₂) in
        rw (← ok-injective r') (Quiet-trans q (notify_close-Quiet c₂.close_fn c₂ e₃))
  ]

  ended :
      (c : Conn) (writing : Bool) {c' : Conn}
      → handle_close sock app true (record c { async_writing = writing; status = disconnecting })
        ≡ ok c'
      → Quiet c.trace c'.trace
  ended c writing e =
      handle_close-Quiet (record c { async_writing = writing; status = disconnecting }) e

  on_attached-Quiet :
      (c : Conn) {c' : Conn} → on_attached_to_loop sock app true c ≡ ok c' → Quiet c.trace c'.trace
  unfolding on_attached_to_loop async_read
  on_attached-Quiet c e =
      let (d, e₂, r) = returned (must_notify_conn sock app c.conn_fn _) _ e in
      rw (← ok-injective r) (gain _ refl (must_notify_conn-Quiet c.conn_fn _ e₂))

  pub step-Quiet :
      (e : Event) (c : Conn) {c' : Conn}
      → is_quiet_event e ≡ true
      → step sock app e c ≡ ok c'
      → Quiet c.trace c'.trace
  unfolding step close close_in_loop set_high_water_mark_callback set_message_callback
      set_conn_callback set_close_callback set_type set_tcp_no_delay handle_read handle_write
      handle_error filled written
  step-Quiet attached c s e = on_attached-Quiet c e
  step-Quiet (sent in_loop d) c s e = cc
  step-Quiet (send_task d) c s e = cc
  step-Quiet closed c s e = rw (← ok-injective e) (gain _ refl same)
  step-Quiet close_task c s e = rw (← ok-injective e) (gain _ refl same)
  step-Quiet (read_done success d) c s e = cc
  step-Quiet (read_done eof d) c s e = ended (filled d c) c.async_writing e
  step-Quiet (read_done (other k) d) c s e = ended (filled d c) c.async_writing e
  step-Quiet (write_done success n) c s e =
      rw (← ok-injective e) (Quiet-trans (gain _ refl same) (write_on-Quiet (written n c)))
  step-Quiet (write_done eof n) c s e = ended c false e
  step-Quiet (write_done (other k) n) c s e = ended c false e
  step-Quiet (set_no_delay on) c s e = rw (← ok-injective e) (gain _ refl same)
  step-Quiet _ c s e = rw (← ok-injective e) same
