-- ===== src/TcpConn/Posting/Rest.antt =====
-- What a `TCPConn` (src/tcp_conn.cc) does to what was handed to its loop to send, event by event.
use libasio.Prelude.{
  ℕ, ◌≡◌, refl, true, false, Bool-cases, inl, inr, List, ◌∷◌, Option, none, some, ltb, add_word, ok,
  ok-injective, returned,
}
use libasio.ByteBuffer.{size, at_read_begin}
use libasio.TcpConn.Types.{Action, took, call_message, call_high_water, success, Conn, Callbacks}
use libasio.TcpConn.Socket.{Socket}
use libasio.TcpConn.{store, swap_buffers, async_read}
use libasio.TcpConn.Handlers.{
  send_in_loop, send_idle, send_busy, notify_high_water, must_notify_message, handle_read,
}
use libasio.TcpConn.Stream.{accepted, open_before}
use libasio.TcpConn.Quiet.{
  Quiet, same, gain, Quiet-trans, QuietApp, posted, accepted-Quiet, posted-Quiet, open-Quiet,
  async_write-Quiet, step-Quiet,
}
use libasio.TcpConn.Events.{Event, sent, send_task, read_done, step, filled, is_send}

module _ (sock : Socket) (app : Callbacks) where
  module _ (a : QuietApp app) where
    notify_high_water-Quiet :
        (f : Option ℕ) (n : ℕ) (c : Conn) {c' : Conn}
        → notify_high_water sock app f n c ≡ ok c'
        → Quiet c.trace c'.trace
    unfolding notify_high_water
    notify_high_water-Quiet none n c e = rw (← ok-injective e) same
    notify_high_water-Quiet (some f) n c e =
        Quiet-trans (gain (call_high_water n) refl same) (a.high_water f n e)

    -- A call of `SendInLoop` on an open socket takes the bytes, and is quiet but for that.
    pub send_in_loop-Quiet :
        (d : List ℕ) (c : Conn) {c' : Conn}
        → sock.is_open c.trace ≡ true
        → send_in_loop sock app true d c ≡ ok c'
        → Quiet (took d ∷ c.trace) c'.trace
    unfolding send_in_loop send_idle send_busy swap_buffers
    send_in_loop-Quiet d c o e = elim (Bool-cases c.async_writing) [
      | inl w ↦
          let (b, s, r) = returned (store d c.write_buffer) _ (simp (o, w) at e) in
          let n = add_word (size b) (size c.writing_buffer) in
          elim (Bool-cases (ltb c.high_water_mark n)) [
            | inl high ↦ notify_high_water-Quiet c.high_water_mark_fn n _ (rw high at r)
            | inr low ↦ rw (← ok-injective (rw low at r)) same
          ]
      | inr i ↦ elim (Bool-cases (ltb 0 (size c.write_buffer))) [
        | inl more ↦
            let (b, s, r) = returned (store d _) _ (simp (o, i, more) at e) in
            rw (← ok-injective r) (async_write-Quiet _)
        | inr none_waits ↦
            let (b, s, r) = returned (store d _) _ (simp (o, i, none_waits) at e) in
            rw (← ok-injective r) (async_write-Quiet _)
      ]
    ]

-- An application that sends nothing and shows nothing by itself.
pub record Restful (app : Callbacks) : Type 0 where
  pub quiet : QuietApp app
  pub message : (f : ℕ) {c c' : Conn} → app.on_message f c ≡ ok c' → Quiet c.trace c'.trace

module _ (sock : Socket) (app : Callbacks) where
  -- Nothing was taken and nothing handed to the loop, and a closed socket stays closed.
  pub record Unsent (t t' : List Action) : Type 0 where
    pub said : accepted t' ≡ accepted t
    pub handed : posted t' ≡ posted t
    pub shut : sock.is_open t' ≡ true → sock.is_open t ≡ true

  pub Quiet-Unsent : (t t' : List Action) → Quiet t t' → Unsent t t'
  Quiet-Unsent t t' q = record {
    said = accepted-Quiet q;
    handed = posted-Quiet q;
    shut = open-Quiet sock q;
  }

  shown-Unsent :
      (f : Option ℕ) (c : Conn) {c' : Conn}
      → Restful app
      → must_notify_message sock app f c ≡ ok c'
      → Unsent c.trace c'.trace
  unfolding must_notify_message
  shown-Unsent none c r e = cc
  shown-Unsent (some f) c {c'} r e =
      let shown = call_message (at_read_begin c.recv_buffer) in
      let u = Quiet-Unsent (shown ∷ c.trace) c'.trace (r.message f e) in
      record {
        said = u.said;
        handed = u.handed;
        shut = λ o. open_before sock shown c.trace (u.shut o);
      }

  pub step-Unsent :
      (e : Event) (c : Conn) {c' : Conn}
      → Restful app
      → is_send e ≡ false
      → step sock app e c ≡ ok c'
      → Unsent c.trace c'.trace
  unfolding step handle_read filled async_read
  step-Unsent (sent in_loop d) c r s e = cc
  step-Unsent (send_task d) c r s e = cc
  step-Unsent (read_done success d) c r s e =
      let (c₂, e₂, q) = returned (must_notify_message sock app (filled d c).msg_fn _) _ e in
      let u = shown-Unsent c.msg_fn _ r e₂ in
      rw (← ok-injective q) (record {
        said = u.said;
        handed = u.handed;
        shut = λ o. u.shut (open_before sock _ c₂.trace o);
      })
  step-Unsent x c {c'} r s e =
      Quiet-Unsent c.trace c'.trace (step-Quiet sock app r.quiet x c refl e)
