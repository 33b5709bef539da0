-- ===== src/TcpConn/Events/Returns.antt =====
-- Every call of a connection returns where the application's callbacks do.
use libasio.Prelude.{
  ℕ, ◌+◌, ◌*◌, ◌<◌, ◌≡◌, refl, ap, Bool-cases, inl, inr, true, false, List, length, Option, none,
  some, ltb, word, add_word, ok, ◌>>=◌, arith,
}
use libasio.ByteBuffer.{swap, ByteBuffer, size, write}
use libasio.TcpConn.Types.{
  success, eof, other, disconnecting, disconnected, connected, Conn, Callbacks, call_conn,
  call_close, call_high_water, took,
}
use libasio.TcpConn.Socket.{Socket}
use libasio.TcpConn.{store, log, status_eq, async_read, async_write, swap_buffers, close_in_loop}
use libasio.TcpConn.Handlers.{
  close_if_open, close_and_notify, notify_conn, notify_close, notify_high_water, must_notify_conn,
  must_notify_message, on_attached_to_loop, handle_close, handle_error, handle_read, handle_write,
  send_idle, send_busy, send_in_loop, send,
}
use libasio.TcpConn.Events.{
  Event, attached, sent, send_task, closed, close_task, read_done, write_done, set_high_water,
  set_message, set_conn, set_close, set_kind, set_no_delay, step, filled,
}

-- Each callback of the application returns.
pub record Returning (app : Callbacks) : Type 0 where
  pub conn : (f : ℕ) (c : Conn) → (c' : Conn) × (app.on_conn f c ≡ ok c')
  pub message : (f : ℕ) (c : Conn) → (c' : Conn) × (app.on_message f c ≡ ok c')
  pub high_water : (f n : ℕ) (c : Conn) → (c' : Conn) × (app.on_high_water_mark f n c ≡ ok c')
  pub close : (f : ℕ) (c : Conn) → (c' : Conn) × (app.on_close f c ≡ ok c')

abbrev pub Filled : Option ℕ → Type 0
Filled none = ⊥
Filled (some f) = Unit {0}

abbrev pub HasRoom : List ℕ → Conn → Type 0
HasRoom d c =
    ((length c.write_buffer.storage + length d) * 3 < word)
    × ((length c.writing_buffer.storage + length d) * 3 < word)

-- What a call needs: a callback that it calls untested, and memory for the bytes that it stores.
abbrev pub Ready : Event → Conn → Type 0
Ready attached c = Filled c.conn_fn
Ready (sent in_loop d) c = HasRoom d c
Ready (send_task d) c = HasRoom d c
Ready (read_done success n) c = Filled c.msg_fn
Ready _ c = Unit {0}

pub store-returns :
    (d : List ℕ) (b : ByteBuffer)
    → (length b.storage + length d) * 3 < word
    → store d b ≡ ok (write d b)
unfolding store
store-returns d b h =
    let t : ltb ((length b.storage + length d) * 3) word ≡ true = ground arith in rw t refl

module _ (sock : Socket) (app : Callbacks) (back : Returning app) where
  notify_conn-returns : (o : Option ℕ) (c : Conn) → (c' : Conn) × (notify_conn sock app o c ≡ ok c')
  unfolding notify_conn
  notify_conn-returns none c = (c, refl)
  notify_conn-returns (some f) c = back.conn f (log (call_conn c.status) c)

  notify_close-returns :
      (o : Option ℕ) (c : Conn) → (c' : Conn) × (notify_close sock app o c ≡ ok c')
  unfolding notify_close
  notify_close-returns none c = (c, refl)
  notify_close-returns (some f) c = back.close f (log (call_close c.status) c)

  notify_high_water-returns :
      (o : Option ℕ) (n : ℕ) (c : Conn) → (c' : Conn) × (notify_high_water sock app o n c ≡ ok c')
  unfolding notify_high_water
  notify_high_water-returns none n c = (c, refl)
  notify_high_water-returns (some f) n c = back.high_water f n (log (call_high_water n) c)

  must_notify_conn-returns :
      (o : Option ℕ) (c : Conn) → Filled o → (c' : Conn) × (must_notify_conn sock app o c ≡ ok c')
  unfolding must_notify_conn
  must_notify_conn-returns none c h = elim h [ ]
  must_notify_conn-returns (some f) c h = back.conn f (log (call_conn c.status) c)

  must_notify_message-returns :
      (o : Option ℕ) (c : Conn)
      → Filled o
      → (c' : Conn) × (must_notify_message sock app o c ≡ ok c')
  unfolding must_notify_message
  must_notify_message-returns none c h = elim h [ ]
  must_notify_message-returns (some f) c h = back.message f _

  pub handle_close-returns : (c : Conn) → (c' : Conn) × (handle_close sock app true c ≡ ok c')
  unfolding handle_close close_and_notify
  handle_close-returns c =
      let c₁ : Conn = record (close_if_open sock app c) { status = disconnecting } in
      let (c₂, e₂) = notify_conn-returns c₁.conn_fn c₁ in
      let (c₃, e₃) = notify_close-returns c₂.close_fn c₂ in
      elim (Bool-cases (status_eq c.status disconnected)) [
        | inl down ↦ (c, simp down)
        | inr up ↦ (record c₃ { status = disconnected }, simp (up, e₂, e₃))
      ]

  send_busy-returns :
      (d : List ℕ) (c : Conn) → HasRoom d c → (c' : Conn) × (send_busy sock app d c ≡ ok c')
  unfolding send_busy
  send_busy-returns d c h =
      let c₁ : Conn = log (took d) (record c { write_buffer = write d c.write_buffer }) in
      let n = add_word (size c₁.write_buffer) (size c₁.writing_buffer) in
      let s = store-returns d c.write_buffer h.0 in
      let (c₂, e) = notify_high_water-returns c.high_water_mark_fn n c₁ in
      elim (Bool-cases (ltb c.high_water_mark n)) [
        | inl high ↦ (c₂, rw (s, high) e)
        | inr low ↦ (c₁, rw (s, low) refl)
      ]

  send_idle-returns :
      (d : List ℕ) (c : Conn) → HasRoom d c → (c' : Conn) × (send_idle sock app d c ≡ ok c')
  unfolding send_idle swap
  send_idle-returns d c h = elim (Bool-cases (ltb 0 (size c.write_buffer))) [
    | inl more ↦
        let s : store d (swap_buffers c).writing_buffer ≡ ok (write d c.write_buffer) =
          unfold swap_buffers in store-returns d c.write_buffer h.0 in
        let c₁ : Conn =
          log (took d) (record (swap_buffers c) { writing_buffer = write d c.write_buffer }) in
        (async_write c₁, rw (more, s) refl)
    | inr none_waits ↦
        let c₁ : Conn = log (took d) (record c { writing_buffer = write d c.writing_buffer }) in
        (async_write c₁, rw (none_waits, store-returns d c.writing_buffer h.1) refl)
  ]

  pub send_in_loop-returns :
      (d : List ℕ) (c : Conn) → HasRoom d c → (c' : Conn) × (send_in_loop sock app true d c ≡ ok c')
  unfolding send_in_loop
  send_in_loop-returns d c h = elim (Bool-cases (sock.is_open c.trace)) [
    | inr shut ↦ (c, simp shut)
    | inl o ↦ elim (Bool-cases c.async_writing) [
      | inl w ↦ let (c', e) = send_busy-returns d c h in (c', simp (o, w) e)
      | inr i ↦ let (c', e) = send_idle-returns d c h in (c', simp (o, i) e)
    ]
  ]

  -- A call of a connection returns if the application's callbacks do, if the callback that it calls
  -- untested is set, and if there is memory for the bytes that it stores.
  pub step-returns : (e : Event) (c : Conn) → Ready e c → (c' : Conn) × (step sock app e c ≡ ok c')
  unfolding step filled on_attached_to_loop handle_read handle_write handle_error send close_in_loop
  step-returns attached c h =
      let (c', e) = must_notify_conn-returns c.conn_fn (record c { status = connected }) h in
      (async_read c', ap (λ m. m >>= (λ k. ok (async_read k))) e)
  step-returns (sent true d) c h = send_in_loop-returns d c h
  step-returns (sent false d) c h = (_, refl)
  step-returns (send_task d) c h = send_in_loop-returns d c h
  step-returns closed c h = (_, refl)
  step-returns close_task c h = (_, refl)
  step-returns (read_done success n) c h =
      let (c', e) = must_notify_message-returns c.msg_fn _ h in
      (async_read c', ap (λ m. m >>= (λ k. ok (async_read k))) e)
  step-returns (read_done eof d) c h =
      handle_close-returns (record (filled d c) { status = disconnecting })
  step-returns (read_done (other k) d) c h =
      handle_close-returns (record (filled d c) { status = disconnecting })
  step-returns (write_done success n) c h = (_, refl)
  step-returns (write_done eof n) c h =
      handle_close-returns (record c { async_writing = false; status = disconnecting })
  step-returns (write_done (other k) n) c h =
      handle_close-returns (record c { async_writing = false; status = disconnecting })
  step-returns (set_high_water f n) c h = (_, refl)
  step-returns (set_message f) c h = (_, refl)
  step-returns (set_conn f) c h = (_, refl)
  step-returns (set_close f) c h = (_, refl)
  step-returns (set_kind k) c h = (_, refl)
  step-returns (set_no_delay on) c h = (_, refl)
