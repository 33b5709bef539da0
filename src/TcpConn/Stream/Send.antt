-- ===== src/TcpConn/Stream/Send.antt =====
-- Sending keeps the stream in order (`SendInLoop`).
use libasio.Prelude.{
  ok-injective, add_word, ℕ, ◌≡◌, refl, true, false, List, Option, none, some, ok, arith, ltb,
  Bool-cases, inl, inr, append_assoc, returned, length-append,
}
use libasio.ByteBuffer.{ByteBuffer, size}
use libasio.ByteBuffer.Bytes.{readable}
use libasio.TcpConn.Types.{took, call_high_water, Conn, Callbacks}
use libasio.TcpConn.Socket.{Socket}
use libasio.TcpConn.{store, async_write, log}
use libasio.TcpConn.Handlers.{send_idle, send_busy, send_in_loop, notify_high_water}
use libasio.TcpConn.Stream.{accepted, delivered, Inv, Keeps, log-Inv}
use libasio.TcpConn.Stream.Paused.{
  store-appends, size-pos, async_write-Inv, took-Paused, idle-Paused,
}

module _ (sock : Socket) (app : Callbacks) where
  send_idle-Inv :
      {c c' : Conn} (d : List ℕ)
      → c.async_writing ≡ false
      → sock.is_open c.trace ≡ true
      → send_idle sock app d c ≡ ok c'
      → Inv sock c
      → Inv sock c'
  unfolding send_idle
  send_idle-Inv {c} {c'} d i o e v = elim (Bool-cases (ltb 0 (size c.write_buffer))) [
    | inl more ↦ absurd (ground (arith, size-pos v.write_valid (v.drained i o).1))
    | inr none_waits ↦
        let z : size c.write_buffer ≡ 0 = ground arith in
        let (b, stored, r) = returned (store d c.writing_buffer) _ (rw none_waits at e) in
        let q : async_write (log (took d) (record c { writing_buffer = b })) ≡ c' = ground arith in
        rw (← q)
          (async_write-Inv sock (λ _. z) (took-Paused sock d z stored (idle-Paused sock i o v)))
  ]

  notify_high_water-Inv :
      (f : Option ℕ) (n : ℕ) {c c' : Conn}
      → Keeps app (Inv sock)
      → notify_high_water sock app f n c ≡ ok c'
      → Inv sock c
      → Inv sock c'
  unfolding notify_high_water
  notify_high_water-Inv none n k e v = let q = ok-injective e in rw (← q) v
  notify_high_water-Inv (some f) n k e v =
      k.high_water f n e (log-Inv sock (call_high_water n) refl v)

  busy-Inv :
      {c : Conn} (d : List ℕ) {b : ByteBuffer}
      → c.async_writing ≡ true
      → store d c.write_buffer ≡ ok b
      → Inv sock c
      → Inv sock (log (took d) (record c { write_buffer = b }))
  busy-Inv {c} d {b} i e v =
      let s = store-appends d e v.write_valid in
      record {
        recv_valid = v.recv_valid;
        write_valid = s.0;
        writing_valid = v.writing_valid;
        in_order = rw (
          s.1,
          ← append_assoc (readable c.writing_buffer),
          ← append_assoc (delivered c.trace),
          v.in_order,
        );
        grown = omega (arith, s.2, v.grown, length-append (accepted c.trace) d);
        drained = λ h _. cc;
        untouched = v.untouched;
      }

  send_busy-Inv :
      {c c' : Conn} (d : List ℕ)
      → Keeps app (Inv sock)
      → c.async_writing ≡ true
      → send_busy sock app d c ≡ ok c'
      → Inv sock c
      → Inv sock c'
  unfolding send_busy
  send_busy-Inv {c} {c'} d k i e v =
      let (b, stored, r) = returned (store d c.write_buffer) _ e in
      let buffered = add_word (size b) (size c.writing_buffer) in
      elim (Bool-cases (ltb c.high_water_mark buffered)) [
        | inl high ↦
            notify_high_water-Inv c.high_water_mark_fn buffered k (rw high at r)
              (busy-Inv d i stored v)
        | inr low ↦ let q = ok-injective (rw low at r) in rw (← q) (busy-Inv d i stored v)
      ]

  -- `SendInLoop` keeps the stream in order, on each of its branches.
  pub send_in_loop-Inv :
      {c c' : Conn} (d : List ℕ)
      → Keeps app (Inv sock)
      → send_in_loop sock app true d c ≡ ok c'
      → Inv sock c
      → Inv sock c'
  unfolding send_in_loop
  send_in_loop-Inv {c} {c'} d k e v = elim (Bool-cases (sock.is_open c.trace)) [
    | inl o ↦ elim (Bool-cases c.async_writing) [
      | inl i ↦ send_busy-Inv d k i (simp (o, i) at e) v
      | inr i ↦ send_idle-Inv d i o (simp (o, i) at e) v
    ]
    | inr o ↦ let q = ok-injective (rw o at e) in rw (← q) v
  ]
