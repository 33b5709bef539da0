-- ===== src/TcpConn/Stream/Write.antt =====
-- A completed write (`HandleWrite`): what the socket reports as sent leaves the buffer, and the next
-- write is started.
use libasio.Prelude.{ℕ, refl, ◌≤◌, ◌≡◌, Bool-cases, inl, inr, ltb, ok, arith}
use libasio.ByteBuffer.{size, swap}
use libasio.TcpConn.Types.{Conn, Callbacks, success}
use libasio.TcpConn.Socket.{Socket}
use libasio.TcpConn.{swap_buffers}
use libasio.TcpConn.Handlers.{written, write_on, handle_write}
use libasio.TcpConn.Stream.{Inv}
use libasio.TcpConn.Stream.Paused.{Paused, size-zero, async_write-Inv, swap-Paused, written-Paused}

module _ (sock : Socket) where
  write_on-Inv : {c : Conn} → Paused sock c → Inv sock (write_on c)
  unfolding write_on swap_buffers swap
  write_on-Inv {c} p = elim (Bool-cases (ltb 0 (size c.writing_buffer))) [
    | inl left ↦ rw left (async_write-Inv sock (λ z. absurd (ground arith)) p)
    | inr sent ↦
        let z : size c.writing_buffer ≡ 0 = ground arith in
        elim (Bool-cases (ltb 0 (size c.write_buffer))) [
          | inl more ↦
              rw (sent, more)
                (async_write-Inv sock {c = swap_buffers c} (λ _. z) (swap-Paused sock z p))
          | inr done ↦
              let z' : size c.write_buffer ≡ 0 = ground arith in
              rw (sent, done)
                (record {
                  recv_valid = p.recv_valid;
                  write_valid = p.write_valid;
                  writing_valid = p.writing_valid;
                  in_order = p.in_order;
                  grown = p.grown;
                  drained = λ _ _. (size-zero p.writing_valid z, size-zero p.write_valid z');
                  untouched = λ h. cc (p.idle);
                })
        ]
  ]

  -- A write of at most the bytes that it was given keeps the stream in order.
  pub handle_write-Inv :
      (app : Callbacks) {c : Conn} (n : ℕ)
      → n ≤ size c.writing_buffer
      → Inv sock c
      → handle_write sock app success n c ≡ ok (write_on (written n c))
        × Inv sock (write_on (written n c))
  unfolding handle_write
  handle_write-Inv app n h v = (refl, write_on-Inv (written-Paused sock n h v))
