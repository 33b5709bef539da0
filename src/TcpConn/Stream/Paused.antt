-- ===== src/TcpConn/Stream/Paused.antt =====
-- The state of a `TCPConn` between two writes, from which `AsyncWrite` and `Swap` go on.
use libasio.Prelude.{
  ◌≤◌, take, drop, take-append-drop, refl, ℕ, ◌+◌, ◌*◌, ◌<◌, ◌≡◌, refl, sym, ap, ◌∙◌, true, false,
  List, [], ◌++◌, some, length, ok, arith, ltb, word, Bool-cases, inl, inr, append_assoc,
  append-nil, ◌==◌, nil_of_length, length-append,
}
use libasio.ByteBuffer
use libasio.TcpConn.Handlers.{written}
use libasio.ByteBuffer.{read_bytes, ByteBuffer, at_read_begin, size, read_bytes, swap}
use libasio.ByteBuffer.Valid.{read_bytes-IsValid, IsValid, write-IsValid}
use libasio.ByteBuffer.Bytes.{
  readable-read_bytes, readable, readable-write, length-readable, at_read_begin-readable,
}
use libasio.TcpConn.Types.{took, Conn}
use libasio.TcpConn.Socket.{Socket}
use libasio.TcpConn.{store, async_write, swap_buffers, log}
use libasio.TcpConn.Stream.{accepted, delivered, Inv}

-- A `Write` that has the memory appends its bytes.
pub store-appends :
    (d : List ℕ) {b b' : ByteBuffer}
    → store d b ≡ ok b'
    → IsValid b
    → IsValid b' × (readable b' ≡ readable b ++ d) × (b'.wpos ≡ b.wpos + length d)
unfolding store
store-appends d {b} {b'} e v = elim (Bool-cases (ltb ((length b.storage + length d) * 3) word)) [
  | inl g ↦
      let grow : (length b.storage + length d) * 3 < word = ground arith in
      let r : ByteBuffer.write d b ≡ b' = ground arith in
      rw (← r) ((write-IsValid d grow v).0, readable-write d grow v, (write-IsValid d grow v).1)
  | inr g ↦ ground arith
]

pub size-zero : {b : ByteBuffer} → IsValid b → size b ≡ 0 → readable b ≡ []
size-zero {b} v e = nil_of_length (readable b) (length-readable v ∙ e)

pub size-pos : {b : ByteBuffer} → IsValid b → readable b ≡ [] → size b ≡ 0
size-pos {b} v e = sym (length-readable v) ∙ ap length e

module _ (sock : Socket) where
  -- The state between two writes: the invariant, but for the write that is still to be started.
  pub record Paused (c : Conn) : Type 0 where
    pub recv_valid : IsValid c.recv_buffer
    pub write_valid : IsValid c.write_buffer
    pub writing_valid : IsValid c.writing_buffer
    pub in_order :
        delivered c.trace ++ (readable c.writing_buffer ++ readable c.write_buffer)
        ≡ accepted c.trace
    pub grown : c.writing_buffer.wpos + c.write_buffer.wpos ≡ length (accepted c.trace)
    pub idle : c.async_writing ≡ false

  -- `AsyncWrite` starts it, if nothing waits behind an empty buffer.
  pub async_write-Inv :
      {c : Conn}
      → (size c.writing_buffer ≡ 0 → size c.write_buffer ≡ 0)
      → Paused c
      → Inv sock (async_write c)
  unfolding async_write
  async_write-Inv {c} front r = elim (Bool-cases (size c.writing_buffer == 0)) [
    | inl z ↦
        let e : size c.writing_buffer ≡ 0 = ground arith in
        rw (r.idle, z)
          (record {
            recv_valid = r.recv_valid;
            write_valid = r.write_valid;
            writing_valid = r.writing_valid;
            in_order = r.in_order;
            grown = r.grown;
            drained = λ _ _. (size-zero r.writing_valid e, size-zero r.write_valid (front e));
            untouched = λ h. cc;
          })
    | inr n ↦
        rw (r.idle, n)
          (record {
            recv_valid = r.recv_valid;
            write_valid = r.write_valid;
            writing_valid = r.writing_valid;
            in_order = r.in_order;
            grown = r.grown;
            drained = λ h _. cc;
            untouched = λ _. ap some (at_read_begin-readable r.writing_valid);
          })
  ]

  -- The bytes that came meanwhile are next.
  pub swap-Paused : {c : Conn} → size c.writing_buffer ≡ 0 → Paused c → Paused (swap_buffers c)
  unfolding swap_buffers swap
  swap-Paused {c} z r =
      let e = size-zero r.writing_valid z in
      record {
        recv_valid = r.recv_valid;
        write_valid = r.writing_valid;
        writing_valid = r.write_valid;
        in_order = rw (e, append-nil) (let o = r.in_order in rw e at o);
        grown = omega (arith, r.grown);
        idle = r.idle;
      }

  -- What `SendInLoop` may start from when no write is running.
  pub idle-Paused :
      {c : Conn} → c.async_writing ≡ false → sock.is_open c.trace ≡ true → Inv sock c → Paused c
  idle-Paused {c} i o v = record {
    recv_valid = v.recv_valid;
    write_valid = v.write_valid;
    writing_valid = v.writing_valid;
    in_order = v.in_order;
    grown = v.grown;
    idle = i;
  }

  pub took-Paused :
      {c : Conn} (d : List ℕ) {b : ByteBuffer}
      → size c.write_buffer ≡ 0
      → store d c.writing_buffer ≡ ok b
      → Paused c
      → Paused (log (took d) (record c { writing_buffer = b }))
  took-Paused {c} d {b} z e r =
      let s = store-appends d e r.writing_valid in
      let w = size-zero r.write_valid z in
      record {
        recv_valid = r.recv_valid;
        write_valid = r.write_valid;
        writing_valid = s.0;
        in_order =
            let o : delivered c.trace ++ readable c.writing_buffer ≡ accepted c.trace =
              rw (w, append-nil) at r.in_order in
            rw (s.1, w, append-nil, ← append_assoc, o);
        grown = omega (arith, s.2, r.grown, length-append (accepted c.trace) d);
        idle = r.idle;
      }

  -- A write that reported `n` bytes: these are sent, the rest of the buffer is left.
  pub written-Paused :
      {c : Conn} (n : ℕ) → n ≤ size c.writing_buffer → Inv sock c → Paused (written n c)
  unfolding written read_bytes
  written-Paused {c} n h v =
      let at = at_read_begin-readable v.writing_valid in
      let rd = readable-read_bytes n h v.writing_valid in
      record {
        recv_valid = v.recv_valid;
        write_valid = v.write_valid;
        writing_valid = read_bytes-IsValid n h v.writing_valid;
        in_order =
            let r = readable c.writing_buffer in
            rw (
              at,
              rd,
              append_assoc (delivered c.trace),
              ← append_assoc (take n r) (drop n r),
              take-append-drop n r,
              v.in_order,
            );
        grown = v.grown;
        idle = refl;
      }
