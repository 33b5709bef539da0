-- ===== src/TcpConn/Events/Drain.antt =====
-- What a `TCPConn` (src/tcp_conn.cc) has taken to send gets out, if its writes complete.
use libasio.Prelude.{
  ℕ, suc, ◌+◌, ◌≤◌, ◌<◌, ◌≡◌, refl, sym, ap, ◌∙◌, true, false, Bool-cases, inl, inr, min, List, [],
  ◌∷◌, ◌++◌, append-nil, length, length-append, length-take, take, if◌then◌else◌, Result, ok, ◌>>=◌,
  arith,
}
use libasio.ByteBuffer.{size, at_read_begin}
use libasio.ByteBuffer.Bytes.{readable, length-readable, at_read_begin-readable}
use libasio.TcpConn
use libasio.TcpConn.Types.{success, wrote, write_some, Endpoint, Conn, Callbacks}
use libasio.TcpConn.Socket.{Socket}
use libasio.TcpConn.{async_write, swap_buffers}
use libasio.TcpConn.Handlers.{handle_write, written, write_on}
use libasio.TcpConn.Stream.{Inv, Keeps, accepted, delivered}
use libasio.TcpConn.Stream.Write.{handle_write-Inv}
use libasio.TcpConn.Events.{Runs}
use libasio.TcpConn.Events.Safe.{make-Inv, Runs-Inv}

-- The bytes that were taken and not reported as sent.
abbrev pub pending : Conn → ℕ
pending c = size c.writing_buffer + size c.write_buffer

module _ (sock : Socket) (app : Callbacks) where
  -- The writes that run complete one after the other, each with at least one byte, or with fewer than it
  -- was asked for: `n` stands for `n + 1` bytes.
  unfoldable pub complete : List ℕ → Conn → Result Conn
  complete [] c = ok c
  complete (n ∷ ns) c =
      if c.async_writing
      then handle_write sock app success (min (suc n) (size c.writing_buffer)) c >>= complete ns
      else ok c

  -- All that was taken is sent or pending.
  pending-lem :
      (c : Conn) → Inv sock c → length (delivered c.trace) + pending c ≡ length (accepted c.trace)
  pending-lem c v =
      let d = delivered c.trace in
      let a = readable c.writing_buffer in
      let b = readable c.write_buffer in
      omega (
        arith,
        ap length v.in_order,
        length-append d (a ++ b),
        length-append a b,
        length-readable v.writing_valid,
        length-readable v.write_valid,
      )

  -- A write that runs has something to write.
  abbrev Busy : Conn → Type 0
  Busy c = c.async_writing ≡ true → 0 < size c.writing_buffer

  async_write-Busy : (c : Conn) → c.async_writing ≡ false → Busy (async_write c)
  unfolding async_write
  async_write-Busy c i = ground arith

  write_on-Busy : (c : Conn) → c.async_writing ≡ false → Busy (write_on c)
  unfolding write_on swap_buffers
  write_on-Busy c i = ground (arith, async_write-Busy c i, async_write-Busy (swap_buffers c) i)

  -- The calls after a write take nothing, send nothing and leave the socket.
  record Onward (c c' : Conn) : Type 0 where
    took_none : accepted c'.trace ≡ accepted c.trace
    sent_none : delivered c'.trace ≡ delivered c.trace
    still_open : sock.is_open c'.trace ≡ sock.is_open c.trace

  async_write-Onward : (c : Conn) → Onward c (async_write c)
  unfolding async_write
  async_write-Onward c =
      ground (arith, sock.is_open-other (write_some (at_read_begin c.writing_buffer)) c.trace refl)

  write_on-Onward : (c : Conn) → Onward c (write_on c)
  unfolding write_on swap_buffers
  write_on-Onward c = ground (arith, async_write-Onward c, async_write-Onward (swap_buffers c))

  -- What one completion makes of a connection: as many bytes as it reports are no longer pending.
  record Completed (c : Conn) (m : ℕ) (c' : Conn) : Type 0 where
    inv : Inv sock c'
    busy : Busy c'
    same_accepted : accepted c'.trace ≡ accepted c.trace
    same_open : sock.is_open c'.trace ≡ sock.is_open c.trace
    fewer : pending c' + m ≡ pending c

  written-Completed :
      (m : ℕ) (c : Conn)
      → Inv sock c
      → m ≤ size c.writing_buffer
      → Completed c m (write_on (written m c))
  unfolding written
  written-Completed m c v h =
      let c' = write_on (written m c) in
      let w = (handle_write-Inv sock app m h v).1 in
      let o = write_on-Onward (written m c) in
      let sent = take m (at_read_begin c.writing_buffer) in
      record {
        inv = w;
        busy = write_on-Busy (written m c) refl;
        same_accepted = o.took_none;
        same_open = o.still_open ∙ sock.is_open-other (wrote sent) c.trace refl;
        fewer = omega (
          arith,
          pending-lem c v,
          pending-lem c' w,
          ap length o.took_none,
          ap length o.sent_none,
          length-append (delivered c.trace) sent,
          length-take m (at_read_begin c.writing_buffer),
          ap length (at_read_begin-readable v.writing_valid),
          length-readable v.writing_valid,
        );
      }

  -- Where no write runs, all was sent.
  idle-sent :
      (c : Conn)
      → Inv sock c
      → sock.is_open c.trace ≡ true
      → c.async_writing ≡ false
      → delivered c.trace ≡ accepted c.trace
  idle-sent c v o i =
      let (a, b) = v.drained i o in
      let e : delivered c.trace ++ ([] ++ []) ≡ accepted c.trace = rw (a, b) at (v.in_order) in
      sym (append-nil (delivered c.trace)) ∙ e

  -- The completions `ns` end with no write running, and all sent that was taken.
  abbrev GetsOut : List ℕ → Conn → Type 0
  GetsOut ns c =
      (c' : Conn) × (complete ns c ≡ ok c')
      × (c'.async_writing ≡ false)
      × (delivered c'.trace ≡ accepted c.trace)

  complete-idle : (ns : List ℕ) (c : Conn) → c.async_writing ≡ false → complete ns c ≡ ok c
  unfolding complete
  complete-idle [] c i = refl
  complete-idle (n ∷ ns) c i = rw i refl

  idle-GetsOut :
      (ns : List ℕ) (c : Conn)
      → Inv sock c
      → sock.is_open c.trace ≡ true
      → c.async_writing ≡ false
      → GetsOut ns c
  idle-GetsOut ns c v o i = (c, complete-idle ns c i, i, idle-sent c v o i)

  -- What one completion leaves.
  abbrev onward : ℕ → Conn → Conn
  onward n c = write_on (written (min (suc n) (size c.writing_buffer)) c)

  complete-busy :
      (n : ℕ) (ns : List ℕ) (c : Conn)
      → c.async_writing ≡ true
      → complete (n ∷ ns) c ≡ complete ns (onward n c)
  unfolding complete handle_write written
  complete-busy n ns c w = rw w refl

  one_more :
      (n : ℕ) (ns : List ℕ) (c : Conn)
      → c.async_writing ≡ true
      → Completed c (min (suc n) (size c.writing_buffer)) (onward n c)
      → GetsOut ns (onward n c)
      → GetsOut (n ∷ ns) c
  one_more n ns c w k (c', e, i, d) = (c', complete-busy n ns c w ∙ e, i, d ∙ k.same_accepted)

  drains :
      (ns : List ℕ) (c : Conn)
      → Inv sock c
      → sock.is_open c.trace ≡ true
      → Busy c
      → pending c ≤ length ns
      → GetsOut ns c
  drains [] c v o b h = elim (Bool-cases c.async_writing) [
    | inl w ↦ absurd (omega (arith, b w, h))
    | inr i ↦ idle-GetsOut [] c v o i
  ]
  drains (n ∷ ns) c v o b h = elim (Bool-cases c.async_writing) [
    | inr i ↦ idle-GetsOut (n ∷ ns) c v o i
    | inl w ↦
        let k = written-Completed (min (suc n) (size c.writing_buffer)) c v (omega arith) in
        one_more n ns c w k
          (drains ns (onward n c) k.inv (k.same_open ∙ o) k.busy (omega (arith, k.fewer, b w, h)))
  ]

  -- A new connection after any sequence of events, with callbacks that keep the invariant and completions
  -- of at most the bytes offered: if its socket is open and its writes then complete, one after the
  -- other and each with at least one byte, then after one completion more than bytes are pending at
  -- the latest no write runs, and all that the connection took to send was sent.
  pub all_gets_out :
      (name : List ℕ) (l r : Endpoint) (ns : List ℕ) {c : Conn}
      → Keeps app (Inv sock)
      → Runs sock app (TcpConn.make name l r []) c
      → sock.is_open c.trace ≡ true
      → pending c < length ns
      → (c' : Conn) × (complete ns c ≡ ok c')
        × (c'.async_writing ≡ false)
        × (delivered c'.trace ≡ accepted c.trace)
  all_gets_out name l r [] k run o h = absurd (omega (arith, h))
  all_gets_out name l r (n ∷ ns) {c} k run o h =
      let v = Runs-Inv sock app k run (make-Inv sock name l r) in
      elim (Bool-cases c.async_writing) [
        | inr i ↦ idle-GetsOut (n ∷ ns) c v o i
        | inl w ↦
            let d = written-Completed (min (suc n) (size c.writing_buffer)) c v (omega arith) in
            one_more n ns c w d
              (drains ns (onward n c) d.inv (d.same_open ∙ o) d.busy (omega (arith, d.fewer, h)))
      ]
