-- ===== src/Link/Arrival.antt =====
-- What the one end of a link takes to send is what the other end is shown.
use libasio.Prelude.{
  ℕ, ◌≡◌, refl, sym, ap, ◌∙◌, true, false, List, [], ◌++◌, append_assoc, append-nil, take, ok,
}
use libasio.ByteBuffer.{at_read_begin}
use libasio.ByteBuffer.Valid.{IsValid, default-IsValid}
use libasio.ByteBuffer.Bytes.{readable, readable-default}
use libasio.TcpConn
use libasio.TcpConn.Types.{success, Endpoint, Conn, Callbacks}
use libasio.TcpConn.Socket.{Socket}
use libasio.TcpConn.Stream.{Inv, Keeps, accepted, delivered}
use libasio.TcpConn.Events.{Event, read_done, write_done, step}
use libasio.TcpConn.Events.Safe.{make-Inv, step-Inv}
use libasio.TcpConn.Traffic.{messages}
use libasio.TcpConn.Traffic.Steps.{
  Honest, Consuming, is_read, is_write, step-Calm, step-write, step-read_sent, step-read,
}
use libasio.Link.{
  Link, connect_ends, Move, from_writes, from_acts, to_reads, to_acts, Reach, start, later,
}

-- Any event but a successful write sends nothing.
step-sent :
    (sock : Socket) (app : Callbacks) (e : Event) (c : Conn) {c' : Conn}
    → Honest app
    → is_write e ≡ false
    → step sock app e c ≡ ok c'
    → delivered c'.trace ≡ delivered c.trace
step-sent sock app (read_done success d) c h w e = step-read_sent sock app d c h e
step-sent sock app x c h w e = (step-Calm sock app x h.aside refl w e).sent

-- Any event but a successful read leaves the receive buffer as it is, and shows nothing.
step-heard :
    (sock : Socket) (app : Callbacks) (e : Event) (c : Conn) {c' : Conn}
    → Honest app
    → is_read e ≡ false
    → IsValid c.recv_buffer
    → step sock app e c ≡ ok c'
    → IsValid c'.recv_buffer
      × (readable c'.recv_buffer ≡ readable c.recv_buffer)
      × (messages c'.trace ≡ messages c.trace)
step-heard sock app (write_done success n) c h r v e =
    let (b, m, s) = step-write sock app n c e in (rw b v, rw b refl, m)
step-heard sock app x c h r v e =
    let s = step-Calm sock app x h.aside r refl e in (s.valid v, s.unread v, s.heard)

module _ (sock sock' : Socket) (app app' : Callbacks) where
  -- What was shown, then what travels, is what was sent; and nothing waits to be shown.
  record InOrder (k : Link) : Type 0 where
    sender : Inv sock k.from
    receiver : IsValid k.to.recv_buffer
    taken : readable k.to.recv_buffer ≡ []
    travels : messages k.to.trace ++ k.wire ≡ delivered k.from.trace

  module _ (keeps : Keeps app (Inv sock)) (honest : Honest app) (consuming : Consuming app') where
    Move-InOrder : {k k' : Link} → Move sock sock' app app' k k' → InOrder k → InOrder k'
    Move-InOrder {k} (from_writes n a e) i =
        let (b, m, s) = step-write sock app n k.from e in
        record {
          sender = step-Inv sock app keeps (write_done success n) a e i.sender;
          receiver = i.receiver;
          taken = i.taken;
          travels =
              sym (
                append_assoc (messages k.to.trace) k.wire
                  (take n (at_read_begin k.from.writing_buffer)))
              ∙ (ap (◌++ take n (at_read_begin k.from.writing_buffer)) i.travels ∙ sym s);
        }
    Move-InOrder {k} (from_acts x w a e) i = record {
      sender = step-Inv sock app keeps x a e i.sender;
      receiver = i.receiver;
      taken = i.taken;
      travels = i.travels ∙ sym (step-sent sock app x k.from honest w e);
    }
    Move-InOrder {k} (to_reads d rest q a e) i =
        let (v, r, m) = step-read sock' app' d k.to consuming i.receiver i.taken a e in
        record {
          sender = i.sender;
          receiver = v;
          taken = r;
          travels =
              ap (◌++ rest) m
              ∙ (append_assoc (messages k.to.trace) d rest
                  ∙ (ap (◌++◌ (messages k.to.trace)) (sym q) ∙ i.travels));
        }
    Move-InOrder {k} (to_acts x r a e) i =
        let (v, u, m) = step-heard sock' app' x k.to consuming.honest r i.receiver e in
        record {
          sender = i.sender;
          receiver = v;
          taken = u ∙ i.taken;
          travels = ap (◌++ k.wire) m ∙ i.travels;
        }

    Reach-InOrder : {k k' : Link} → Reach sock sock' app app' k k' → InOrder k → InOrder k'
    Reach-InOrder start i = i
    Reach-InOrder (later r m) i = Move-InOrder m (Reach-InOrder r i)

    connect_ends-InOrder :
        (n n' : List ℕ) (l r l' r' : Endpoint) → InOrder (connect_ends n n' l r l' r')
    unfolding TcpConn.make
    connect_ends-InOrder n n' l r l' r' = record {
      sender = make-Inv sock n l r;
      receiver = default-IsValid;
      taken = readable-default;
      travels = refl;
    }

    -- Two new connections and a wire, with an application on the one end that keeps the invariant
    -- and shows and sends nothing behind its connection's back, and one on the other end that takes
    -- what it is shown: after any sequence of moves, what the application on the other end was
    -- shown, then what travels, then what the connection writes and what waits there, is all that
    -- the connection took to send, in order.
    pub bytes_arrive :
        (n n' : List ℕ) (l r l' r' : Endpoint) {k : Link}
        → Reach sock sock' app app' (connect_ends n n' l r l' r') k
        → messages k.to.trace
            ++ (k.wire ++ (readable k.from.writing_buffer ++ readable k.from.write_buffer))
          ≡ accepted k.from.trace
    bytes_arrive n n' l r l' r' {k} reach =
        let i = Reach-InOrder reach (connect_ends-InOrder n n' l r l' r') in
        let waits = readable k.from.writing_buffer ++ readable k.from.write_buffer in
        sym (append_assoc (messages k.to.trace) k.wire waits)
        ∙ (ap (◌++ waits) i.travels ∙ i.sender.in_order)

    -- With the same applications: once nothing travels and no write runs on the open socket, the
    -- application on the other end was shown all that the connection took to send, and no more.
    pub all_arrived :
        (n n' : List ℕ) (l r l' r' : Endpoint) {k : Link}
        → Reach sock sock' app app' (connect_ends n n' l r l' r') k
        → k.wire ≡ []
        → k.from.async_writing ≡ false
        → sock.is_open k.from.trace ≡ true
        → messages k.to.trace ≡ accepted k.from.trace
    all_arrived n n' l r l' r' {k} reach empty idle o =
        let i = Reach-InOrder reach (connect_ends-InOrder n n' l r l' r') in
        let d = i.sender.drained idle o in
        let e : messages k.to.trace ++ ([] ++ ([] ++ [])) ≡ accepted k.from.trace =
          rw (empty, d.0, d.1) at (bytes_arrive n n' l r l' r' reach) in
        sym (append-nil (messages k.to.trace)) ∙ e
