-- ===== src/Link/Duplex.antt =====
-- Two connections (src/tcp_conn.cc) and a wire in each direction, so that what an application is shown
-- can make it send. Each direction is a link, and what the other direction does is an act of its ends.
use libasio.Prelude.{ℕ, ◌≡◌, refl, false, List, [], ◌++◌, take, ok}
use libasio.ByteBuffer.{at_read_begin}
use libasio.ByteBuffer.Bytes.{readable}
use libasio.TcpConn
use libasio.TcpConn.Types.{success, Endpoint, Conn, Callbacks}
use libasio.TcpConn.Socket.{Socket}
use libasio.TcpConn.Stream.{Inv, Keeps, accepted}
use libasio.TcpConn.Events.{Event, read_done, write_done, Allowed, step, Runs, here, next}
use libasio.TcpConn.Traffic.{messages}
use libasio.TcpConn.Traffic.Steps.{Consuming, is_read, is_write}
use libasio.Link
use libasio.Link.{Link}
use libasio.Link.Arrival.{bytes_arrive}

pub record Duplex : Type 0 where
  pub left : Conn
  pub right : Conn
  pub there : List ℕ  -- on the way from the left to the right, oldest first
  pub back : List ℕ

-- Its two directions.
abbrev pub outward : Duplex → Link
outward k = record { from = k.left; to = k.right; wire = k.there }

abbrev pub homeward : Duplex → Link
homeward k = record { from = k.right; to = k.left; wire = k.back }

abbrev pub connect_both : (name name' : List ℕ) (l r l' r' : Endpoint) → Duplex
connect_both n n' l r l' r' = record {
  left = TcpConn.make n l r [];
  right = TcpConn.make n' l' r' [];
  there = [];
  back = [];
}

-- What was shown at the other end, then what travels, then what waits, is what was taken to send.
abbrev pub Arriving : Link → Type 0
Arriving k =
    messages k.to.trace
      ++ (k.wire ++ (readable k.from.writing_buffer ++ readable k.from.write_buffer))
    ≡ accepted k.from.trace

module _ (sock sock' : Socket) (app app' : Callbacks) where
  pub data Move (k : Duplex) : Duplex → Type 0 where
    left_writes :
        (n : ℕ) {c : Conn}
        → Allowed (write_done success n) k.left
        → step sock app (write_done success n) k.left ≡ ok c
        → Move k
            (record k { left = c; there = k.there ++ take n (at_read_begin k.left.writing_buffer) })
    left_reads :
        (d rest : List ℕ) {c : Conn}
        → k.back ≡ d ++ rest
        → Allowed (read_done success d) k.left
        → step sock app (read_done success d) k.left ≡ ok c
        → Move k (record k { left = c; back = rest })
    left_acts :
        (e : Event) {c : Conn}
        → is_read e ≡ false
        → is_write e ≡ false
        → Allowed e k.left
        → step sock app e k.left ≡ ok c
        → Move k (record k { left = c })
    right_writes :
        (n : ℕ) {c : Conn}
        → Allowed (write_done success n) k.right
        → step sock' app' (write_done success n) k.right ≡ ok c
        → Move k
            (record k { right = c; back = k.back ++ take n (at_read_begin k.right.writing_buffer) })
    right_reads :
        (d rest : List ℕ) {c : Conn}
        → k.there ≡ d ++ rest
        → Allowed (read_done success d) k.right
        → step sock' app' (read_done success d) k.right ≡ ok c
        → Move k (record k { right = c; there = rest })
    right_acts :
        (e : Event) {c : Conn}
        → is_read e ≡ false
        → is_write e ≡ false
        → Allowed e k.right
        → step sock' app' e k.right ≡ ok c
        → Move k (record k { right = c })

  pub data Reach (k : Duplex) : Duplex → Type 0 where
    start : Reach k k
    later : {k' k'' : Duplex} → Reach k k' → Move k' k'' → Reach k k''

  Move-outward :
      {k k' : Duplex} → Move k k' → Link.Move sock sock' app app' (outward k) (outward k')
  Move-outward (left_writes n a e) = Link.from_writes n a e
  Move-outward (left_reads d rest q a e) = Link.from_acts (read_done success d) refl a e
  Move-outward (left_acts x r w a e) = Link.from_acts x w a e
  Move-outward (right_writes n a e) = Link.to_acts (write_done success n) refl a e
  Move-outward (right_reads d rest q a e) = Link.to_reads d rest q a e
  Move-outward (right_acts x r w a e) = Link.to_acts x r a e

  Move-homeward :
      {k k' : Duplex} → Move k k' → Link.Move sock' sock app' app (homeward k) (homeward k')
  Move-homeward (left_writes n a e) = Link.to_acts (write_done success n) refl a e
  Move-homeward (left_reads d rest q a e) = Link.to_reads d rest q a e
  Move-homeward (left_acts x r w a e) = Link.to_acts x r a e
  Move-homeward (right_writes n a e) = Link.from_writes n a e
  Move-homeward (right_reads d rest q a e) = Link.from_acts (read_done success d) refl a e
  Move-homeward (right_acts x r w a e) = Link.from_acts x w a e

  Reach-outward :
      {k k' : Duplex} → Reach k k' → Link.Reach sock sock' app app' (outward k) (outward k')
  Reach-outward start = Link.start
  Reach-outward (later r m) = Link.later (Reach-outward r) (Move-outward m)

  pub Reach-homeward :
      {k k' : Duplex} → Reach k k' → Link.Reach sock' sock app' app (homeward k) (homeward k')
  Reach-homeward start = Link.start
  Reach-homeward (later r m) = Link.later (Reach-homeward r) (Move-homeward m)

  -- What happened to the right end alone.
  abbrev pub right_run : {k k' : Duplex} → Reach k k' → Runs sock' app' k.right k'.right
  right_run start = here
  right_run (later r (left_writes n a e)) = right_run r
  right_run (later r (left_reads d rest q a e)) = right_run r
  right_run (later r (left_acts x o w a e)) = right_run r
  right_run (later r (right_writes n a e)) = next (write_done success n) (right_run r) a e
  right_run (later r (right_reads d rest q a e)) = next (read_done success d) (right_run r) a e
  right_run (later r (right_acts x o w a e)) = next x (right_run r) a e

  -- Two new connections and a wire in each direction, with applications that keep the invariant and
  -- take what they are shown: after any sequence of moves, in both directions, what the application
  -- at the end was shown, then what travels, then what the other connection writes and what waits
  -- there, is all that this connection took to send, in order.
  pub dialogue_arrives :
      Keeps app (Inv sock)
      → Consuming app
      → Keeps app' (Inv sock')
      → Consuming app'
      → (n n' : List ℕ) (l r l' r' : Endpoint) {k : Duplex} → Reach (connect_both n n' l r l' r') k
      → Arriving (outward k) × Arriving (homeward k)
  dialogue_arrives keeps takes keeps' takes' n n' l r l' r' reach = (
    bytes_arrive sock sock' app app' keeps takes.honest takes' n n' l r l' r' (Reach-outward reach),
    bytes_arrive sock' sock app' app keeps' takes'.honest takes n' n l' r' l r
        (Reach-homeward reach),
  )
