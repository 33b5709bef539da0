-- ===== src/Link.antt =====
-- Two connections (src/tcp_conn.cc) and the network between them, in one direction: what the one writes
-- travels on a wire, which keeps the order, and the other reads it from there. The other direction
-- is a link too; what `from` reads is any bytes here, and what `to` writes goes anywhere.
pub mod Arrival
pub mod Duplex
use libasio.Prelude.{ℕ, ◌≡◌, false, List, [], ◌++◌, take, ok}
use libasio.ByteBuffer.{at_read_begin}
use libasio.TcpConn
use libasio.TcpConn.Types.{success, Endpoint, Conn, Callbacks}
use libasio.TcpConn.Socket.{Socket}
use libasio.TcpConn.Events.{Event, read_done, write_done, Allowed, step}
use libasio.TcpConn.Traffic.Steps.{is_read, is_write}

pub record Link : Type 0 where
  pub from : Conn
  pub to : Conn
  pub wire : List ℕ  -- written and not yet read, oldest first

-- Two new connections.
abbrev pub connect_ends : (name name' : List ℕ) (l r l' r' : Endpoint) → Link
connect_ends n n' l r l' r' = record {
  from = TcpConn.make n l r [];
  to = TcpConn.make n' l' r' [];
  wire = [];
}

module _ (sock sock' : Socket) (app app' : Callbacks) where
  -- What may happen next. `async_write_some` that fails has sent nothing, and a read takes what it
  -- likes of what is there.
  pub data Move (k : Link) : Link → Type 0 where
    from_writes :
        (n : ℕ) {c : Conn}
        → Allowed (write_done success n) k.from
        → step sock app (write_done success n) k.from ≡ ok c
        → Move k
            (record k { from = c; wire = k.wire ++ take n (at_read_begin k.from.writing_buffer) })
    from_acts :
        (e : Event) {c : Conn}
        → is_write e ≡ false
        → Allowed e k.from
        → step sock app e k.from ≡ ok c
        → Move k (record k { from = c })
    to_reads :
        (d rest : List ℕ) {c : Conn}
        → k.wire ≡ d ++ rest
        → Allowed (read_done success d) k.to
        → step sock' app' (read_done success d) k.to ≡ ok c
        → Move k (record k { to = c; wire = rest })
    to_acts :
        (e : Event) {c : Conn}
        → is_read e ≡ false
        → Allowed e k.to
        → step sock' app' e k.to ≡ ok c
        → Move k (record k { to = c })

  pub data Reach (k : Link) : Link → Type 0 where
    start : Reach k k
    later : {k' k'' : Link} → Reach k k' → Move k' k'' → Reach k k''
