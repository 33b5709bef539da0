-- ===== src/Tests/Links.antt =====
-- An echo client and an echo server over a link: the greeting is written, travels and is read.
use libasio.Prelude.{◌≡◌, refl, ◌++◌, [], some, codes, Result, arith}
use libasio.ByteBuffer.{
  write, estimate_size, memcpy_at_write_begin, write_bytes, read_bytes, size, valid_size,
  at_read_begin, default, swap, normalize, memmove_to_front,
}
use libasio.ByteBuffer.Bytes.{readable}
use libasio.TcpConn.{
  make, set_conn_callback, set_message_callback, is_connected, store, async_write, async_read,
  swap_buffers,
}
use libasio.TcpConn.Types.{Conn}
use libasio.TcpConn.Handlers.{
  on_attached_to_loop, must_notify_conn, must_notify_message, send, send_in_loop, send_idle,
  handle_read, handle_write, written, write_on,
}
use libasio.TcpConn.Stream.{accepted}
use libasio.TcpConn.Events.{Event, attached, set_conn, set_message, step, filled}
use libasio.TcpConn.Traffic.{messages}
use libasio.Echo.{client, server, on_connection, on_message, consume_all}
use libasio.Echo.Safe.{client-Keeps, server-Keeps}
use libasio.Echo.Answers.{repeated}
use libasio.TcpConn.Taking.{asked}
use libasio.Echo.Traffic.{client-Consuming, server-Consuming}
use libasio.Link.{
  Link, connect_ends, Reach, start, later, from_writes, from_acts, to_reads, to_acts,
}
use libasio.Link.Arrival.{bytes_arrive, all_arrived}
use libasio.Link.Duplex
use libasio.Link.Duplex.{
  Duplex, connect_both, left_writes, left_reads, left_acts, right_writes, right_reads, right_acts,
  dialogue_arrives,
}
use libasio.Echo.Dialogue.{client_hears}
use libasio.Tests.Conns.{plain, nowhere}

abbrev ends : Link
ends = connect_ends (codes "c") (codes "s") nowhere nowhere nowhere nowhere

-- All that the two run.
abbrev run_both : (Event → Conn → Result Conn) × (Event → Conn → Result Conn)
unfolding step filled set_conn_callback set_message_callback on_attached_to_loop must_notify_conn
    must_notify_message client server on_connection on_message consume_all normalize
    memmove_to_front is_connected send send_in_loop send_idle store write estimate_size
    memcpy_at_write_begin write_bytes read_bytes size valid_size at_read_begin async_write
    async_read handle_read handle_write written write_on make default swap_buffers swap
run_both = (step plain (client plain), step plain (server plain))

abbrev listening : (k : Link) × Reach plain plain (client plain) (server plain) ends k
unfolding run_both
listening = (
  _,
  later
      (later (later start (to_acts (set_message (some 1)) refl tt refl))
        (to_acts (set_conn (some 0)) refl tt refl))
      (to_acts attached refl tt refl),
)

abbrev greeted : (k : Link) × Reach plain plain (client plain) (server plain) ends k
unfolding run_both
greeted = (
  _,
  later
      (later (later listening.1 (from_acts (set_conn (some 0)) refl tt refl))
        (from_acts attached refl tt refl))
      (from_writes 17 (omega arith) refl),
)

abbrev heard : (k : Link) × Reach plain plain (client plain) (server plain) ends k
unfolding run_both
heard = (_, later greeted.1 (to_reads (codes "client say hello!") [] refl (omega arith) refl))

-- While six bytes were read.
abbrev half_heard : (k : Link) × Reach plain plain (client plain) (server plain) ends k
unfolding run_both
half_heard =
    (_, later greeted.1 (to_reads (codes "client") (codes " say hello!") refl (omega arith) refl))

bytes_arrive_example :
    let k = half_heard.0 in
    messages k.to.trace
      ++ (k.wire ++ (readable k.from.writing_buffer ++ readable k.from.write_buffer))
    ≡ accepted k.from.trace
bytes_arrive_example =
    bytes_arrive plain plain (client plain) (server plain) (client-Keeps plain)
      (client-Consuming plain).honest (server-Consuming plain) (codes "c") (codes "s") nowhere
      nowhere nowhere nowhere half_heard.1

all_arrived_example : messages heard.0.to.trace ≡ accepted heard.0.from.trace
unfolding run_both
all_arrived_example =
    all_arrived plain plain (client plain) (server plain) (client-Keeps plain)
      (client-Consuming plain).honest (server-Consuming plain) (codes "c") (codes "s") nowhere
      nowhere nowhere nowhere heard.1 refl refl refl

-- A dialogue of the same two over two wires.
abbrev both : Duplex
both = connect_both (codes "c") (codes "s") nowhere nowhere nowhere nowhere

abbrev Said : Duplex → Type 0
Said k = Duplex.Reach plain plain (client plain) (server plain) both k

abbrev attached_both : (k : Duplex) × Said k
unfolding run_both
attached_both =
    let s₁ = Duplex.later Duplex.start (right_acts (set_message (some 1)) refl refl tt refl) in
    let s₂ = Duplex.later s₁ (right_acts (set_conn (some 0)) refl refl tt refl) in
    let s₃ = Duplex.later s₂ (right_acts attached refl refl tt refl) in
    let s₄ = Duplex.later s₃ (left_acts (set_message (some 1)) refl refl tt refl) in
    let s₅ = Duplex.later s₄ (left_acts (set_conn (some 0)) refl refl tt refl) in
    (_, Duplex.later s₅ (left_acts attached refl refl tt refl))

abbrev asked_once : (k : Duplex) × Said k
unfolding run_both
asked_once =
    let s₁ = Duplex.later attached_both.1 (left_writes 17 (omega arith) refl) in
    (_, Duplex.later s₁ (right_reads (codes "client say hello!") [] refl (omega arith) refl))

-- The answer was written, and six bytes of it were read.
abbrev answered : (k : Duplex) × Said k
unfolding run_both
answered =
    let s₁ = Duplex.later asked_once.1 (right_writes 17 (omega arith) refl) in
    (_, Duplex.later s₁ (left_reads (codes "server") (codes " say hello!") refl (omega arith) refl))

dialogue_arrives_example :
    Duplex.Arriving (Duplex.outward answered.0) × Duplex.Arriving (Duplex.homeward answered.0)
dialogue_arrives_example =
    dialogue_arrives plain plain (client plain) (server plain) (client-Keeps plain)
      (client-Consuming plain) (server-Keeps plain) (server-Consuming plain) (codes "c") (codes "s")
      nowhere nowhere nowhere nowhere answered.1

client_hears_example :
    let k = answered.0 in
    messages k.left.trace
      ++ (k.back ++ (readable k.right.writing_buffer ++ readable k.right.write_buffer))
    ≡ repeated (asked plain k.right.trace) (codes "server say hello!")
unfolding run_both
client_hears_example =
    client_hears plain plain (client plain) (codes "c") (codes "s") nowhere nowhere nowhere nowhere
      (client-Consuming plain) answered.1 (refl, (refl, (refl, (refl, (refl, tt)))))
