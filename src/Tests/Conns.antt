-- ===== src/Tests/Conns.antt =====
-- `TCPConn` at concrete inputs: an echo client that connects, says hello and is answered.
use libasio.Prelude.{
  codes, replicate, ok, ◌+◌, ◌++◌, ◌≤◌, length, inl, ok-injective, ◌≡◌, refl, true, false, Bool,
  List, [], ◌∷◌, some, arith, Result,
}
use libasio.TcpConn.Types.{
  connected, disconnected, disconnecting, call_conn, call_close, eof, Action, close_socket,
  Endpoint, Conn, success,
}
use libasio.TcpConn.Socket.{Socket, is_close}
use libasio.ByteBuffer.{
  write, estimate_size, memcpy_at_write_begin, write_bytes, read_bytes, size, valid_size,
  at_read_begin, default, swap,
}
use libasio.TcpConn.{
  make, set_message_callback, set_conn_callback, is_connected, store, async_write, async_read,
  swap_buffers,
}
use libasio.TcpConn.Closing.{Quiet, close_calls, close_calls-failed}
use libasio.ByteBuffer.{capacity}
use libasio.ByteBuffer.Bytes.{readable}
use libasio.TcpConn.Handlers.{
  handle_read, handle_close, close_and_notify, close_if_open, notify_conn, notify_close,
  on_attached_to_loop, must_notify_message, must_notify_conn, send, send_in_loop, send_idle,
  handle_write, written, write_on,
}
use libasio.TcpConn.Events.Returns.{step-returns}
use libasio.TcpConn.Events.{
  read_done, filled, set_message, Event, attached, set_conn, write_done, Runs, here, next, step,
}
use libasio.TcpConn.Stream.{accepted, delivered, last_write}
use libasio.Echo.Safe.{client-Keeps}
use libasio.TcpConn.Events.Safe.{stream_in_order, all_sent, storage_grows, write_untouched}
use libasio.TcpConn.Events.Drain.{complete, all_gets_out}
use libasio.Echo.{silent, client, on_connection}

-- A socket that stays open until it is closed.
abbrev pub open_until_close : List Action → Bool
open_until_close [] = true
open_until_close (close_socket ∷ t) = false
open_until_close (_ ∷ t) = open_until_close t

pub is_open-other :
    (a : Action) (t : List Action)
    → is_close a ≡ false
    → open_until_close (a ∷ t) ≡ open_until_close t
is_open-other close_socket t h = cc
is_open-other a t h = refl

abbrev pub plain : Socket
plain = record {
  is_open = open_until_close;
  is_open-close = λ t. refl;
  is_open-other = is_open-other;
}

abbrev pub nowhere : Endpoint
nowhere = record { address = []; port = 0 }

-- `step`, with all that a run of the echo client computes with.
abbrev client_step : Event → Conn → Result Conn
unfolding step set_conn_callback on_attached_to_loop must_notify_conn client on_connection
    is_connected send send_in_loop send_idle store write estimate_size memcpy_at_write_begin
    write_bytes read_bytes size valid_size at_read_begin async_write async_read handle_write written
    write_on make default swap_buffers swap
client_step = step plain (client plain)

abbrev greeted : (c : Conn) × Runs plain (client plain) (make [] nowhere nowhere []) c
unfolding client_step
greeted = (
  _,
  next (write_done success 17) (next attached (next (set_conn (some 0)) here tt refl) tt refl)
      (omega arith) refl,
)

stream_in_order_example :
    let c = greeted.0 in
    delivered c.trace ++ (readable c.writing_buffer ++ readable c.write_buffer) ≡ accepted c.trace
stream_in_order_example =
    stream_in_order plain (client plain) (client-Keeps plain) [] nowhere nowhere greeted.1

all_sent_example : delivered greeted.0.trace ≡ accepted greeted.0.trace
unfolding client_step
all_sent_example =
    all_sent plain (client plain) (client-Keeps plain) [] nowhere nowhere greeted.1 refl refl

storage_grows_example :
    let c = greeted.0 in
    length (accepted c.trace) ≤ capacity c.writing_buffer + capacity c.write_buffer
storage_grows_example =
    storage_grows plain (client plain) (client-Keeps plain) [] nowhere nowhere greeted.1

-- The same client while its greeting is being written.
abbrev greeting : (c : Conn) × Runs plain (client plain) (make [] nowhere nowhere []) c
unfolding client_step
greeting = (_, next attached (next (set_conn (some 0)) here tt refl) tt refl)

write_untouched_example :
    last_write greeting.0.trace ≡ some (at_read_begin greeting.0.writing_buffer)
unfolding client_step
write_untouched_example =
    write_untouched plain (client plain) (client-Keeps plain) [] nowhere nowhere greeting.1 refl

pub silent-Quiet : Quiet silent
silent-Quiet = record {
  conn = λ f {c} {c'} e. rw (ok-injective e) (refl, refl);
  close = λ f {c} {c'} e. rw (ok-injective e) (refl, refl);
}

-- A connection with both callbacks that is connected.
abbrev up : Conn
up = record (make [] nowhere nowhere []) {
  status = connected;
  conn_fn = some 0;
  close_fn = some 1;
  async_writing = true;
}

abbrev down : Conn
down = record up {
  status = disconnected;
  trace = call_close disconnecting ∷ call_conn disconnecting ∷ close_socket ∷ [];
}

abbrev down_again : Conn
down_again = record down {
  trace = call_close disconnecting ∷ call_conn disconnecting ∷ down.trace;
  async_writing = false;
}

close_calls-failed_example :
    (down.close_fn ≡ some 1) × (close_calls down.trace ≡ close_calls up.trace + 1)
unfolding make handle_read handle_close close_and_notify close_if_open notify_conn notify_close
close_calls-failed_example =
    close_calls-failed plain silent up down eof 0 1 silent-Quiet refl (λ x. cc) (inl refl)

-- A connection with a message callback, that is read five bytes.
abbrev listener : Conn
unfolding make
listener = record (make [] nowhere nowhere []) { status = connected; msg_fn = some 1 }

step-returns_example :
    (c : Conn) × (step plain silent (read_done success (codes "hello")) listener ≡ ok c)
unfolding listener
step-returns_example =
    step-returns plain silent
      (record {
        conn = λ f c. (c, refl);
        message = λ f c. (c, refl);
        high_water = λ f n c. (c, refl);
        close = λ f c. (c, refl);
      })
      (read_done success (codes "hello")) listener tt

-- Five bytes arrive, which the application leaves in the buffer.
abbrev unread : (c : Conn) × Runs plain silent (make [] nowhere nowhere []) c
unfolding step set_message_callback handle_read must_notify_message filled async_read write_bytes
    memcpy_at_write_begin make default valid_size
unread = (
  _,
  next (read_done success (codes "hello")) (next (set_message (some 1)) here tt refl) (omega arith)
      refl,
)

-- The greeting gets out, however its writes are cut.
all_gets_out_example :
    (c : Conn) × (complete plain (client plain) (replicate 18 0) greeting.0 ≡ ok c)
    × (c.async_writing ≡ false)
    × (delivered c.trace ≡ accepted greeting.0.trace)
unfolding client_step
all_gets_out_example =
    all_gets_out plain (client plain) [] nowhere nowhere (replicate 18 0) (client-Keeps plain)
      greeting.1 refl (omega arith)
