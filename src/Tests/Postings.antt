-- ===== src/Tests/Postings.antt =====
-- Other threads send on a connection while its loop runs.
use libasio.Prelude.{codes, ◌≡◌, refl, ◌++◌, [], ◌∷◌, ok-injective, arith}
use libasio.ByteBuffer.{
  write, estimate_size, memcpy_at_write_begin, write_bytes, read_bytes, size, valid_size,
  at_read_begin, default,
}
use libasio.ByteBuffer.Bytes.{readable}
use libasio.EventLoop
use libasio.EventLoop.{
  EventLoop, user, is_in_loop_thread, run_in_loop, queue_in_loop, run_task, begin_run,
}
use libasio.TcpConn.{make, store, async_write, swap_buffers}
use libasio.TcpConn.Types.{success}
use libasio.TcpConn.Handlers.{send, send_in_loop, send_idle, handle_write, written, write_on}
use libasio.TcpConn.Stream.{delivered}
use libasio.TcpConn.Quiet.{posted, same}
use libasio.TcpConn.Events.{write_done, step}
use libasio.TcpConn.Posting.{
  Job, send_string, another, Posting, bytes_of, send_by, send_elsewhere, Reach, start, later, sends,
  takes_send, takes_other, queues_other, happens,
}
use libasio.TcpConn.Posting.Rest.{Restful}
use libasio.TcpConn.Posting.Order.{posted_in_order}
use libasio.Echo.{silent}
use libasio.Echo.Safe.{silent-Keeps}
use libasio.Tests.Conns.{plain, nowhere}

silent-Restful : Restful silent
silent-Restful = record {
  quiet = record {
    conn = λ f {c} {c'} e. rw (← ok-injective e) same;
    high_water = λ f n {c} {c'} e. rw (← ok-injective e) same;
    close = λ f {c} {c'} e. rw (← ok-injective e) same;
  };
  message = λ f {c} {c'} e. rw (← ok-injective e) same;
}

abbrev running : EventLoop Job
unfolding begin_run EventLoop.make
running = begin_run 1 (EventLoop.make 0)

abbrev fresh : Posting
unfolding make default
fresh = record { conn = make (codes "c") nowhere nowhere []; loop = running }

-- Two threads send, the loop takes the first task, and one byte of it is written.
abbrev handed : (s : Posting) × Reach plain silent fresh s
unfolding running fresh begin_run EventLoop.make step send send_in_loop send_idle store write
    estimate_size memcpy_at_write_begin write_bytes read_bytes size valid_size at_read_begin
    async_write handle_write written write_on make default swap_buffers send_by send_elsewhere
    is_in_loop_thread run_in_loop queue_in_loop run_task
handed =
    let s₁ = later start (sends 5 (1 ∷ 2 ∷ []) refl refl) in
    let s₂ = later s₁ (queues_other (user (another 0)) refl) in
    let s₃ = later s₂ (sends 7 (3 ∷ []) refl refl) in
    let s₄ =
      later s₃
        (takes_send (1 ∷ 2 ∷ []) (user (another 0) ∷ user (send_string (3 ∷ [])) ∷ []) refl refl) in
    let s₅ =
      later s₄ (takes_other (user (another 0)) (user (send_string (3 ∷ [])) ∷ []) refl refl) in
    (_, later s₅ (happens (write_done success 1) refl (omega arith) refl))

posted_in_order_example :
    let s = handed.0 in
    delivered s.conn.trace
      ++ ((readable s.conn.writing_buffer ++ readable s.conn.write_buffer) ++ bytes_of s.loop.queue)
    ≡ posted s.conn.trace
unfolding running handed fresh begin_run EventLoop.make
posted_in_order_example =
    posted_in_order plain silent (codes "c") nowhere nowhere running (silent-Keeps _) silent-Restful
      refl handed.1 refl
