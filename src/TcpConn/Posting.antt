-- ===== src/TcpConn/Posting.antt =====
-- A `TCPConn` (src/tcp_conn.cc) and the `EventLoop` (src/event_loop.cc) that runs it, while other threads
-- call `Send`. What they send is bound to a task of `SendStringInLoop`, which the loop runs later.
pub mod Rest
pub mod Order
use libasio.Prelude.{
  ℕ, Bool, ◌≡◌, false, List, [], ◌∷◌, ◌++◌, Result, ok, ◌>>=◌, if◌then◌else◌, true,
}
use libasio.EventLoop.{
  EventLoop, Task, user, is_in_loop_thread, run_in_loop, queue_in_loop, run_next,
}
use libasio.TcpConn.Types.{Conn, Callbacks}
use libasio.TcpConn.Socket.{Socket}
use libasio.TcpConn.Handlers.{send}
use libasio.TcpConn.Events.{Event, is_send, send_task, Allowed, step}

-- The functors that the loop is given: the connection's, and those of anything else.
pub data Job : Type 0 where
  send_string : List ℕ → Job
  another : ℕ → Job

pub record Posting : Type 0 where
  pub conn : Conn
  pub loop : EventLoop Job

-- The bytes that tasks will send.
abbrev pub bytes_of : List (Task Job) → List ℕ
bytes_of [] = []
bytes_of (user (send_string d) ∷ q) = d ++ bytes_of q
bytes_of (_ ∷ q) = bytes_of q

abbrev pub is_send_string : Task Job → Bool
is_send_string (user (send_string d)) = true
is_send_string _ = false

module _ (sock : Socket) (app : Callbacks) where
  unfoldable pub send_here : List ℕ → Posting → Result Posting
  send_here d s = do c ← send sock app true d s.conn; ok (record s { conn = c })

  unfoldable pub send_elsewhere : (caller : ℕ) → List ℕ → Posting → Result Posting
  send_elsewhere caller d s = do
    c ← send sock app false d s.conn
    let (now, l) = run_in_loop caller (user (send_string d)) s.loop
    ok (record { conn = c; loop = l })

  -- `Send`, both overloads, called by the thread `caller`.
  unfoldable pub send_by : (caller : ℕ) → List ℕ → Posting → Result Posting
  send_by caller d s =
      if is_in_loop_thread caller s.loop then send_here d s else send_elsewhere caller d s

  -- What may happen next, if only other threads than the loop's call `Send`.
  pub data Move (s : Posting) : Posting → Type 0 where
    sends :
        (caller : ℕ) (d : List ℕ) {s' : Posting}
        → is_in_loop_thread caller s.loop ≡ false
        → send_by caller d s ≡ ok s'
        → Move s s'
    takes_send :
        (d : List ℕ) (q : List (Task Job)) {c : Conn}
        → s.loop.queue ≡ user (send_string d) ∷ q
        → step sock app (send_task d) s.conn ≡ ok c
        → Move s (record { conn = c; loop = run_next (user (send_string d) ∷ q) s.loop })
    takes_other :
        (f : Task Job) (q : List (Task Job))
        → s.loop.queue ≡ f ∷ q
        → is_send_string f ≡ false
        → Move s (record s { loop = run_next (f ∷ q) s.loop })
    queues_other :
        (f : Task Job)
        → is_send_string f ≡ false
        → Move s (record s { loop = queue_in_loop f s.loop })
    happens :
        (e : Event) {c : Conn}
        → is_send e ≡ false
        → Allowed e s.conn
        → step sock app e s.conn ≡ ok c
        → Move s (record s { conn = c })

  pub data Reach (s : Posting) : Posting → Type 0 where
    start : Reach s s
    later : {s' s'' : Posting} → Reach s s' → Move s' s'' → Reach s s''
