-- ===== src/TcpConn/Posting/Order.antt =====
-- What other threads send leaves a connection (src/tcp_conn.cc) in the order in which they handed it over.
use libasio.Prelude.{
  ℕ, ◌≡◌, refl, sym, ap, ◌∙◌, true, false, Bool-cases, inl, inr, List, [], ◌∷◌, ◌++◌, append_assoc,
  append-nil, ok, ok-injective, subst,
}
use libasio.ByteBuffer.Bytes.{readable}
use libasio.EventLoop.{
  EventLoop, Task, user, stop_task, is_in_loop_thread, run_in_loop, queue_in_loop, run_next,
  run_task, stop_in_loop,
}
use libasio.TcpConn
use libasio.TcpConn.Types.{took, post_send, Endpoint, Conn, Callbacks}
use libasio.TcpConn.Socket.{Socket}
use libasio.TcpConn.{log}
use libasio.TcpConn.Handlers.{send, send_in_loop}
use libasio.TcpConn.Stream.{Inv, Keeps, accepted, delivered}
use libasio.TcpConn.Quiet.{posted}
use libasio.TcpConn.Events.{sent, send_task, step, Runs, here, next}
use libasio.TcpConn.Events.Safe.{stream_in_order}
use libasio.TcpConn.Posting.Rest.{send_in_loop-Quiet, Restful, Quiet-Unsent, step-Unsent}
use libasio.TcpConn.Posting.{
  Job, send_string, another, Posting, bytes_of, is_send_string, send_by, send_elsewhere, Move,
  sends, takes_send, takes_other, queues_other, happens, Reach, start, later,
}

bytes_of-append : (p q : List (Task Job)) → bytes_of (p ++ q) ≡ bytes_of p ++ bytes_of q
bytes_of-append [] q = refl
bytes_of-append (user (send_string d) ∷ p) q =
    ap (◌++◌ d) (bytes_of-append p q) ∙ sym (append_assoc d (bytes_of p) (bytes_of q))
bytes_of-append (user (another n) ∷ p) q = bytes_of-append p q
bytes_of-append (stop_task ∷ p) q = bytes_of-append p q

bytes_of-other :
    (f : Task Job) (q : List (Task Job)) → is_send_string f ≡ false → bytes_of (f ∷ q) ≡ bytes_of q
bytes_of-other (user (send_string d)) q h = cc
bytes_of-other (user (another n)) q h = refl
bytes_of-other stop_task q h = refl

run_next-queue :
    (f : Task Job) (q : List (Task Job)) (l : EventLoop Job) → (run_next (f ∷ q) l).queue ≡ q
unfolding run_task stop_in_loop
run_next-queue (user g) q l = refl
run_next-queue stop_task q l = refl

module _ (sock : Socket) (app : Callbacks) where
  -- While the socket is open, what was taken and what the loop will send is what was handed over.
  Posted : Posting → Type 0
  Posted s =
      sock.is_open s.conn.trace ≡ true
      → accepted s.conn.trace ++ bytes_of s.loop.queue ≡ posted s.conn.trace

  -- A task of `SendStringInLoop` runs.
  takes_send-Posted :
      (d : List ℕ) (q : List (Task Job)) (c : Conn) {c' : Conn}
      → Restful app
      → send_in_loop sock app true d c ≡ ok c'
      → (sock.is_open c.trace ≡ true → accepted c.trace ++ (d ++ bytes_of q) ≡ posted c.trace)
      → sock.is_open c'.trace ≡ true
      → accepted c'.trace ++ bytes_of q ≡ posted c'.trace
  unfolding send_in_loop
  takes_send-Posted d q c {c'} r e p o = elim (Bool-cases (sock.is_open c.trace)) [
    | inl was ↦
        let u =
          Quiet-Unsent sock app (took d ∷ c.trace) c'.trace
            (send_in_loop-Quiet sock app r.quiet d c was e) in
        ap (◌++ bytes_of q) u.said
        ∙ (append_assoc (accepted c.trace) d (bytes_of q) ∙ (p was ∙ sym u.handed))
    | inr shut ↦
        let same_conn = ok-injective (simp shut at e) in
        let b : sock.is_open c.trace ≡ true = rw same_conn o in cc
  ]

  -- What a thread other than the loop's makes of it by `Send`.
  abbrev handed_over : List ℕ → Posting → Posting
  handed_over d s = record {
    conn = log (post_send d) s.conn;
    loop = queue_in_loop (user (send_string d)) s.loop;
  }

  send_by-elsewhere :
      (caller : ℕ) (d : List ℕ) (s : Posting)
      → is_in_loop_thread caller s.loop ≡ false
      → send_by sock app caller d s ≡ ok (handed_over d s)
  unfolding send_by send_elsewhere send run_in_loop is_in_loop_thread
  send_by-elsewhere caller d s b = rw b refl

  send_by-Posted :
      (d : List ℕ) (s : Posting) {s' : Posting}
      → handed_over d s ≡ s'
      → Posted s
      → sock.is_open s'.conn.trace ≡ true
      → accepted s'.conn.trace ++ bytes_of s'.loop.queue ≡ posted s'.conn.trace
  unfolding Posted queue_in_loop
  send_by-Posted d s q p o =
      let was : sock.is_open (post_send d ∷ s.conn.trace) ≡ true =
        ap (λ z. sock.is_open z.conn.trace) q ∙ o in
      let now = sym (sock.is_open-other (post_send d) s.conn.trace refl) ∙ was in
      let t = accepted s.conn.trace in
      let b = bytes_of s.loop.queue in
      rw (← q) (
        ap (◌++◌ t)
          (bytes_of-append s.loop.queue (user (send_string d) ∷ []) ∙ ap (◌++◌ b) (append-nil d))
        ∙ (sym (append_assoc t b d) ∙ ap (◌++ d) (p now)))

  Move-Posted : {s s' : Posting} → Restful app → Move sock app s s' → Posted s → Posted s'
  unfolding Posted queue_in_loop run_task step
  Move-Posted {s} r (sends caller d b e) p o =
      send_by-Posted d s (ok-injective (sym (send_by-elsewhere caller d s b) ∙ e)) p o
  Move-Posted {s} r (takes_send d q b e) p o =
      let z = ap (λ z. accepted s.conn.trace ++ bytes_of z) b in
      takes_send-Posted d q s.conn r e (λ w. sym z ∙ p w) o
  Move-Posted {s} r (takes_other f q b h) p o =
      let left : bytes_of s.loop.queue ≡ bytes_of q = ap bytes_of b ∙ bytes_of-other f q h in
      rw (run_next-queue f q s.loop, ← left) (p o)
  Move-Posted {s} r (queues_other f h) p o =
      ap (◌++◌ (accepted s.conn.trace)) (
        bytes_of-append s.loop.queue (f ∷ [])
        ∙ (ap (◌++◌ (bytes_of s.loop.queue)) (bytes_of-other f [] h)
            ∙ append-nil (bytes_of s.loop.queue)))
      ∙ p o
  Move-Posted {s} r (happens x h k e) p o =
      let u = step-Unsent sock app x s.conn r h e in
      ap (◌++ bytes_of s.loop.queue) u.said ∙ (p (u.shut o) ∙ sym u.handed)

  Reach-Posted : {s s' : Posting} → Restful app → Reach sock app s s' → Posted s → Posted s'
  Reach-Posted r start p = p
  Reach-Posted r (later w m) p = Move-Posted r m (Reach-Posted r w p)

  -- What happened to the connection alone.
  conn_run : {s s' : Posting} → Reach sock app s s' → Runs sock app s.conn s'.conn
  unfolding step send
  conn_run start = here
  conn_run {s} (later {s' = b} r (sends caller d h e)) =
      let q = ok-injective (sym (send_by-elsewhere caller d b h) ∙ e) in
      subst (λ z. Runs sock app s.conn z.conn) q (next (sent false d) (conn_run r) tt refl)
  conn_run (later r (takes_send d q b e)) = next (send_task d) (conn_run r) tt e
  conn_run (later r (takes_other f q b h)) = conn_run r
  conn_run (later r (queues_other f h)) = conn_run r
  conn_run (later r (happens x h k e)) = next x (conn_run r) k e

  -- A new connection whose loop has no task of it, with an application that keeps the invariant and
  -- neither sends nor shows anything by itself: after any sequence of calls of `Send` by other
  -- threads, of turns of the loop and of other events, while the socket is open, the bytes that were
  -- reported as sent, then those being written, then those waiting, then those of the tasks that the
  -- loop has not run, are all that these threads handed to `Send`, in the order of their calls.
  pub posted_in_order :
      (name : List ℕ) (l r : Endpoint) (loop : EventLoop Job) {s : Posting}
      → Keeps app (Inv sock)
      → Restful app
      → bytes_of loop.queue ≡ []
      → Reach sock app (record { conn = TcpConn.make name l r []; loop = loop }) s
      → sock.is_open s.conn.trace ≡ true
      → delivered s.conn.trace
          ++ ((readable s.conn.writing_buffer ++ readable s.conn.write_buffer)
              ++ bytes_of s.loop.queue)
        ≡ posted s.conn.trace
  unfolding Posted TcpConn.make
  posted_in_order name l r loop {s} keeps rest idle w o =
      let waits = readable s.conn.writing_buffer ++ readable s.conn.write_buffer in
      sym (append_assoc (delivered s.conn.trace) waits (bytes_of s.loop.queue))
      ∙ (ap (◌++ bytes_of s.loop.queue) (stream_in_order sock app keeps name l r (conn_run w))
          ∙ Reach-Posted rest w (λ z. idle) o)
