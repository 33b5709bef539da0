-- ===== src/TcpServer/Serving.antt =====
-- A server between its start and its stop.
use mathlib.Core.List.{reverse, reverse-cons, reverse_perm, map-append, Perm}
use mathlib.Core.List.Perm
use native.Mathlib.Nat.{mod-eq_of_lt}
use libasio.Prelude.{
  add_word, ℕ, zero, suc, ◌≤◌, ◌<◌, ◌%◌, ◌≡◌, refl, sym, ap, ◌∙◌, true, false, List, [], ◌∷◌, ◌++◌,
  map, append_assoc, ltb, length, ok, arith,
}
use libasio.EventLoop.{EventLoop, IoService}
use libasio.EventLoopThread.Start.{total}
use libasio.EventLoopThreadPool
use libasio.EventLoopThreadPool.{Pool, Plan, Turn, base, thread}
use libasio.EventLoopThreadPool.Turns.{take_turn-in_range}
use libasio.EventLoopThreadPool.Life.{workers, start-runs}
use libasio.EventLoopThreadPool.Stop.{stop-workers}
use libasio.TcpServer.{
  failure, take_answer, Server, Action, accept, close_acceptor, close_conn, stop_pool,
  ConnectionMap, log, close_all, handle_accept, async_accept, accept_in_turn,
}
use libasio.TcpServer.Conns.{ids_of}
use libasio.TcpServer.Control.{
  start, after_start, after_stop, close_everything, stop_in_loop, is_running,
}
use libasio.EventLoop

visited-Perm : (m m' : ConnectionMap) → Perm m m' → Perm (reverse (ids_of m)) (ids_of m')
visited-Perm m m' p = Perm.trans (reverse_perm (ids_of m)) (Perm.map (λ e. e.1) p)

module _ {F : Type 0} where
  -- What a stop asks of the world before it stops the pool, when it last came to the first of `ids`.
  unfoldable pub closings : List ℕ → Server F → List Action
  closings ids s = map close_conn ids ++ close_acceptor ∷ s.trace

  -- Asking connections to close adds that to the trace, and nothing else.
  close_all-lem :
      (m : ConnectionMap) (s : Server F)
      → close_all m s ≡ record s { trace = map close_conn (reverse (map (λ e. e.1) m)) ++ s.trace }
  unfolding close_all
  close_all-lem [] s = refl
  close_all-lem ((j, w) ∷ m) s =
      let ids = map (λ e. e.1) m in
      let e : map close_conn (reverse ids) ++ close_conn w ∷ s.trace
          ≡ map close_conn (reverse (w ∷ ids)) ++ s.trace =
        rw (reverse-cons w ids, map-append close_conn (reverse ids) (w ∷ []))
          (sym (append_assoc (map close_conn (reverse ids)) (close_conn w ∷ []) s.trace)) in
      close_all-lem m (record s { trace = close_conn w ∷ s.trace })
      ∙ ap (λ t. record s { trace = t }) e

  module _ (io : IoService F) (caller : ℕ) (visit : ConnectionMap → ConnectionMap) where
    close_everything-lem :
        (s : Server F)
        → close_everything io caller visit s
          ≡ record s { trace = closings (reverse (ids_of (visit s.conns))) s }
    unfolding close_everything closings
    close_everything-lem s = close_all-lem (visit s.conns) (log close_acceptor s)

    -- Where the pool's stop returns with the pool stopped, `StopInLoop` returns, if the iteration over
    -- the table comes to each of its elements once, in whatever order: the acceptor was closed, then
    -- each connection of the table asked once to close, then the pool stopped. No connection leaves
    -- the table by it, and the accept handler that runs afterwards with the error of the closed
    -- acceptor changes nothing.
    pub stop_in_loop-lem :
        (plan : Plan) (polls : List (ℕ → ℕ)) (s : Server F) (p : Pool F) (t : Turn)
        → Perm (visit s.conns) s.conns
        → EventLoopThreadPool.stop io caller true plan polls s.pool ≡ ok (true, p)
        → EventLoopThreadPool.is_stopped p ≡ ok true
        → (s' : Server F) × (closed : List ℕ) × (stop_in_loop io caller visit plan polls s
            ≡ ok (true, s'))
          × (s'.trace ≡ stop_pool ∷ closings closed s)
          × Perm closed (ids_of s.conns)
          × (s'.conns ≡ s.conns)
          × (s'.name ≡ s.name)
          × (s'.pool ≡ p)
          × (handle_accept failure t s' ≡ ok s')
    unfolding stop_in_loop after_stop handle_accept take_answer
    stop_in_loop-lem plan polls s p t v e b =
        let ids = reverse (ids_of (visit s.conns)) in
        let s' : Server F = record s {
          closed = true;
          pool = p;
          trace = stop_pool ∷ closings ids s;
        } in
        (
          s',
          ids,
          simp (close_everything-lem s, e, b),
          refl,
          visited-Perm (visit s.conns) s.conns v,
          refl,
          refl,
          refl,
          refl,
        )

    -- A server with the threads that its start gave it, one at least, is never stopped: `StopInLoop`
    -- closes the acceptor and asks each connection once to close, if the iteration over the table
    -- comes to each of its elements once, and then waits for the pool, whatever the workers do
    -- meanwhile. It is not marked as closed.
    pub stop_in_loop-hangs :
        (id_text : ℕ → List ℕ) (plan : Plan) (polls : List (ℕ → ℕ)) (s : Server F) (n : ℕ)
        → Perm (visit s.conns) s.conns
        → s.pool.thread_num ≡ suc n
        → s.pool.threads ≡ workers io caller id_text (suc n) 0
        → (s' : Server F) × (closed : List ℕ) × (stop_in_loop io caller visit plan polls s
            ≡ ok (false, s'))
          × (s'.trace ≡ stop_pool ∷ closings closed s)
          × Perm closed (ids_of s.conns)
          × (s'.closed ≡ s.closed)
    unfolding stop_in_loop after_stop
    stop_in_loop-hangs id_text plan polls s n v k e =
        let ids = reverse (ids_of (visit s.conns)) in
        let (p, g, j) = stop-workers io caller id_text n caller plan polls s.pool k e in
        (
          record s { pool = p; trace = stop_pool ∷ closings ids s },
          ids,
          simp (close_everything-lem s, g),
          refl,
          visited-Perm (visit s.conns) s.conns v,
          refl,
        )

  module _ (io : IoService F) (caller : ℕ) where
    abbrev pub first_turn : ℕ → Turn
    first_turn zero = base
    first_turn (suc n) = thread 0

    -- `Start` of a server whose pool is new returns if each worker makes at least three steps while
    -- it is awaited. Then one more accept is running, for the first thread or, without threads, for
    -- the server's own loop, and the server is running if its loop is. The callbacks are kept.
    pub start-serves :
        (id_text : ℕ → List ℕ) (rounds : List ℕ) (s : Server F) (n : ℕ) (l : EventLoop F)
        → 3 ≤ total rounds
        → s.pool ≡ EventLoopThreadPool.make n
        → l.running ≡ true
        → (s' : Server F) × (start io caller id_text rounds s ≡ ok (true, s'))
          × (s'.trace ≡ accept (first_turn n) ∷ s.trace)
          × (s'.pool.threads ≡ workers io caller id_text n 0)
          × (is_running l s' ≡ ok true)
          × (s'.conn_fn ≡ s.conn_fn)
          × (s'.msg_fn ≡ s.msg_fn)
    unfolding EventLoopThreadPool.make EventLoopThreadPool.is_running start after_start async_accept
        accept_in_turn is_running EventLoop.is_running
    start-serves id_text rounds s zero l h e r =
        let (st, k, b) = start-runs io caller id_text 0 rounds h in
        let q = ap (EventLoopThreadPool.start io caller id_text true rounds) e ∙ st in
        let s' : Server F = record s {
          pool = record (EventLoopThreadPool.make 0) {
            started = true;
            threads = workers io caller id_text 0 0;
          };
          trace = accept base ∷ s.trace;
        } in
        (s', rw q refl, refl, refl, simp (r, b), refl, refl)
    start-serves id_text rounds s (suc n) l h e r =
        let (st, k, b) = start-runs io caller id_text (suc n) rounds h in
        let q = ap (EventLoopThreadPool.start io caller id_text true rounds) e ∙ st in
        let z : ltb 0 (suc n) ≡ true = ground arith in
        let ts = workers io caller id_text (suc n) 0 in
        let p : Pool F = record (EventLoopThreadPool.make (suc n)) {
          started = true;
          threads = ts;
        } in
        let pos : 0 < length ts = omega (arith, k) in
        let s' : Server F = record s {
          pool = record p { next = add_word 0 1 };
          trace = accept (thread (0 % length ts)) ∷ s.trace;
        } in
        let t = (take_turn-in_range p pos).0 in
        (
          s',
          rw q (simp (z, t)),
          ap (λ i. accept (thread i) ∷ s.trace) (mod-eq_of_lt pos),
          refl,
          simp (r, b),
          refl,
          refl,
        )
