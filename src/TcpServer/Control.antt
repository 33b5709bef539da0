-- ===== src/TcpServer/Control.antt =====
-- Starting, stopping and destroying a `TCPServer` (src/tcp_server.cc), which runs its pool. The loop
-- that listens is the application's: `caller` is the thread that calls, `l` that loop.
use libasio.Prelude.{
  ◌≡◌, refl, ℕ, Bool, true, false, not, List, [], ◌∷◌, Option, none, some, if◌then◌else◌, Result,
  ok, assert, ◌>>=◌, ◌>>◌,
}
use libasio.EventLoop
use libasio.EventLoop.{EventLoop, IoService}
use libasio.EventLoop.Interface.{LoopInterface}
use libasio.EventLoopThreadPool
use libasio.EventLoopThreadPool.{Pool, Plan}
use libasio.TcpServer.{
  Server, ConnectionMap, log, close_acceptor, stop_pool, close_all, async_accept,
}

unfoldable pub is_empty : ConnectionMap → Bool
is_empty [] = true
is_empty (c ∷ m) = false

module _ {F : Type 0} where
  -- `Init`
  unfoldable pub init : Server F → Bool
  init s = true

  -- `~TCPServer`, given what `acceptor_.is_open()` says.
  unfoldable pub destroy : (acceptor_open : Bool) → Server F → Result (Unit {0})
  unfolding is_empty
  destroy acceptor_open s = do
    b ← EventLoopThreadPool.is_stopped s.pool
    assert b
    assert (is_empty s.conns)
    assert (not acceptor_open)

  -- `IsRunning`; the assertion at its end asks the same again, as does that of `IsStopped`.
  unfoldable pub is_running : EventLoop F → Server F → Result Bool
  is_running l s =
      if not (EventLoop.is_running l) then ok false else EventLoopThreadPool.is_running s.pool

  -- `IsStopped`
  unfoldable pub is_stopped : EventLoop F → Server F → Result Bool
  is_stopped l s =
      if not (EventLoop.is_stopped l) then ok false else EventLoopThreadPool.is_stopped s.pool

  module _ (io : IoService F) (caller : ℕ) where
    -- The part of `Start` after the pool's, which never returns false.
    unfoldable pub after_start : (up : Bool) → Server F → Result (Bool × Server F)
    after_start false s = ok (false, s)
    after_start true s = do s' ← async_accept s; ok (true, s')

    -- `Start`: whether it returned, and the server.
    unfoldable pub start : (id_text : ℕ → List ℕ) → List ℕ → Server F → Result (Bool × Server F)
    start id_text rounds s = do
      (up, p) ← EventLoopThreadPool.start io caller id_text true rounds s.pool
      after_start up (record s { pool = p })

    -- `StopInLoop` after it.
    unfoldable pub after_stop : (gone : Bool) → Server F → Result (Bool × Server F)
    after_stop false s = ok (false, s)
    after_stop true s = do
      b ← EventLoopThreadPool.is_stopped s.pool
      assert b
      ok (true, record s { closed = true })

    -- `visit` is the order in which the iteration over `conns_` comes to its elements, which
    -- `std::unordered_map` leaves open.
    module _ (visit : ConnectionMap → ConnectionMap) where
      -- `StopInLoop` up to the stop of the pool.
      unfoldable pub close_everything : Server F → Server F
      close_everything s = close_all (visit s.conns) (log close_acceptor s)

      -- `StopInLoop`: whether it returned, and the server.
      unfoldable pub stop_in_loop : Plan → List (ℕ → ℕ) → Server F → Result (Bool × Server F)
      stop_in_loop plan polls s = do
        let s₁ = log stop_pool (close_everything s)
        (gone, p) ← EventLoopThreadPool.stop io caller true plan polls s₁.pool
        after_stop gone (record s₁ { pool = p })

      -- `Stop`: in the loop's thread the server stops at once, elsewhere `stop_fn` is left to the loop.
      module _ {G L : Type 0} (loop : LoopInterface G L) (stop_fn : G) where
        unfoldable pub run_stop :
            Plan → List (ℕ → ℕ) → Option G × L → Server F → Result (Bool × L × Server F)
        run_stop plan polls (none, l) s = ok (true, l, s)
        run_stop plan polls (some f, l) s = do
          (gone, s') ← stop_in_loop plan polls s
          ok (gone, l, s')

        unfoldable pub stop : Plan → List (ℕ → ℕ) → L → Server F → Result (Bool × L × Server F)
        stop plan polls l s = run_stop plan polls (loop.run_in_loop caller stop_fn l) s

        -- From another thread it returns, with the server as it was and the task queued.
        pub stop-elsewhere :
            (plan : Plan) (polls : List (ℕ → ℕ)) (l : L) (s : Server F)
            → loop.is_in_loop_thread caller l ≡ false
            → stop plan polls l s ≡ ok (true, loop.queue_in_loop stop_fn l, s)
        unfolding stop run_stop
        stop-elsewhere plan polls l s h = rw (loop.run_in_loop-elsewhere caller stop_fn l h) refl
