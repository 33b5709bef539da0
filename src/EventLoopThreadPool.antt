-- ===== src/EventLoopThreadPool.antt =====
-- `EventLoopThreadPool` of src/event_loop_thread_pool.h and src/event_loop_thread_pool.cc: worker
-- threads, each with a loop, handed out in turn. `next_` is a signed 64-bit counter whose value is
-- used modulo the number of threads as an unsigned one, so it is kept as its bit pattern.
pub mod Turns
pub mod Life
pub mod Stop
pub mod Interface
use libasio.Prelude.{
  ◌&&◌, ℕ, zero, suc, ◌+◌, ◌%◌, Bool, true, false, not, List, [], ◌∷◌, ◌++◌, length, get_elem?,
  codes, ltb, ◌==◌, if◌then◌else◌, add_word, Result, ok, assert, indexed, ◌>>=◌, ◌>>◌,
}
use libasio.Prelude.Decimal.{to_string}
use libasio.EventLoop.{EventLoop, IoService}
use libasio.EventLoopThread.{Thread, launch, start_and_wait, set_name, steps, stop_and_wait}
use libasio.EventLoopThread

pub record Pool (F : Type 0) : Type 0 where
  pub started : Bool
  pub thread_num : ℕ
  pub next : ℕ
  pub threads : List (Thread F)

-- The loop that a caller is given: the pool's own, or that of a thread.
pub data Turn : Type 0 where
  base : Turn
  thread : ℕ → Turn

pub thread_name : ℕ → List ℕ
thread_name i = codes "EventLoopThreadPool-thread-" ++ to_string i ++ codes "th"

module _ {F : Type 0} where
  unfoldable pub make : (thread_num : ℕ) → Pool F
  make n = record { started = false; thread_num = n; next = 0; threads = [] }

  -- The loop of `IsStopped` over the indices from `i` on, `k` of them.
  unfoldable pub all_stopped : (k i : ℕ) → List (Thread F) → Result Bool
  all_stopped zero i ts = ok true
  all_stopped (suc k) i ts = do
    t ← indexed (get_elem? ts i)
    if not (EventLoopThread.is_stopped t) then ok false else all_stopped k (i + 1) ts

  -- `IsStopped`
  unfoldable pub is_stopped : Pool F → Result Bool
  is_stopped p =
      if p.thread_num == 0 then ok (not p.started) else all_stopped p.thread_num 0 p.threads

  -- The loop of `IsRunning`.
  unfoldable pub all_running : (k i : ℕ) → List (Thread F) → Result Bool
  all_running zero i ts = ok true
  all_running (suc k) i ts = do
    t ← indexed (get_elem? ts i)
    r ← EventLoopThread.is_running t
    if not r then ok false else all_running k (i + 1) ts

  -- `IsRunning`
  unfoldable pub is_running : Pool F → Result Bool
  is_running p = if not p.started then ok false else all_running p.thread_num 0 p.threads

  -- The turn of `GetNextLoop` and `GetSocketForAccept`: `next_.fetch_add(1)` and the modulus.
  unfoldable pub take_turn : Pool F → Result (Turn × Pool F)
  take_turn p =
      if length p.threads == 0
      then ok (base, p)
      else let i = p.next % length p.threads in
        do t ← indexed (get_elem? p.threads i); ok (thread i, record p { next = add_word p.next 1 })

  module _ (io : IoService F) (owner : ℕ) (id_text : ℕ → List ℕ) where
    -- A thread of `Start`: the worker `i`, started and, if the caller wants it, awaited. False if it
    -- is still awaited when the worker has made the given steps.
    unfoldable pub spawn : (wait : Bool) → List ℕ → ℕ → Result (Bool × Thread F)
    unfolding thread_name
    spawn true rounds i = do
      (up, t) ← start_and_wait io rounds (EventLoopThread.make owner i (id_text i))
      ok (up, if up then set_name (thread_name i) t else t)
    spawn false rounds i =
        ok (true, set_name (thread_name i) (launch (EventLoopThread.make owner i (id_text i))))

    -- The loop of `Start`, over the threads from `i` on, `k` of them.
    unfoldable pub spawn_all :
        (wait : Bool) → List ℕ → (k i : ℕ) → List (Thread F) → Result (Bool × List (Thread F))
    spawn_all wait rounds zero i ts = ok (true, ts)
    spawn_all wait rounds (suc k) i ts = do
      (up, t) ← spawn wait rounds i
      if up then spawn_all wait rounds k (i + 1) (ts ++ t ∷ []) else ok (false, ts)

    -- `Start`: whether it returned, and the pool.
    unfoldable pub start : (wait : Bool) → List ℕ → Pool F → Result (Bool × Pool F)
    start wait rounds p = do
      assert (not p.started)
      (up, ts) ← spawn_all wait rounds p.thread_num 0 p.threads
      ok (up, record p { threads = ts; started = up })

-- `threads_[i] = t`
unfoldable pub put : {A : Type 0} → List A → ℕ → A → List A
put [] i a = []
put (x ∷ xs) zero a = a ∷ xs
put (x ∷ xs) (suc i) a = x ∷ put xs i a

-- What the workers do while a pool is stopped: the steps that worker `i` makes before it is asked to
-- stop, and those before each poll of its status.
abbrev pub Plan : Type 0
Plan = ℕ → ℕ × List ℕ

module _ {F : Type 0} where
  unfoldable pub get_thread_num : Pool F → ℕ
  get_thread_num p = p.thread_num

  module _ (io : IoService F) (caller : ℕ) where
    -- `t->Stop(wait_thread_exit)`
    unfoldable pub stop_thread : (wait : Bool) → List ℕ → Thread F → Result (Bool × Thread F)
    stop_thread true rounds t = stop_and_wait io caller rounds t
    stop_thread false rounds t = do t' ← EventLoopThread.stop io caller t; ok (true, t')

    -- The loop of `Stop` over the threads from `i` on, `k` of them; false if one is still awaited
    -- when its polls are used up.
    unfoldable pub stop_all :
        (wait : Bool) → Plan → (k i : ℕ) → List (Thread F) → Result (Bool × List (Thread F))
    stop_all wait plan zero i ts = ok (true, ts)
    stop_all wait plan (suc k) i ts = do
      t ← indexed (get_elem? ts i)
      t₁ ← steps io (plan i).0 t
      (gone, t₂) ← stop_thread wait (plan i).1 t₁
      if gone then stop_all wait plan k (i + 1) (put ts i t₂) else ok (false, put ts i t₂)

    -- The workers' steps before a poll of `IsStopped`.
    unfoldable pub steps_all : (ℕ → ℕ) → (i : ℕ) → List (Thread F) → Result (List (Thread F))
    steps_all f i [] = ok []
    steps_all f i (t ∷ ts) = do t' ← steps io (f i) t; ts' ← steps_all f (i + 1) ts; ok (t' ∷ ts')

    -- The loop that follows, `while (!IsStopped())`.
    unfoldable pub wait_stopped : List (ℕ → ℕ) → Pool F → Result (Bool × Pool F)
    wait_stopped [] p = ok (false, p)
    wait_stopped (f ∷ fs) p = do
      ts ← steps_all f 0 p.threads
      let p' = record p { threads = ts }
      b ← is_stopped p'
      if b then ok (true, p') else wait_stopped fs p'

    -- The part of `Stop` after the threads were asked.
    unfoldable pub finish_stop : (wait : Bool) → List (ℕ → ℕ) → Pool F → Result (Bool × Pool F)
    finish_stop wait polls p = do
      (gone, p') ← if ltb 0 p.thread_num && wait then wait_stopped polls p else ok (true, p)
      ok (gone, if gone then record p' { started = false } else p')

    -- `Stop`: whether it returned, and the pool.
    unfoldable pub stop : (wait : Bool) → Plan → List (ℕ → ℕ) → Pool F → Result (Bool × Pool F)
    stop wait plan polls p = do
      (gone, ts) ← stop_all wait plan p.thread_num 0 p.threads
      let p' = record p { threads = ts }
      if gone then finish_stop wait polls p' else ok (false, p')

  -- The assertions of the destructor.
  unfoldable pub destroy : Pool F → Result (Unit {0})
  destroy p = do
    assert (p.thread_num == length p.threads)
    b ← all_stopped p.thread_num 0 p.threads
    assert b
