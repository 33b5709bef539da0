-- ===== src/EventLoopThread.antt =====
-- `EventLoopThread` of src/event_loop_thread.h and src/event_loop_thread.cc: a thread that runs an
-- `EventLoop`, started, stopped and watched by another one. The two interleave: the worker's `Run`
-- is a step function over a program counter, and a polling loop of the owner takes, for each of
-- its rounds, the number of steps that the worker makes before it.
pub mod Start
pub mod Stop
pub mod Interface
use libasio.Prelude.{
  ◌||◌, ℕ, zero, suc, Bool, true, false, List, [], ◌∷◌, ◌++◌, Option, none, some, if◌then◌else◌,
  Result, ok, codes, assert, deref, ◌>>=◌, ◌>>◌,
}
use libasio.EventLoop
use libasio.EventLoop.{EventLoop, IoService, begin_run, end_run, run_next, stop_loop}

-- `EventLoopThread::Status`
pub data Status : Type 0 where
  running stopping stopped : Status

abbrev pub status_eq : Status → Status → Bool
status_eq running running = true
status_eq stopping stopping = true
status_eq stopped stopped = true
status_eq _ _ = false

-- Where the worker stands in `Run`.
pub data Pc : Type 0 where
  unstarted : Pc
  entered : Pc  -- at the head of `Run`
  before : Pc  -- at `pre`
  ready : Pc  -- at `ev_loop_->Run()`
  looping : Pc  -- in `io_service::run`
  after : Pc  -- at `post`
  finishing : Pc  -- at `ev_loop_.reset()`
  done : Pc

abbrev pub is_unstarted : Pc → Bool
is_unstarted unstarted = true
is_unstarted _ = false

abbrev pub is_done : Pc → Bool
is_done done = true
is_done _ = false

module _ (F : Type 0) where
  pub record Thread : Type 0 where
    pub ev_loop : Option (EventLoop F)
    pub status : Status
    pub name : List ℕ
    pub worker : ℕ  -- the id of the `std::thread`
    pub id_text : List ℕ  -- as `<<` prints that id
    pub pc : Pc

-- The name that `Run` gives a thread with none, from the text of its id.
default_name : List ℕ → List ℕ → List ℕ
default_name [] id = codes "thread-" ++ id
default_name (c ∷ n) id = c ∷ n

module _ {F : Type 0} where
  -- The constructor, run by the thread `owner`.
  unfoldable pub make : (owner worker : ℕ) (id_text : List ℕ) → Thread F
  make owner worker id = record {
    ev_loop = some (EventLoop.make owner);
    status = stopped;
    name = [];
    worker = worker;
    id_text = id;
    pc = unstarted;
  }

  unfoldable pub is_stopped : Thread F → Bool
  is_stopped t = status_eq t.status stopped

  unfoldable pub is_running : Thread F → Result Bool
  is_running t = do l ← deref t.ev_loop; ok l.running

  unfoldable pub get_event_loop : Thread F → Option (EventLoop F)
  get_event_loop t = t.ev_loop

  unfoldable pub get_name : Thread F → List ℕ
  get_name t = t.name

  unfoldable pub set_name : List ℕ → Thread F → Thread F
  set_name n t = record t { name = n }

  -- `Start` without its loop: the new thread stands before `Run`.
  unfoldable pub launch : Thread F → Thread F
  launch t = record t { pc = entered }

  module _ (io : IoService F) where
    -- One step of `Run`. `pre` and `post` are the application's. `io_service::run` returns once the
    -- service is stopped, and until then runs what was posted.
    unfoldable pub step_at : Pc → Thread F → Result (Thread F)
    unfolding default_name
    step_at unstarted t = ok t
    step_at entered t =
        ok (record t { name = default_name t.name t.id_text; status = running; pc = before })
    step_at before t = ok (record t { pc = ready })
    step_at ready t = do
      l ← deref t.ev_loop
      ok (record t { ev_loop = some (begin_run t.worker l); pc = looping })
    step_at looping t = do
      l ← deref t.ev_loop
      ok (
          if io.has_stopped l.calls
          then record t { ev_loop = some (end_run l); pc = after }
          else record t { ev_loop = some (run_next l.queue l) })
    step_at after t = ok (record t { pc = finishing })
    step_at finishing t = ok (record t { ev_loop = none; status = stopped; pc = done })
    step_at done t = ok t

    unfoldable pub steps : ℕ → Thread F → Result (Thread F)
    steps zero t = ok t
    steps (suc n) t = do t' ← step_at t.pc t; steps n t'

    -- The loop of `Start(true)`, over the worker's steps before each poll; false if it still waits
    -- when these are used up.
    unfoldable pub wait_running : List ℕ → Thread F → Result (Bool × Thread F)
    wait_running [] t = ok (false, t)
    wait_running (n ∷ ns) t = do
      t' ← steps n t
      r ← is_running t'
      if r then ok (true, t') else wait_running ns t'

    -- `Start(true)`
    unfoldable pub start_and_wait : List ℕ → Thread F → Result (Bool × Thread F)
    start_and_wait rounds t = wait_running rounds (launch t)

    -- The loop of `Stop(true)`.
    unfoldable pub wait_stopped : List ℕ → Thread F → Result (Bool × Thread F)
    wait_stopped [] t = ok (false, t)
    wait_stopped (n ∷ ns) t = do
      t' ← steps n t
      if is_stopped t' then ok (true, t') else wait_stopped ns t'

    -- `Stop` without its loop, called by the thread `caller`.
    unfoldable pub stop : (caller : ℕ) → Thread F → Result (Thread F)
    stop caller t = do
      assert (status_eq t.status running)
      r ← is_running t
      assert r
      l ← deref t.ev_loop
      l' ← stop_loop caller l
      ok (record t { status = stopping; ev_loop = some l' })

    -- `Stop(true)`
    unfoldable pub stop_and_wait : (caller : ℕ) → List ℕ → Thread F → Result (Bool × Thread F)
    stop_and_wait caller rounds t = do t' ← stop caller t; wait_stopped rounds t'

    -- The destructor: joining a worker that was started, which returns when that is done, here after
    -- so many of its steps.
    unfoldable pub destroy : (after : ℕ) → Thread F → Result (Bool × Thread F)
    destroy n t = do t' ← steps n t; ok (is_unstarted t.pc || is_done t'.pc, t')
