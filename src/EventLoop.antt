-- ===== src/EventLoop.antt =====
-- `EventLoop` of src/event_loop.h and src/event_loop.cc: an `asio::io_service`, the thread that runs
-- it, and the tasks that it is given. A thread is a number. A functor is a value of the type `F`,
-- run by whoever is handed it.
pub mod Interface
pub mod Calls
pub mod Steps
pub mod Order
use libasio.Prelude.{
  not, ℕ, ◌≡◌, Bool, true, false, List, [], ◌∷◌, ◌++◌, Option, none, some, ◌==◌, if◌then◌else◌,
  Result, ok, assert, ◌>>◌,
}

pub data Task (F : Type 0) : Type 0 where
  user : F → Task F
  stop_task : Task F  -- `std::bind(&EventLoop::StopInLoop, this)`

-- The calls that can be made on the `io_service`.
pub data IoCall (F : Type 0) : Type 0 where
  post : Task F → IoCall F
  run : IoCall F
  stopped : IoCall F
  stop : IoCall F

-- What the loop relies on of asio: an `io_service` with a `work` object is stopped by `stop` alone,
-- and `stopped` only asks. Whether it is stopped is a function of the calls made on it.
pub record IoService (F : Type 0) : Type 0 where
  pub has_stopped : List (IoCall F) → Bool
  pub has_stopped-new : has_stopped [] ≡ false
  pub has_stopped-stop : (t : List (IoCall F)) → has_stopped (stop ∷ t) ≡ true
  pub has_stopped-post :
      (f : Task F) (t : List (IoCall F)) → has_stopped (post f ∷ t) ≡ has_stopped t
  pub has_stopped-run : (t : List (IoCall F)) → has_stopped (run ∷ t) ≡ has_stopped t
  pub has_stopped-stopped : (t : List (IoCall F)) → has_stopped (stopped ∷ t) ≡ has_stopped t

pub record EventLoop (F : Type 0) : Type 0 where
  pub tid : ℕ
  pub running : Bool
  pub queue : List (Task F)  -- posted and not yet run, oldest first
  pub calls : List (IoCall F)  -- newest first

module _ {F : Type 0} where
  abbrev pub call : IoCall F → EventLoop F → EventLoop F
  call c l = record l { calls = c ∷ l.calls }

  -- The constructor, run by the thread `caller`.
  unfoldable pub make : (caller : ℕ) → EventLoop F
  make caller = record { tid = caller; running = false; queue = []; calls = [] }

  unfoldable pub is_in_loop_thread : (caller : ℕ) → EventLoop F → Bool
  is_in_loop_thread caller l = caller == l.tid

  unfoldable pub assert_in_loop_thread : (caller : ℕ) → EventLoop F → Result (Unit {0})
  unfolding is_in_loop_thread
  assert_in_loop_thread caller l = assert (is_in_loop_thread caller l)

  unfoldable pub is_running : EventLoop F → Bool
  is_running l = l.running

  unfoldable pub is_stopped : EventLoop F → Bool
  unfolding is_running
  is_stopped l = not (is_running l)

  -- `Run` up to the call of `io_service::run`, and what follows when that returns.
  unfoldable pub begin_run : (caller : ℕ) → EventLoop F → EventLoop F
  begin_run caller l = call run (record l { tid = caller; running = true })

  unfoldable pub end_run : EventLoop F → EventLoop F
  end_run l = record l { running = false }

  unfoldable pub queue_in_loop : Task F → EventLoop F → EventLoop F
  queue_in_loop f l = call (post f) (record l { queue = l.queue ++ f ∷ [] })

  -- `RunInLoop`: on the loop's thread the functor is handed back, to be run at once.
  unfoldable pub run_in_loop : (caller : ℕ) → Task F → EventLoop F → Option (Task F) × EventLoop F
  unfolding is_in_loop_thread queue_in_loop
  run_in_loop caller f l =
      if is_in_loop_thread caller l then (some f, l) else (none, queue_in_loop f l)

  -- `StopInLoop`
  unfoldable pub stop_in_loop : EventLoop F → EventLoop F
  stop_in_loop l = call stopped l

  -- A task that `io_service::run` takes from the queue. A user's task is the application's.
  unfoldable pub run_task : Task F → EventLoop F → EventLoop F
  unfolding stop_in_loop
  run_task (user f) l = l
  run_task stop_task l = stop_in_loop l

  abbrev pub run_next : List (Task F) → EventLoop F → EventLoop F
  run_next [] l = l
  run_next (f ∷ q) l = run_task f (record l { queue = q })

  -- `Stop`
  unfoldable pub stop_loop : (caller : ℕ) → EventLoop F → Result (EventLoop F)
  unfolding run_in_loop stop_in_loop
  stop_loop caller l = do
    assert l.running
    let (now, l') = run_in_loop caller stop_task l
    ok (elim now [ none ↦ l' | some f ↦ stop_in_loop l' ])
