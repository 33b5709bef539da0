-- ===== src/EventLoop/Calls.antt =====
-- The calls that other threads and its own make of an `EventLoop` (src/event_loop.cc) while it runs, and
-- the steps that it makes in `io_service::run`.
use libasio.Prelude.{
  ℕ, zero, suc, List, [], ◌∷◌, ◌++◌, Option, none, some, if◌then◌else◌, ◌==◌, Result, ok, ◌>>=◌,
}
use libasio.EventLoop
use libasio.EventLoop.{
  EventLoop, Task, user, stop_task, IoService, begin_run, queue_in_loop, run_in_loop, run_next,
  stop_loop,
}

pub data Event (F : Type 0) : Type 0 where
  run_in : (caller : ℕ) → F → Event F  -- `RunInLoop`
  queue_in : F → Event F  -- `QueueInLoop`
  stop_by : (caller : ℕ) → Event F  -- `Stop`
  take_next : Event F  -- `io_service::run` takes a task, if it is not stopped and has one

pub record History (F : Type 0) : Type 0 where
  pub loop : EventLoop F
  pub at_once : List F  -- run by the call itself, oldest first
  pub later : List F  -- run from the queue, oldest first

module _ {F : Type 0} where
  -- The user's functors among tasks.
  unfoldable pub functors : List (Task F) → List F
  functors [] = []
  functors (user f ∷ q) = f ∷ functors q
  functors (stop_task ∷ q) = functors q

  unfoldable pub called : Option (Task F) × EventLoop F → History F → History F
  called (now, l) h = record h {
    loop = l;
    at_once = h.at_once ++ functors (elim now [ none ↦ [] | some f ↦ f ∷ [] ]);
  }

  unfoldable pub taken : List (Task F) → History F → History F
  taken [] h = h
  taken (f ∷ q) h = record h {
    loop = run_next (f ∷ q) h.loop;
    later = h.later ++ functors (f ∷ []);
  }

  module _ (io : IoService F) where
    unfoldable pub step : Event F → History F → Result (History F)
    step (run_in c f) h = ok (called (run_in_loop c (user f) h.loop) h)
    step (queue_in f) h = ok (record h { loop = queue_in_loop (user f) h.loop })
    step (stop_by c) h = do l ← stop_loop c h.loop; ok (record h { loop = l })
    step take_next h = ok (if io.has_stopped h.loop.calls then h else taken h.loop.queue h)

    unfoldable pub run_events : List (Event F) → History F → Result (History F)
    run_events [] h = ok h
    run_events (e ∷ es) h = do h' ← step e h; run_events es h'

  -- What an event hands to the loop that the thread `w` runs, and what it runs at once.
  unfoldable pub handed_by : (w : ℕ) → Event F → List F
  handed_by w (run_in c f) = if c == w then [] else f ∷ []
  handed_by w (queue_in f) = f ∷ []
  handed_by w _ = []

  unfoldable pub direct_by : (w : ℕ) → Event F → List F
  direct_by w (run_in c f) = if c == w then f ∷ [] else []
  direct_by w _ = []

  unfoldable pub handed : (w : ℕ) → List (Event F) → List F
  handed w [] = []
  handed w (e ∷ es) = handed_by w e ++ handed w es

  unfoldable pub direct : (w : ℕ) → List (Event F) → List F
  direct w [] = []
  direct w (e ∷ es) = direct_by w e ++ direct w es

  unfoldable pub begin : (owner w : ℕ) → History F
  begin owner w = record { loop = begin_run w (EventLoop.make owner); at_once = []; later = [] }

  -- So many steps of the loop.
  unfoldable pub turns : ℕ → List (Event F)
  turns zero = []
  turns (suc n) = take_next ∷ turns n
