-- ===== src/EventLoop/Interface.antt =====
-- What an `EventLoop` (src/event_loop.h) offers to the classes that hand it tasks, `TCPServer` and
-- `TCPClient` among them: its public methods, and what those rely on. `G` is a functor, `L` a loop.
use libasio.Prelude.{
  ℕ, ◌≡◌, refl, Bool, true, false, not, Option, none, some, ◌==◌, Result, assert, arith,
}
use libasio.EventLoop
use libasio.EventLoop.{EventLoop, Task}

pub record LoopInterface (G L : Type 0) : Type 0 where
  pub make : (caller : ℕ) → L
  pub begin_run : (caller : ℕ) → L → L
  pub stop_loop : (caller : ℕ) → L → Result L
  pub run_in_loop : (caller : ℕ) → G → L → Option G × L
  pub queue_in_loop : G → L → L
  pub is_in_loop_thread : (caller : ℕ) → L → Bool
  pub assert_in_loop_thread : (caller : ℕ) → L → Result (Unit {0})
  pub is_running : L → Bool
  pub is_stopped : L → Bool
  -- The thread that runs the loop is the loop's, and so is the one that made it until then.
  pub make-is_in_loop_thread : (c : ℕ) → is_in_loop_thread c (make c) ≡ true
  pub begin_run-is_in_loop_thread : (c : ℕ) (l : L) → is_in_loop_thread c (begin_run c l) ≡ true
  pub begin_run-is_running : (c : ℕ) (l : L) → is_running (begin_run c l) ≡ true
  pub is_stopped-not : (l : L) → is_stopped l ≡ not (is_running l)
  pub assert_in_loop_thread-assert :
      (c : ℕ) (l : L) → assert_in_loop_thread c l ≡ assert (is_in_loop_thread c l)
  -- In the loop's thread a functor is run at once, in another one it is queued.
  pub run_in_loop-here :
      (c : ℕ) (f : G) (l : L) → is_in_loop_thread c l ≡ true → run_in_loop c f l ≡ (some f, l)
  pub run_in_loop-elsewhere :
      (c : ℕ) (f : G) (l : L)
      → is_in_loop_thread c l ≡ false
      → run_in_loop c f l ≡ (none, queue_in_loop f l)
  -- Queueing changes neither the thread nor whether the loop runs.
  pub queue_in_loop-is_in_loop_thread :
      (c : ℕ) (f : G) (l : L) → is_in_loop_thread c (queue_in_loop f l) ≡ is_in_loop_thread c l
  pub queue_in_loop-is_running : (f : G) (l : L) → is_running (queue_in_loop f l) ≡ is_running l

pub same_thread : (c : ℕ) → (c == c) ≡ true
same_thread c = ground arith

unfoldable pub event_loop : (F : Type 0) → LoopInterface (Task F) (EventLoop F)
unfolding EventLoop.make EventLoop.begin_run EventLoop.run_in_loop EventLoop.queue_in_loop
    EventLoop.is_in_loop_thread EventLoop.assert_in_loop_thread EventLoop.is_running
    EventLoop.is_stopped
event_loop F = record {
  make = EventLoop.make;
  begin_run = EventLoop.begin_run;
  stop_loop = EventLoop.stop_loop;
  run_in_loop = EventLoop.run_in_loop;
  queue_in_loop = EventLoop.queue_in_loop;
  is_in_loop_thread = EventLoop.is_in_loop_thread;
  assert_in_loop_thread = EventLoop.assert_in_loop_thread;
  is_running = EventLoop.is_running;
  is_stopped = EventLoop.is_stopped;
  make-is_in_loop_thread = same_thread;
  begin_run-is_in_loop_thread = λ c l. same_thread c;
  begin_run-is_running = λ c l. refl;
  is_stopped-not = λ l. refl;
  assert_in_loop_thread-assert = λ c l. refl;
  run_in_loop-here = λ c f l h. rw h refl;
  run_in_loop-elsewhere = λ c f l h. rw h refl;
  queue_in_loop-is_in_loop_thread = λ c f l. refl;
  queue_in_loop-is_running = λ f l. refl;
}
