-- ===== src/EventLoopThread/Interface.antt =====
-- What an `EventLoopThread` (src/event_loop_thread.h) offers to a pool: its public methods, and what
-- the pool relies on. `L` is a loop, `S` a thread; `rounds` are the worker's steps before each poll.
use libasio.Prelude.{ℕ, ◌≤◌, ◌≡◌, refl, Bool, true, false, List, Option, some, Result, ok, ◌>>=◌}
use libasio.EventLoop
use libasio.EventLoop.{EventLoop, IoService}
use libasio.EventLoopThread
use libasio.EventLoopThread.{Thread, launch, start_and_wait, stop_and_wait, set_name}
use libasio.EventLoopThread.Start.{total, up, start_and_wait-returns, stop_and_wait-hangs}

pub record ThreadInterface (L S : Type 0) : Type 0 where
  pub make : (owner worker : ℕ) (id_text : List ℕ) → S
  pub destroy : (after : ℕ) → S → Result (Bool × S)
  pub start : (wait_thread_started : Bool) → List ℕ → S → Result (Bool × S)
  pub stop : (caller : ℕ) (wait_thread_exit : Bool) → List ℕ → S → Result (Bool × S)
  pub set_name : List ℕ → S → S
  pub name : S → List ℕ
  pub get_event_loop : S → Option L
  pub is_running : S → Result Bool
  pub is_stopped : S → Bool
  pub name-set_name : (n : List ℕ) (t : S) → name (set_name n t) ≡ n
  pub is_running-set_name : (n : List ℕ) (t : S) → is_running (set_name n t) ≡ is_running t
  pub is_stopped-set_name : (n : List ℕ) (t : S) → is_stopped (set_name n t) ≡ is_stopped t
  pub get_event_loop-make :
      (o w : ℕ) (id : List ℕ) → (l : L) × (get_event_loop (make o w id) ≡ some l)
  pub is_stopped-make : (o w : ℕ) (id : List ℕ) → is_stopped (make o w id) ≡ true
  pub is_running-make : (o w : ℕ) (id : List ℕ) → is_running (make o w id) ≡ ok false
  -- A thread that was never started is destroyed at once, with nothing to join.
  pub destroy-make : (o w : ℕ) (id : List ℕ) → destroy 0 (make o w id) ≡ ok (true, make o w id)
  -- A new thread that is awaited runs in the end, and then a stop of it is awaited without end.
  pub start-runs :
      (o w : ℕ) (id rounds : List ℕ)
      → 3 ≤ total rounds
      → (t : S) × (start true rounds (make o w id) ≡ ok (true, t))
        × (is_running t ≡ ok true)
        × (is_stopped t ≡ false)
        × ((caller : ℕ) (polls : List ℕ) → (t' : S) × (stop caller true polls t ≡ ok (false, t')))

module _ {F : Type 0} (io : IoService F) where
  -- `Start`
  unfoldable pub start : (wait_thread_started : Bool) → List ℕ → Thread F → Result (Bool × Thread F)
  start true rounds t = start_and_wait io rounds t
  start false rounds t = ok (true, launch t)

  -- `Stop`
  unfoldable pub stop :
      (caller : ℕ) (wait_thread_exit : Bool) → List ℕ → Thread F → Result (Bool × Thread F)
  stop caller true rounds t = stop_and_wait io caller rounds t
  stop caller false rounds t = do t' ← EventLoopThread.stop io caller t; ok (true, t')

  unfoldable pub event_loop_thread : ThreadInterface (EventLoop F) (Thread F)
  unfolding start stop EventLoopThread.make EventLoopThread.destroy EventLoopThread.steps
      EventLoopThread.set_name EventLoopThread.get_name EventLoopThread.get_event_loop
      EventLoopThread.is_running EventLoopThread.is_stopped EventLoop.make
  event_loop_thread = record {
    make = EventLoopThread.make;
    destroy = EventLoopThread.destroy io;
    start = start;
    stop = stop;
    set_name = EventLoopThread.set_name;
    name = EventLoopThread.get_name;
    get_event_loop = EventLoopThread.get_event_loop;
    is_running = EventLoopThread.is_running;
    is_stopped = EventLoopThread.is_stopped;
    name-set_name = λ n t. refl;
    is_running-set_name = λ n t. refl;
    is_stopped-set_name = λ n t. refl;
    get_event_loop-make = λ o w id. (_, refl);
    is_stopped-make = λ o w id. refl;
    is_running-make = λ o w id. refl;
    destroy-make = λ o w id. refl;
    start-runs = λ o w id rounds h.
        let (s, r, st) = start_and_wait-returns io o w id rounds h in
        (
          up io o w id,
          s,
          r,
          rw st refl,
          λ caller polls. let (t, e, l) = stop_and_wait-hangs io o w id caller polls in (t, e),
        );
  }

module _ {L S : Type 0} (worker : ThreadInterface L S) where
  -- A new thread that is awaited, then named, as a pool does: it runs under that name, and whether it
  -- was new or runs, it has not stopped.
  start-set_name :
      (o w : ℕ) (id rounds n : List ℕ)
      → 3 ≤ total rounds
      → (t : S) × (worker.start true rounds (worker.make o w id) ≡ ok (true, t))
        × (worker.name (worker.set_name n t) ≡ n)
        × (worker.is_running (worker.set_name n t) ≡ ok true)
        × (worker.is_stopped (worker.set_name n t) ≡ false)
  start-set_name o w id rounds n h =
      let (t, e, r, s, x) = worker.start-runs o w id rounds h in
      (
        t,
        e,
        worker.name-set_name n t,
        rw (worker.is_running-set_name n t) r,
        rw (worker.is_stopped-set_name n t) s,
      )
