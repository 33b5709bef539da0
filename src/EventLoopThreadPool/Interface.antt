-- ===== src/EventLoopThreadPool/Interface.antt =====
-- What an `EventLoopThreadPool` (src/event_loop_thread_pool.h) offers to a server: its public
-- methods, and what the server relies on. `S` is a pool; `rounds`, `plan` and `polls` are what the
-- workers do while they are awaited.
use libasio.Prelude.{ℕ, suc, ◌≤◌, ◌≡◌, refl, Bool, true, false, List, Result, ok}
use libasio.EventLoop.{IoService}
use libasio.EventLoopThread.Start.{total}
use libasio.EventLoopThreadPool
use libasio.EventLoopThreadPool.{Pool, Plan, Turn, base, thread, take_turn, get_thread_num}
use libasio.EventLoopThreadPool.Life.{start-runs}
use libasio.EventLoopThreadPool.Stop.{started, stop-started}

pub record PoolInterface (S : Type 0) : Type 0 where
  pub make : (thread_num : ℕ) → S
  pub destroy : S → Result (Unit {0})
  pub start : (wait_thread_started : Bool) → List ℕ → S → Result (Bool × S)
  pub stop : (caller : ℕ) (wait_thread_exit : Bool) → Plan → List (ℕ → ℕ) → S → Result (Bool × S)
  pub get_next_loop : S → Result (Turn × S)
  pub get_socket_for_accept : S → Result (Turn × S)
  pub is_running : S → Result Bool
  pub is_stopped : S → Result Bool
  pub get_thread_num : S → ℕ
  pub get_thread_num-make : (n : ℕ) → get_thread_num (make n) ≡ n
  pub is_running-make : (n : ℕ) → is_running (make n) ≡ ok false
  pub is_stopped-make : is_stopped (make 0) ≡ ok true
  -- A pool of no thread, which waits for none, can be destroyed.
  pub destroy-make : destroy (make 0) ≡ ok tt
  -- A new pool that is awaited runs, and a stop of it that is awaited does not return.
  pub start-runs :
      (n : ℕ) (rounds : List ℕ)
      → 3 ≤ total rounds
      → (s : S) × (start true rounds (make n) ≡ ok (true, s))
        × (is_running s ≡ ok true)
        × (get_thread_num s ≡ n)
        × ((k caller : ℕ) (plan : Plan) (polls : List (ℕ → ℕ))
            → n ≡ suc k
            → (s' : S) × (stop caller true plan polls s ≡ ok (false, s')))
  -- A pool of no thread gives out the base loop.
  pub get_next_loop-make : (n : ℕ) → get_next_loop (make n) ≡ ok (base, make n)
  -- Loops and sockets are given out in the same turns.
  pub get_socket_for_accept-get_next_loop : (s : S) → get_socket_for_accept s ≡ get_next_loop s

module _ {F : Type 0} (io : IoService F) (owner : ℕ) (id_text : ℕ → List ℕ) where
  unfoldable pub event_loop_thread_pool : PoolInterface (Pool F)
  unfolding EventLoopThreadPool.make EventLoopThreadPool.destroy EventLoopThreadPool.all_stopped
      EventLoopThreadPool.is_running EventLoopThreadPool.is_stopped take_turn get_thread_num started
  event_loop_thread_pool = record {
    make = EventLoopThreadPool.make;
    destroy = EventLoopThreadPool.destroy;
    start = EventLoopThreadPool.start io owner id_text;
    stop = EventLoopThreadPool.stop io;
    get_next_loop = take_turn;
    get_socket_for_accept = take_turn;
    is_running = EventLoopThreadPool.is_running;
    is_stopped = EventLoopThreadPool.is_stopped;
    get_thread_num = EventLoopThreadPool.get_thread_num;
    get_thread_num-make = λ n. refl;
    is_running-make = λ n. refl;
    is_stopped-make = refl;
    destroy-make = refl;
    start-runs = λ n rounds h.
        let (e, l, r) = start-runs io owner id_text n rounds h in
        (
          started io owner id_text n,
          e,
          r,
          refl,
          λ k caller plan polls q.
              let (p, x, y) = stop-started io owner id_text k caller plan polls in (p, rw q x),
        );
    get_next_loop-make = λ n. refl;
    get_socket_for_accept-get_next_loop = λ p. refl;
  }
