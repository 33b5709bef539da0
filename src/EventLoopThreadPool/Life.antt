-- ===== src/EventLoopThreadPool/Life.antt =====
-- Starting a pool, and asking whether it has stopped.
use libasio.Prelude.{
  append-nil, append_assoc, ℕ, zero, suc, ◌+◌, ◌≤◌, ◌≡◌, ◌≢◌, refl, sym, ap, ◌∙◌, true, List, [],
  ◌∷◌, ◌++◌, some, ok, fault, out_of_range, length, get_elem?, length-append, arith,
}
use libasio.EventLoop.{IoService}
use libasio.EventLoopThread.{Thread, is_running, set_name}
use libasio.EventLoopThread.Start.{total, up, is_running-up, start_and_wait-returns}
use libasio.EventLoopThreadPool
use libasio.EventLoopThreadPool.{Pool, spawn, spawn_all, start, all_running, all_stopped}

-- `IsStopped` of a pool of threads that was never started reads past the end of its vector.
pub is_stopped-make :
    (F : Type 0) (n : ℕ)
    → n ≢ 0
    → EventLoopThreadPool.is_stopped {F = F} (EventLoopThreadPool.make n) ≡ fault out_of_range
unfolding EventLoopThreadPool.is_stopped EventLoopThreadPool.make all_stopped
is_stopped-make F zero h = absurd (h refl)
is_stopped-make F (suc n) h = ground arith

pub get_elem?-append {ℓ} :
    {A : Type ℓ} (xs ys : List A) (y : A) → get_elem? (xs ++ y ∷ ys) (length xs) ≡ some y
get_elem?-append [] ys y = refl
get_elem?-append (x ∷ xs) ys y = get_elem?-append xs ys y

module _ {F : Type 0} where
  module _ (io : IoService F) (owner : ℕ) (id_text : ℕ → List ℕ) where
    -- The threads that `Start(true)` adds, from the thread `i` on.
    unfoldable pub workers : (k i : ℕ) → List (Thread F)
    workers zero i = []
    workers (suc k) i =
        set_name (EventLoopThreadPool.thread_name i) (up io owner i (id_text i)) ∷ workers k (i + 1)

    spawn-returns :
        (rounds : List ℕ) (i : ℕ)
        → 3 ≤ total rounds
        → spawn io owner id_text true rounds i
          ≡ ok (true, set_name (EventLoopThreadPool.thread_name i) (up io owner i (id_text i)))
    unfolding spawn
    spawn-returns rounds i h = simp ((start_and_wait-returns io owner i (id_text i) rounds h).0)

    spawn_all-returns :
        (rounds : List ℕ) (k i : ℕ) (ts : List (Thread F))
        → 3 ≤ total rounds
        → spawn_all io owner id_text true rounds k i ts ≡ ok (true, ts ++ workers k i)
    unfolding spawn_all workers
    spawn_all-returns rounds zero i ts h = rw append-nil
    spawn_all-returns rounds (suc k) i ts h =
        simp (spawn-returns rounds i h, spawn_all-returns rounds k (i + 1) (ts ++ _ ∷ []) h)
          (rw append_assoc)

    is_running-named :
        (name : List ℕ) (i : ℕ) → is_running (set_name name (up io owner i (id_text i))) ≡ ok true
    unfolding set_name is_running
    is_running-named name i = is_running-up io owner i (id_text i)

    all_running-workers :
        (k i : ℕ) (ts : List (Thread F))
        → length ts ≡ i
        → all_running k i (ts ++ workers k i) ≡ ok true
    unfolding all_running workers
    all_running-workers zero i ts h = refl
    all_running-workers (suc k) i ts h =
        let t = set_name (EventLoopThreadPool.thread_name i) (up io owner i (id_text i)) in
        let at : get_elem? (ts ++ t ∷ workers k (i + 1)) i ≡ some t =
          ap (get_elem? (ts ++ t ∷ workers k (i + 1))) (sym h)
          ∙ get_elem?-append ts (workers k (i + 1)) t in
        let l : length (ts ++ t ∷ []) ≡ i + 1 = omega (arith, length-append ts (t ∷ []), h) in
        let rest : all_running k (i + 1) (ts ++ t ∷ workers k (i + 1)) ≡ ok true =
          rw (append_assoc) at (all_running-workers k (i + 1) (ts ++ t ∷ []) l) in
        simp (at, is_running-named (EventLoopThreadPool.thread_name i) i) rest

    pub length-workers : (k i : ℕ) → length (workers k i) ≡ k
    unfolding workers
    length-workers zero i = refl
    length-workers (suc k) i = ap suc (length-workers k (i + 1))

    -- `Start(true)` on a new pool returns if each worker makes three steps while it is awaited; then
    -- the pool has all of its threads and runs.
    pub start-runs :
        (n : ℕ) (rounds : List ℕ)
        → 3 ≤ total rounds
        → let p = record (EventLoopThreadPool.make {F = F} n) {
          started = true;
          threads = workers n 0;
        } in
          (start io owner id_text true rounds (EventLoopThreadPool.make n) ≡ ok (true, p))
          × (length p.threads ≡ n)
          × (EventLoopThreadPool.is_running p ≡ ok true)
    unfolding start EventLoopThreadPool.make EventLoopThreadPool.is_running
    start-runs n rounds h = (
      simp (spawn_all-returns rounds n 0 [] h),
      length-workers n 0,
      all_running-workers n 0 [] refl,
    )
