-- ===== src/EventLoopThread/Start.antt =====
-- `Start(true)` returns once the worker has made three steps, with the loop running.
use libasio.Prelude.{
  ℕ, zero, suc, ◌+◌, ◌≤◌, ◌<◌, ◌≡◌, refl, ◌∙◌, true, false, Bool-cases, leb, inl, inr, List, [],
  ◌∷◌, some, ok, arith, ap,
}
use libasio.EventLoop
use libasio.EventLoop.{EventLoop, IoService, begin_run}
use libasio.EventLoopThread.Stop.{IsLooping, stop_and_wait-IsLooping}
use libasio.EventLoopThread.{
  stop_and_wait, Thread, make, launch, step_at, steps, wait_running, start_and_wait, is_running,
  default_name, running, before, ready, looping,
}

-- The steps that the worker makes before all polls.
abbrev pub total : List ℕ → ℕ
total [] = 0
total (n ∷ ns) = n + total ns

module _ {F : Type 0} (io : IoService F) (owner worker : ℕ) (id : List ℕ) where
  at_entry : Thread F
  unfolding launch make
  at_entry = launch (make owner worker id)

  at_pre : Thread F
  unfolding at_entry
  at_pre = record at_entry { name = default_name [] id; status = running; pc = before }

  at_run : Thread F
  unfolding at_pre
  at_run = record at_pre { pc = ready }

  -- The thread in `io_service::run`.
  pub up : Thread F
  unfolding at_run
  up = record at_run { ev_loop = some (begin_run worker (EventLoop.make owner)); pc = looping }

  -- The new thread after so many steps of its worker.
  pub boot : ℕ → Thread F
  unfolding up
  boot zero = at_entry
  boot (suc zero) = at_pre
  boot (suc (suc zero)) = at_run
  boot (suc (suc (suc n))) = up

  step-boot : (k : ℕ) → step_at io (boot k).pc (boot k) ≡ ok (boot (suc k))
  unfolding boot step_at begin_run EventLoop.make default_name
  step-boot zero = refl
  step-boot (suc zero) = refl
  step-boot (suc (suc zero)) = refl
  step-boot (suc (suc (suc n))) = rw (io.has_stopped-run [], io.has_stopped-new)

  steps-boot : (n k : ℕ) → steps io n (boot k) ≡ ok (boot (n + k))
  unfolding steps
  steps-boot zero k = ap (λ j. ok (boot j)) (omega arith)
  steps-boot (suc n) k =
      let e : n + suc k ≡ suc n + k = omega arith in
      rw (step-boot k) (steps-boot n (suc k) ∙ ap (λ j. ok (boot j)) e)

  boot-up : (k : ℕ) → 3 ≤ k → boot k ≡ up
  unfolding boot
  boot-up zero h = absurd (omega arith)
  boot-up (suc zero) h = absurd (omega arith)
  boot-up (suc (suc zero)) h = absurd (omega arith)
  boot-up (suc (suc (suc n))) h = refl

  is_running-boot : (k : ℕ) → is_running (boot k) ≡ ok (leb 3 k)
  unfolding boot is_running begin_run EventLoop.make
  is_running-boot zero = refl
  is_running-boot (suc zero) = refl
  is_running-boot (suc (suc zero)) = refl
  is_running-boot (suc (suc (suc n))) = ground arith

  wait_running-boot :
      (ns : List ℕ) (k : ℕ) → k < 3 → 3 ≤ k + total ns → wait_running io ns (boot k) ≡ ok (true, up)
  unfolding wait_running
  wait_running-boot [] k h e = absurd (omega arith)
  wait_running-boot (n ∷ ns) k h e =
      rw (steps-boot n k, is_running-boot (n + k))
        (elim (Bool-cases (leb 3 (n + k))) [
          | inl b ↦ rw b (ap (λ t. ok (true, t)) (boot-up (n + k) (ground arith)))
          | inr b ↦ rw b (wait_running-boot ns (n + k) (ground arith) (omega arith))
        ])

  -- `Start(true)` on a new thread returns if the worker makes at least three steps between the
  -- polls, and then the loop runs and the status is running.
  pub start_and_wait-returns :
      (ns : List ℕ)
      → 3 ≤ total ns
      → (start_and_wait io ns (make owner worker id) ≡ ok (true, up))
        × (is_running up ≡ ok true)
        × (up.status ≡ running)
  unfolding start_and_wait boot is_running begin_run
  start_and_wait-returns ns h = (wait_running-boot ns 0 (omega arith) (omega arith), refl, refl)

  pub is_running-up : is_running up ≡ ok true
  unfolding up is_running begin_run
  is_running-up = refl

  pub up-status : up.status ≡ running
  unfolding up
  up-status = refl

  -- Its worker is in `io_service::run`.
  pub up-IsLooping : IsLooping io up
  unfolding up begin_run EventLoop.make
  up-IsLooping = record {
    loop = begin_run worker (EventLoop.make owner);
    has_loop = refl;
    runs = refl;
    not_stopped = io.has_stopped-run [] ∙ io.has_stopped-new;
    at_run = refl;
  }

  -- After `Start(true)`, `Stop(true)` never returns: whatever thread calls it, however often it
  -- polls, and however many steps the worker makes between the polls.
  pub stop_and_wait-hangs :
      (caller : ℕ) (rounds : List ℕ)
      → (t : Thread F) × (stop_and_wait io caller rounds up ≡ ok (false, t)) × IsLooping io t
  stop_and_wait-hangs caller rounds =
      stop_and_wait-IsLooping io caller rounds up up-IsLooping (unfold up in refl)
