-- ===== src/EventLoopThread/Stop.antt =====
-- `Stop(true)` on a running thread: `StopInLoop` asks the service whether it has stopped and does not
-- stop it, so the worker never leaves `io_service::run`.
use libasio.Prelude.{
  ℕ, zero, suc, ◌≡◌, refl, ◌∙◌, true, false, Bool-cases, ◌==◌, inl, inr, List, [], ◌∷◌, some, ok,
}
use libasio.EventLoop
use libasio.EventLoop.{
  call, queue_in_loop, EventLoop, IoService, Task, user, stop_task, run_task, run_next, stop_loop,
}
use libasio.EventLoopThread.{
  Thread, step_at, steps, wait_stopped, stop, stop_and_wait, is_running, is_stopped, running,
  stopping, looping,
}

module _ {F : Type 0} (io : IoService F) where
  -- The worker is in `io_service::run`, with nothing that ends it.
  pub record IsLooping (t : Thread F) : Type 0 where
    pub loop : EventLoop F
    pub has_loop : t.ev_loop ≡ some loop
    pub runs : loop.running ≡ true
    pub not_stopped : io.has_stopped loop.calls ≡ false
    pub at_run : t.pc ≡ looping

  -- Running a task keeps the service as it was.
  run_next-calls :
      (q : List (Task F)) (l : EventLoop F)
      → ((run_next q l).running ≡ l.running)
        × (io.has_stopped (run_next q l).calls ≡ io.has_stopped l.calls)
  unfolding run_task
  run_next-calls [] l = (refl, refl)
  run_next-calls (user f ∷ q) l = (refl, refl)
  run_next-calls (stop_task ∷ q) l = (refl, io.has_stopped-stopped l.calls)

  -- A step of the worker leaves it there, with the status that it had.
  step-IsLooping :
      (t : Thread F)
      → IsLooping t
      → (t' : Thread F) × (step_at io t.pc t ≡ ok t') × IsLooping t' × (t'.status ≡ t.status)
  unfolding step_at
  step-IsLooping t h =
      let l = run_next h.loop.queue h.loop in
      let (r, s) = run_next-calls h.loop.queue h.loop in
      (
        record t { ev_loop = some l },
        simp (h.at_run, h.has_loop, h.not_stopped),
        record {
          loop = l;
          has_loop = refl;
          runs = r ∙ h.runs;
          not_stopped = s ∙ h.not_stopped;
          at_run = h.at_run;
        },
        refl,
      )

  pub steps-IsLooping :
      (n : ℕ) (t : Thread F)
      → IsLooping t
      → (t' : Thread F) × (steps io n t ≡ ok t') × IsLooping t' × (t'.status ≡ t.status)
  unfolding steps
  steps-IsLooping zero t h = (t, refl, h, refl)
  steps-IsLooping (suc n) t h =
      let (u, e, hu, s) = step-IsLooping t h in
      let (v, e', hv, s') = steps-IsLooping n u hu in (v, rw e e', hv, s' ∙ s)

  -- However often the owner polls, and however far the worker gets between the polls.
  wait_stopped-IsLooping :
      (ns : List ℕ) (t : Thread F)
      → IsLooping t
      → t.status ≡ stopping
      → (t' : Thread F) × (wait_stopped io ns t ≡ ok (false, t')) × IsLooping t'
  unfolding wait_stopped is_stopped
  wait_stopped-IsLooping [] t h s = (t, refl, h)
  wait_stopped-IsLooping (n ∷ ns) t h s =
      let (u, e, hu, s') = steps-IsLooping n t h in
      let st : u.status ≡ stopping = s' ∙ s in
      let (v, e', hv) = wait_stopped-IsLooping ns u hu st in (v, simp (e, st) e', hv)

  stop_loop-calls :
      (caller : ℕ) (l : EventLoop F)
      → l.running ≡ true
      → (l' : EventLoop F) × (stop_loop caller l ≡ ok l')
        × (l'.running ≡ true)
        × (io.has_stopped l'.calls ≡ io.has_stopped l.calls)
  unfolding stop_loop
  stop_loop-calls caller l r = elim (Bool-cases (caller == l.tid)) [
    | inl same ↦ (call EventLoop.stopped l, simp (r, same), r, io.has_stopped-stopped l.calls)
    | inr other ↦
        (queue_in_loop stop_task l, simp (r, other), r, io.has_stopped-post stop_task l.calls)
  ]

  -- `Stop` on a running thread returns, and the worker stays where it is.
  pub stop-IsLooping :
      (caller : ℕ) (t : Thread F)
      → IsLooping t
      → t.status ≡ running
      → (t' : Thread F) × (stop io caller t ≡ ok t') × IsLooping t' × (t'.status ≡ stopping)
  unfolding stop is_running
  stop-IsLooping caller t h s =
      let (l', e, r, n) = stop_loop-calls caller h.loop h.runs in
      (
        record t { status = stopping; ev_loop = some l' },
        simp (s, h.has_loop, h.runs, e),
        record {
          loop = l';
          has_loop = refl;
          runs = r;
          not_stopped = n ∙ h.not_stopped;
          at_run = h.at_run;
        },
        refl,
      )

  -- `Stop(true)` on a running thread never returns.
  pub stop_and_wait-IsLooping :
      (caller : ℕ) (rounds : List ℕ) (t : Thread F)
      → IsLooping t
      → t.status ≡ running
      → (t' : Thread F) × (stop_and_wait io caller rounds t ≡ ok (false, t')) × IsLooping t'
  unfolding stop_and_wait
  stop_and_wait-IsLooping caller rounds t h s =
      let (u, e, hu, z) = stop-IsLooping caller t h s in
      let (v, w, hv) = wait_stopped-IsLooping rounds u hu z in (v, rw e w, hv)
