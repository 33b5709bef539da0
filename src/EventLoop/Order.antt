-- ===== src/EventLoop/Order.antt =====
-- The functors that an `EventLoop` (src/event_loop.cc) is handed while it runs are run in order.
use libasio.Prelude.{
  ℕ, zero, suc, ◌+◌, ◌≤◌, ◌≡◌, refl, sym, ap, ◌∙◌, List, [], ◌∷◌, ◌++◌, ◌-◌, append_assoc,
  append-nil, length, ok, arith,
}
use libasio.EventLoop
use libasio.EventLoop.{
  EventLoop, Task, user, stop_task, IoService, begin_run, run_task, stop_in_loop,
}
use libasio.EventLoop.Calls.{
  Event, History, functors, taken, run_events, handed_by, direct_by, handed, direct, begin, turns,
}
use libasio.EventLoop.Steps.{in_order, IsServing, stays, taken-Came, step-take_next, step-Came}

module _ {F : Type 0} where
  module _ (io : IoService F) (w : ℕ) where
    run_events-serves :
        (es : List (Event F)) (h : History F)
        → IsServing io w h
        → (h' : History F) × (run_events io es h ≡ ok h')
          × IsServing io w h'
          × (in_order h' ≡ in_order h ++ handed w es)
          × (h'.at_once ≡ h.at_once ++ direct w es)
          × (length h'.loop.queue ≤ length h.loop.queue + length es)
    unfolding run_events handed direct
    run_events-serves [] h s = (h, refl, s, stays io w h, sym (append-nil h.at_once), omega arith)
    run_events-serves (e ∷ es) h s =
        let (h₁, e₁, c) = step-Came io w e h s in
        let (h₂, e₂, s₂, o, n, k) = run_events-serves es h₁ c.serving in
        (
          h₂,
          rw e₁ e₂,
          s₂,
          o
              ∙ (ap (◌++ handed w es) c.order
                  ∙ append_assoc (in_order h) (handed_by w e) (handed w es)),
          n ∙ (ap (◌++ direct w es) c.now ∙ append_assoc h.at_once (direct_by w e) (direct w es)),
          omega (arith, k, c.short),
        )

    taken-length :
        (q : List (Task F)) (h : History F)
        → h.loop.queue ≡ q
        → length (taken q h).loop.queue ≤ length q - 1
    unfolding taken run_task stop_in_loop
    taken-length [] h e = omega (arith, ap length e)
    taken-length (user f ∷ q) h e = omega arith
    taken-length (stop_task ∷ q) h e = omega arith

    no_tasks : (q : List (Task F)) → length q ≤ 0 → functors q ≡ []
    unfolding functors
    no_tasks [] l = refl
    no_tasks (f ∷ q) l = absurd (omega (arith, l))

    run_events-turns :
        (n : ℕ) (h : History F)
        → IsServing io w h
        → length h.loop.queue ≤ n
        → (h' : History F) × (run_events io (turns n) h ≡ ok h')
          × (h'.later ≡ in_order h)
          × (h'.at_once ≡ h.at_once)
    unfolding run_events turns handed_by direct_by
    run_events-turns zero h s l =
        let e = ap (◌++◌ h.later) (no_tasks h.loop.queue l) in
        (h, refl, sym (e ∙ append-nil h.later), refl)
    run_events-turns (suc n) h s l =
        let h₁ = taken h.loop.queue h in
        let d = taken-Came io w h.loop.queue h refl s in
        let (h₂, e₂, o, a) =
          run_events-turns n h₁ d.serving (omega (arith, taken-length h.loop.queue h refl)) in
        (
          h₂,
          rw (step-take_next io w h s) e₂,
          o ∙ (d.order ∙ append-nil (in_order h)),
          a ∙ (d.now ∙ append-nil h.at_once),
        )

module _ {F : Type 0} (io : IoService F) (owner w : ℕ) where
  begin-IsServing : IsServing io w (begin owner w)
  unfolding begin begin_run EventLoop.make
  begin-IsServing = record {
    runner = refl;
    runs = refl;
    not_stopped = io.has_stopped-run [] ∙ io.has_stopped-new;
  }

  -- A loop that a thread runs is a queue for the others: after any sequence of calls of RunInLoop,
  -- QueueInLoop and Stop and of steps of the loop, which all return, what the thread itself handed to
  -- RunInLoop has run at once, in that order, and what has run from the queue, then what waits there,
  -- is all else that was handed over, each once and in that order. After as many further steps of the
  -- loop as there were events nothing waits, even if Stop was called.
  pub run_events-lem :
      (es : List (Event F))
      → (h h' : History F) × (run_events io es (begin owner w) ≡ ok h)
        × (h.at_once ≡ direct w es)
        × (h.later ++ functors h.loop.queue ≡ handed w es)
        × (run_events io (turns (length es)) h ≡ ok h')
        × (h'.later ≡ handed w es)
        × (h'.at_once ≡ direct w es)
  unfolding begin begin_run EventLoop.make functors
  run_events-lem es =
      let (h, e, s, o, a, k) = run_events-serves io w es (begin owner w) begin-IsServing in
      let (h', e', o', a') = run_events-turns io w (length es) h s (omega (arith, k)) in
      (h, h', e, a, o, e', o' ∙ o, a' ∙ a)
