-- ===== src/EventLoop/Steps.antt =====
-- What one call, or one step, makes of an `EventLoop` (src/event_loop.cc) that serves.
use libasio.Prelude.{
  ℕ, ◌+◌, ◌≤◌, ◌≡◌, refl, sym, ap, ◌∙◌, true, false, Bool-cases, inl, inr, List, [], ◌∷◌, ◌++◌,
  append_assoc, append-nil, ◌==◌, length, length-append, ok, arith,
}
use libasio.EventLoop.{
  EventLoop, Task, user, stop_task, IoService, queue_in_loop, run_in_loop, run_task, stop_loop,
  stop_in_loop, is_in_loop_thread,
}
use libasio.EventLoop.Calls.{
  Event, run_in, queue_in, stop_by, take_next, History, functors, called, taken, step, handed_by,
  direct_by,
}

module _ {F : Type 0} where
  functors-append : (p q : List (Task F)) → functors (p ++ q) ≡ functors p ++ functors q
  unfolding functors
  functors-append [] q = refl
  functors-append (user f ∷ p) q = ap (◌∷◌ f) (functors-append p q)
  functors-append (stop_task ∷ p) q = functors-append p q

  -- All that was handed over, in the order in which the loop runs it.
  abbrev pub in_order : History F → List F
  in_order h = h.later ++ functors h.loop.queue

  stop_loop-here :
      (c : ℕ) (l : EventLoop F)
      → l.running ≡ true
      → (c == l.tid) ≡ true
      → stop_loop c l ≡ ok (stop_in_loop l)
  unfolding stop_loop run_in_loop is_in_loop_thread
  stop_loop-here c l r b = simp (r, b)

  stop_loop-elsewhere :
      (c : ℕ) (l : EventLoop F)
      → l.running ≡ true
      → (c == l.tid) ≡ false
      → stop_loop c l ≡ ok (queue_in_loop stop_task l)
  unfolding stop_loop run_in_loop is_in_loop_thread
  stop_loop-elsewhere c l r b = simp (r, b)

  module _ (io : IoService F) (w : ℕ) where
    -- The loop is run by `w` and serves.
    pub record IsServing (h : History F) : Type 0 where
      pub runner : h.loop.tid ≡ w
      pub runs : h.loop.running ≡ true
      pub not_stopped : io.has_stopped h.loop.calls ≡ false

    -- What an event makes of `h`.
    pub record Came (e : Event F) (h h' : History F) : Type 0 where
      pub serving : IsServing h'
      pub order : in_order h' ≡ in_order h ++ handed_by w e
      pub now : h'.at_once ≡ h.at_once ++ direct_by w e
      pub short : length h'.loop.queue ≤ length h.loop.queue + 1

    queued :
        (f : Task F) (h : History F)
        → in_order (record h { loop = queue_in_loop f h.loop }) ≡ in_order h ++ functors (f ∷ [])
    unfolding queue_in_loop
    queued f h =
        ap (◌++◌ h.later) (functors-append h.loop.queue (f ∷ []))
        ∙ sym (append_assoc h.later (functors h.loop.queue) (functors (f ∷ [])))

    queued-length :
        (f : Task F) (l : EventLoop F) → length (queue_in_loop f l).queue ≤ length l.queue + 1
    unfolding queue_in_loop
    queued-length f l = omega (arith, length-append l.queue (f ∷ []))

    pub stays : (h : History F) → in_order h ≡ in_order h ++ []
    stays h = sym (append-nil (in_order h))

    queue-IsServing :
        (f : Task F) (h : History F)
        → IsServing h
        → IsServing (record h { loop = queue_in_loop f h.loop })
    unfolding queue_in_loop
    queue-IsServing f h s = record {
      runner = s.runner;
      runs = s.runs;
      not_stopped = io.has_stopped-post f h.loop.calls ∙ s.not_stopped;
    }

    pub taken-Came :
        (q : List (Task F)) (h : History F)
        → h.loop.queue ≡ q
        → IsServing h
        → Came take_next h (taken q h)
    unfolding taken functors run_task stop_in_loop handed_by direct_by
    taken-Came [] h e s = record {
      serving = s;
      order = stays h;
      now = sym (append-nil h.at_once);
      short = omega arith;
    }
    taken-Came (user f ∷ q) h e s = record {
      serving = record { runner = s.runner; runs = s.runs; not_stopped = s.not_stopped };
      order =
          append_assoc h.later (f ∷ []) (functors q)
          ∙ (sym (ap (λ r. h.later ++ functors r) e) ∙ stays h);
      now = sym (append-nil h.at_once);
      short = omega (arith, ap length e);
    }
    taken-Came (stop_task ∷ q) h e s = record {
      serving = record {
        runner = s.runner;
        runs = s.runs;
        not_stopped = io.has_stopped-stopped h.loop.calls ∙ s.not_stopped;
      };
      order =
          append_assoc h.later [] (functors q)
          ∙ (sym (ap (λ r. h.later ++ functors r) e) ∙ stays h);
      now = sym (append-nil h.at_once);
      short = omega (arith, ap length e);
    }

    pub step-take_next :
        (h : History F) → IsServing h → step io take_next h ≡ ok (taken h.loop.queue h)
    unfolding step
    step-take_next h s = rw (s.not_stopped) refl

    pub step-Came :
        (e : Event F) (h : History F)
        → IsServing h
        → (h' : History F) × (step io e h ≡ ok h') × Came e h h'
    unfolding step called run_in_loop is_in_loop_thread handed_by direct_by functors stop_in_loop
    step-Came (run_in c f) h s = elim (Bool-cases (c == h.loop.tid)) [
      | inl b ↦
          let bw : (c == w) ≡ true = ap (λ k. c == k) (sym s.runner) ∙ b in
          (
            record h { at_once = h.at_once ++ f ∷ [] },
            rw b refl,
            record {
              serving = record { runner = s.runner; runs = s.runs; not_stopped = s.not_stopped };
              order = rw bw (stays h);
              now = rw bw refl;
              short = omega arith;
            },
          )
      | inr b ↦
          let bw : (c == w) ≡ false = ap (λ k. c == k) (sym s.runner) ∙ b in
          (
            record h { loop = queue_in_loop (user f) h.loop },
            rw b (
                ap (λ a. ok (record h { loop = queue_in_loop (user f) h.loop; at_once = a }))
                  (append-nil h.at_once)),
            record {
              serving = queue-IsServing (user f) h s;
              order = rw bw (queued (user f) h);
              now = rw bw (sym (append-nil h.at_once));
              short = queued-length (user f) h.loop;
            },
          )
    ]
    step-Came (queue_in f) h s = (
      record h { loop = queue_in_loop (user f) h.loop },
      refl,
      record {
        serving = queue-IsServing (user f) h s;
        order = queued (user f) h;
        now = sym (append-nil h.at_once);
        short = queued-length (user f) h.loop;
      },
    )
    step-Came (stop_by c) h s = elim (Bool-cases (c == h.loop.tid)) [
      | inl b ↦ (
        record h { loop = stop_in_loop h.loop },
        rw (stop_loop-here c h.loop s.runs b) refl,
        record {
          serving = record {
            runner = s.runner;
            runs = s.runs;
            not_stopped = io.has_stopped-stopped h.loop.calls ∙ s.not_stopped;
          };
          order = stays h;
          now = sym (append-nil h.at_once);
          short = omega arith;
        },
      )
      | inr b ↦ (
        record h { loop = queue_in_loop stop_task h.loop },
        rw (stop_loop-elsewhere c h.loop s.runs b) refl,
        record {
          serving = queue-IsServing stop_task h s;
          order = queued stop_task h;
          now = sym (append-nil h.at_once);
          short = queued-length stop_task h.loop;
        },
      )
    ]
    step-Came take_next h s =
        (taken h.loop.queue h, step-take_next h s, taken-Came h.loop.queue h refl s)
