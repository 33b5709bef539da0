-- ===== src/Tests/Loops.antt =====
-- Loops, their threads and the pool at concrete inputs: functors are numbers, and the service is
-- stopped by the first `stop`.
use libasio.Prelude.{
  assertion_failed, ℕ, ◌<◌, ◌≡◌, refl, Bool, true, false, List, [], ◌∷◌, ok, fault, codes, arith,
  ◌++◌,
}
use libasio.EventLoop.{IoCall, IoService, stop}
use libasio.EventLoop.Calls.{
  Event, run_in, queue_in, stop_by, take_next, History, functors, run_events, handed, handed_by,
  direct, direct_by, begin, turns,
}
use libasio.EventLoop.Order.{run_events-lem}
use libasio.EventLoopThread.{Thread, stop_and_wait}
use libasio.EventLoopThread.Start.{up, stop_and_wait-hangs}
use libasio.EventLoopThread.Stop.{IsLooping}
use libasio.EventLoopThreadPool
use libasio.EventLoopThreadPool.{Plan, Pool, thread}
use libasio.EventLoopThreadPool.Turns.{nth_turn, turns_are_fair}
use libasio.EventLoopThreadPool.Stop.{started, destroy-stop, AllStopping}

abbrev stop_called : List (IoCall ℕ) → Bool
stop_called [] = false
stop_called (stop ∷ t) = true
stop_called (_ ∷ t) = stop_called t

abbrev pub service : IoService ℕ
service = record {
  has_stopped = stop_called;
  has_stopped-new = refl;
  has_stopped-stop = λ t. refl;
  has_stopped-post = λ f t. refl;
  has_stopped-run = λ t. refl;
  has_stopped-stopped = λ t. refl;
}

-- The thread 7, made by the thread 1.
abbrev worker : Thread ℕ
worker = up service 1 7 (codes "7")

stop_and_wait-hangs_example :
    (t : Thread ℕ) × (stop_and_wait service 1 (2 ∷ 5 ∷ []) worker ≡ ok (false, t))
    × IsLooping service t
stop_and_wait-hangs_example = stop_and_wait-hangs service 1 7 (codes "7") 1 (2 ∷ 5 ∷ [])

abbrev pub text_of : ℕ → List ℕ
text_of i = codes "id"

-- A pool of three, two turns before its counter passes a multiple of three.
abbrev pub three : Pool ℕ
three = record { started = true; thread_num = 3; next = 4; threads = worker ∷ worker ∷ worker ∷ [] }

turns_are_fair_example :
    (j : ℕ) × (j < 3)
    × (nth_turn j three ≡ ok (thread 0))
    × ((k : ℕ) → k < 3 → nth_turn k three ≡ ok (thread 0) → k ≡ j)
turns_are_fair_example = turns_are_fair three 0 (omega arith) (omega arith)

abbrev slow : Plan
slow i = (i, 4 ∷ 4 ∷ [])

destroy-stop_example :
    (p : Pool ℕ) × (EventLoopThreadPool.stop service 1 false slow []
        (record (started service 1 text_of 2) { next = 3 })
      ≡ ok (true, p))
    × (p.started ≡ false)
    × AllStopping service p.threads
    × (EventLoopThreadPool.destroy p ≡ fault assertion_failed)
destroy-stop_example = destroy-stop service 1 text_of 1 3 1 slow []

-- The thread 7 runs the loop; the thread 2 hands over 10, and 12 after asking the loop to stop.
abbrev busy : List (Event ℕ)
busy = run_in 2 10 ∷ run_in 7 11 ∷ stop_by 2 ∷ take_next ∷ run_in 2 12 ∷ queue_in 13 ∷ []

run_events-lem_example :
    (h h' : History ℕ) × (run_events service busy (begin 1 7) ≡ ok h)
    × (h.at_once ≡ 11 ∷ [])
    × (h.later ++ functors h.loop.queue ≡ 10 ∷ 12 ∷ 13 ∷ [])
    × (run_events service (turns 6) h ≡ ok h')
    × (h'.later ≡ 10 ∷ 12 ∷ 13 ∷ [])
    × (h'.at_once ≡ 11 ∷ [])
unfolding direct direct_by handed handed_by
run_events-lem_example = run_events-lem service 1 7 busy
