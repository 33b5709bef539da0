-- ===== src/EventLoopThreadPool/Stop.antt =====
-- Stopping a pool: its threads, once started, do not stop.
use libasio.Prelude.{
  ap₂, subst, ℕ, zero, suc, ◌+◌, ◌≡◌, refl, sym, ap, ◌∙◌, true, false, List, [], ◌∷◌, ◌++◌,
  append_assoc, some, ok, fault, assertion_failed, length, length-append, get_elem?, ltb, ◌==◌,
  arith,
}
use libasio.EventLoop.{IoService}
use libasio.EventLoopThread.{Thread, running, stopping, is_stopped, set_name}
use libasio.EventLoopThread.Stop.{
  IsLooping, steps-IsLooping, stop-IsLooping, stop_and_wait-IsLooping,
}
use libasio.EventLoopThread.Start.{up-status, up-IsLooping}
use libasio.EventLoopThreadPool
use libasio.EventLoopThreadPool.{
  Pool, Plan, put, stop, stop_all, stop_thread, finish_stop, destroy, all_stopped,
}
use libasio.EventLoopThreadPool.Life.{workers, length-workers, get_elem?-append}

put-append :
    {A : Type 0} (xs ys : List A) (y z : A) → put (xs ++ y ∷ ys) (length xs) z ≡ xs ++ z ∷ ys
unfolding put
put-append [] ys y z = refl
put-append (x ∷ xs) ys y z = ap (◌∷◌ x) (put-append xs ys y z)

module _ {F : Type 0} (io : IoService F) where
  -- The thread runs, in `io_service::run`.
  pub record IsUp (t : Thread F) : Type 0 where
    pub loops : IsLooping io t
    pub status : t.status ≡ running

  abbrev pub AllUp : List (Thread F) → Type 0
  AllUp [] = Unit {0}
  AllUp (t ∷ ts) = IsUp t × AllUp ts

  abbrev pub AllStopping : List (Thread F) → Type 0
  AllStopping [] = Unit {0}
  AllStopping (t ∷ ts) = (t.status ≡ stopping) × AllStopping ts

  -- The threads of a pool that `Start(true)` started.
  pub workers-AllUp :
      (owner : ℕ) (id_text : ℕ → List ℕ) (k i : ℕ) → AllUp (workers io owner id_text k i)
  unfolding workers set_name
  workers-AllUp owner id_text zero i = tt
  workers-AllUp owner id_text (suc k) i =
      let l = up-IsLooping io owner i (id_text i) in
      (
        record {
          loops = record {
            loop = l.loop;
            has_loop = l.has_loop;
            runs = l.runs;
            not_stopped = l.not_stopped;
            at_run = l.at_run;
          };
          status = up-status io owner i (id_text i);
        },
        workers-AllUp owner id_text k (i + 1),
      )

  stop_all-hangs :
      (caller : ℕ) (plan : Plan) (k : ℕ) (t : Thread F) (ts : List (Thread F))
      → IsUp t
      → (ts' : List (Thread F)) × (stop_all io caller true plan (suc k) 0 (t ∷ ts)
          ≡ ok (false, ts'))
  unfolding stop_all stop_thread put
  stop_all-hangs caller plan k t ts h =
      let (t₁, e₁, h₁, s₁) = steps-IsLooping io (plan 0).0 t h.loops in
      let (t₂, e₂, h₂) = stop_and_wait-IsLooping io caller (plan 0).1 t₁ h₁ (s₁ ∙ h.status) in
      (t₂ ∷ ts, rw (e₁, e₂) refl)

  -- `Stop(true)` on a pool whose first thread runs does not return: that thread is still awaited,
  -- whatever thread calls and whatever the workers do meanwhile.
  stop-hangs :
      (caller : ℕ) (plan : Plan) (polls : List (ℕ → ℕ)) (p : Pool F) (k : ℕ) (t : Thread F)
      (ts : List (Thread F))
      → p.thread_num ≡ suc k
      → p.threads ≡ t ∷ ts
      → IsUp t
      → (p' : Pool F) × (stop io caller true plan polls p ≡ ok (false, p'))
        × (p'.started ≡ p.started)
  unfolding stop
  stop-hangs caller plan polls p k t ts n e h =
      let (ts', q) = stop_all-hangs caller plan k t ts h in
      let r : stop_all io caller true plan p.thread_num 0 p.threads ≡ ok (false, ts') =
        ap₂ (λ m us. stop_all io caller true plan m 0 us) n e ∙ q in
      (record p { threads = ts' }, rw r refl, refl)

  stop_all-AllStopping :
      (caller : ℕ) (plan : Plan) (k i : ℕ) (past ts : List (Thread F))
      → length past ≡ i
      → length ts ≡ k
      → AllUp ts
      → (ts' : List (Thread F)) × (stop_all io caller false plan k i (past ++ ts)
          ≡ ok (true, past ++ ts'))
        × AllStopping ts'
        × (length ts' ≡ k)
  unfolding stop_all stop_thread
  stop_all-AllStopping caller plan zero i past [] l n h = ([], refl, tt, refl)
  stop_all-AllStopping caller plan zero i past (t ∷ ts) l n h = absurd (omega (arith, n))
  stop_all-AllStopping caller plan (suc k) i past [] l n h = absurd (omega (arith, n))
  stop_all-AllStopping caller plan (suc k) i past (t ∷ ts) l n (u, us) =
      let at : get_elem? (past ++ t ∷ ts) i ≡ some t =
        ap (get_elem? (past ++ t ∷ ts)) (sym l) ∙ get_elem?-append past ts t in
      let (t₁, e₁, h₁, s₁) = steps-IsLooping io (plan i).0 t u.loops in
      let (t₂, e₂, h₂, s₂) = stop-IsLooping io caller t₁ h₁ (s₁ ∙ u.status) in
      let w : put (past ++ t ∷ ts) i t₂ ≡ past ++ t₂ ∷ ts =
        ap (λ j. put (past ++ t ∷ ts) j t₂) (sym l) ∙ put-append past ts t t₂ in
      let (ts', e, a, m) =
        stop_all-AllStopping caller plan k (i + 1) (past ++ t₂ ∷ []) ts
          (omega (arith, length-append past (t₂ ∷ []), l)) (omega arith) us in
      (
        t₂ ∷ ts',
        rw (at, e₁, e₂, w)
            (subst (λ us. stop_all io caller false plan k (i + 1) us ≡ ok (true, past ++ t₂ ∷ ts'))
              (append_assoc past (t₂ ∷ []) ts)
              (e ∙ ap (λ us. ok (true, us)) (append_assoc past (t₂ ∷ []) ts'))),
        (s₂, a),
        omega arith,
      )

  not_all_stopped :
      (n : ℕ) (ts : List (Thread F))
      → length ts ≡ suc n
      → AllStopping ts
      → all_stopped (suc n) 0 ts ≡ ok false
  unfolding all_stopped is_stopped
  not_all_stopped n [] l a = absurd (omega (arith, l))
  not_all_stopped n (t ∷ ts) l a = simp (a.0)

  destroy-AllStopping :
      (p : Pool F) (n : ℕ)
      → p.thread_num ≡ suc n
      → length p.threads ≡ suc n
      → AllStopping p.threads
      → destroy p ≡ fault assertion_failed
  unfolding destroy
  destroy-AllStopping p n k l a =
      let z : (p.thread_num == length p.threads) ≡ true = ground arith in
      let b : all_stopped p.thread_num 0 p.threads ≡ ok false =
        ap (λ m. all_stopped m 0 p.threads) k ∙ not_all_stopped n p.threads l a in
      rw (z, b) refl

module _ {F : Type 0} (io : IoService F) (owner : ℕ) (id_text : ℕ → List ℕ) where
  -- The pool of `n` threads that `Start(true)` leaves.
  unfoldable pub started : ℕ → Pool F
  started n = record (EventLoopThreadPool.make n) {
    started = true;
    threads = workers io owner id_text n 0;
  }

  -- The same of a pool that has those threads, whatever turns it gave.
  pub stop-workers :
      (n caller : ℕ) (plan : Plan) (polls : List (ℕ → ℕ)) (p : Pool F)
      → p.thread_num ≡ suc n
      → p.threads ≡ workers io owner id_text (suc n) 0
      → (p' : Pool F) × (stop io caller true plan polls p ≡ ok (false, p'))
        × (p'.started ≡ p.started)
  unfolding workers
  stop-workers n caller plan polls p k e =
      let all = workers-AllUp io owner id_text (suc n) 0 in
      stop-hangs io caller plan polls p n _ _ k e all.0

  -- Such a pool has not stopped.
  pub is_stopped-workers :
      (n : ℕ) (p : Pool F)
      → p.thread_num ≡ suc n
      → p.threads ≡ workers io owner id_text (suc n) 0
      → EventLoopThreadPool.is_stopped p ≡ ok false
  unfolding EventLoopThreadPool.is_stopped workers all_stopped is_stopped
  is_stopped-workers n p k e =
      let z : (suc n == 0) ≡ false = ground arith in
      let u = (workers-AllUp io owner id_text (suc n) 0).0.status in rw (k, e) (simp (z, u))

  -- A pool that `Start(true)` started, of at least one thread, is never stopped by `Stop(true)`: the
  -- call does not return, whatever thread makes it and whatever the workers do meanwhile.
  pub stop-started :
      (n caller : ℕ) (plan : Plan) (polls : List (ℕ → ℕ))
      → (p : Pool F) × (stop io caller true plan polls (started (suc n)) ≡ ok (false, p))
        × (p.started ≡ true)
  unfolding started EventLoopThreadPool.make
  stop-started n caller plan polls = stop-workers n caller plan polls (started (suc n)) refl refl

  -- `Stop(false)` of a pool that `Start(true)` started, of at least one thread, returns, whatever turns
  -- the pool gave. After it each thread of the pool is stopping, and destroying the pool fails an
  -- assertion.
  pub destroy-stop :
      (n turn caller : ℕ) (plan : Plan) (polls : List (ℕ → ℕ))
      → (p : Pool F) × (stop io caller false plan polls (record (started (suc n)) { next = turn })
          ≡ ok (true, p))
        × (p.started ≡ false)
        × AllStopping io p.threads
        × (destroy p ≡ fault assertion_failed)
  unfolding stop finish_stop destroy started EventLoopThreadPool.make
  destroy-stop n turn caller plan polls =
      let (ts, e, a, l) =
        stop_all-AllStopping io caller plan (suc n) 0 [] (workers io owner id_text (suc n) 0) refl
          (length-workers io owner id_text (suc n) 0) (workers-AllUp io owner id_text (suc n) 0) in
      let p : Pool F = record (EventLoopThreadPool.make (suc n)) { next = turn; threads = ts } in
      let z : ltb 0 (suc n) ≡ true = ground arith in
      (p, rw (e, z) refl, refl, a, destroy-AllStopping io p n refl l a)
