-- ===== src/TcpServer/Accepting/InTurn.antt =====
-- A server accepts (src/tcp_server.cc) in the turns of its pool, and keeps what it accepted.
use libasio.Prelude.{
  none, some, fault, system_error, ℕ, suc, ◌+◌, ◌≤◌, ◌≡◌, ◌<◌, refl, ap, ap₂, Option, ◌∙◌, true,
  false, List, [], ◌∷◌, ok, length, word, arith,
}
use libasio.EventLoop.{IoService}
use libasio.EventLoopThread.{Thread}
use libasio.EventLoopThread.Start.{total}
use libasio.EventLoopThreadPool
use libasio.EventLoopThreadPool.{thread, Pool}
use libasio.EventLoopThreadPool.Life.{workers, start-runs}
use libasio.TcpServer.{
  Answer, failure, socket, add_conn, take_answer, Server, make, set_message_callback,
  set_connection_callback, async_accept, handle_accept,
}
use libasio.TcpServer.Conns.{table}
use libasio.TcpServer.Control.{start, after_start}
use libasio.TcpServer.Accepting.Open.{
  Open, successes-bound, async_accept-Open, handle_accept-asks, add_conn-Open, take_answer-told,
  handle_accept-untold,
}
use libasio.TcpServer.Accepting.{
  numbers, turn_at, turns, sockets, placed, newest, successes, placements, all_told, answer_all,
}

module _ {F : Type 0} (name : List ℕ) (ts : List (Thread F)) where
  -- The server after some answers.
  pub record Serves (n : ℕ) (fs : List Answer) (s : Server F) : Type 0 where
    pub state : Open name ts n (suc (length fs)) (successes fs) s
    pub asked : sockets s.trace ≡ turns n (suc (length fs))
    pub given : placed s.trace ≡ placements n fs

  -- The accept that follows an answer.
  next-Serves :
      (n : ℕ) (f : Answer) (fs : List Answer) (s : Server F)
      → length fs + 2 < word
      → Open name ts n (suc (length fs)) (successes (f ∷ fs)) s
      → sockets s.trace ≡ turns n (suc (length fs))
      → placed s.trace ≡ placements n (f ∷ fs)
      → (s' : Server F) × (async_accept s ≡ ok s') × Serves n (f ∷ fs) s'
  unfolding sockets placed turns
  next-Serves n f fs s w o a g =
      let (s', e, t, p) = async_accept-Open name ts n (suc (length fs)) _ s (omega (arith, w)) o in
      (
        s',
        e,
        record {
          state = p;
          asked = rw t (ap (◌∷◌ (turn_at n (suc (length fs)))) a);
          given = rw t g;
        },
      )

  handle_accept-Serves :
      (n : ℕ) (f : Answer) (fs : List Answer) (s : Server F)
      → length fs + 2 < word
      → all_told (f ∷ fs) ≡ true
      → Serves n fs s
      → (s' : Server F) × (handle_accept f (newest (sockets s.trace)) s ≡ ok s')
        × Serves n (f ∷ fs) s'
  unfolding add_conn take_answer successes placements sockets placed turns all_told
  handle_accept-Serves n failure fs s w k i =
      let t = newest (sockets s.trace) in
      let (s', e, j) = next-Serves n failure fs s w i.state i.asked i.given in
      (s', handle_accept-asks failure t s s refl i.state.listening ∙ e, j)
  handle_accept-Serves n (socket none) fs s w k i = cc
  handle_accept-Serves n (socket (some (l, r))) fs s w k i =
      let t = newest (sockets s.trace) in
      let a = socket (some (l, r)) in
      let g =
        ap₂ (λ c u. (c, u) ∷ placed s.trace) i.state.had (ap newest i.asked)
        ∙ ap (◌∷◌ (successes fs, turn_at n (length fs))) i.given in
      let o =
        add_conn-Open name ts n (suc (length fs)) (successes fs) t s
          (omega (arith, w, successes-bound fs)) i.state in
      let (s', e, j) = next-Serves n a fs (add_conn t s) w o i.asked g in
      (
        s',
        handle_accept-asks a t s (add_conn t s) (take_answer-told l r t s) i.state.listening ∙ e,
        j,
      )

  all_told-rest : (f : Answer) (fs : List Answer) → all_told (f ∷ fs) ≡ true → all_told fs ≡ true
  unfolding all_told
  all_told-rest failure fs k = k
  all_told-rest (socket none) fs k = cc
  all_told-rest (socket (some ends)) fs k = k

  pub answer_all-Serves :
      (n : ℕ) (fs : List Answer) (s : Server F)
      → length fs + 1 < word
      → all_told fs ≡ true
      → Serves n [] s
      → (s' : Server F) × (answer_all fs s ≡ ok s') × Serves n fs s'
  unfolding answer_all
  answer_all-Serves n [] s w k i = (s, refl, i)
  answer_all-Serves n (f ∷ fs) s w k i =
      let (s₁, e₁, i₁) = answer_all-Serves n fs s (omega (arith, w)) (all_told-rest f fs k) i in
      let (s₂, e₂, i₂) = handle_accept-Serves n f fs s₁ (omega (arith, w)) k i₁ in
      (s₂, rw e₁ e₂, i₂)

module _ {F : Type 0} where
  module _ (io : IoService F) (caller : ℕ) (id_text : ℕ → List ℕ) (rounds : List ℕ) where
    pub start-Serves :
        (name : List ℕ) (n : ℕ) (s : Server F)
        → 3 ≤ total rounds
        → s.closed ≡ false
        → s.pool ≡ EventLoopThreadPool.make n
        → s.next_conn_id ≡ 0
        → s.name ≡ name
        → s.conns ≡ []
        → s.trace ≡ []
        → (s' : Server F) × (start io caller id_text rounds s ≡ ok (true, s'))
          × Serves name (workers io caller id_text n 0) n [] s'
    unfolding start after_start EventLoopThreadPool.make table numbers sockets placed turns
        successes placements
    start-Serves name n s h c e z m d t =
        let (st, k, b) = start-runs io caller id_text n rounds h in
        let q = ap (EventLoopThreadPool.start io caller id_text true rounds) e ∙ st in
        let ts = workers io caller id_text n 0 in
        let p : Pool F = record (EventLoopThreadPool.make n) { started = true; threads = ts } in
        let (s', f, u, o) =
          async_accept-Open name ts n 0 0 (record s { pool = p }) (omega arith)
            record {
              listening = c;
              wanted = refl;
              present = k;
              same = refl;
              begun = refl;
              turned = λ l. refl;
              had = z;
              named = m;
              stored = d;
            } in
        (s', rw q (rw f refl), record { state = o; asked = rw (u, t) refl; given = rw (u, t) refl })

    pub accepts_in_turn :
        (name : List ℕ) (n : ℕ) (conn_fn msg_fn : Option ℕ) (fs : List Answer)
        → 3 ≤ total rounds
        → length fs + 1 < word
        → all_told fs ≡ true
        → let s = set_message_callback msg_fn (set_connection_callback conn_fn (make name n)) in
          (s₁ s₂ : Server F) × (start io caller id_text rounds s ≡ ok (true, s₁))
          × (answer_all fs s₁ ≡ ok s₂)
          × (sockets s₂.trace ≡ turns n (suc (length fs)))
          × (placed s₂.trace ≡ placements n fs)
          × (s₂.next_conn_id ≡ successes fs)
          × (s₂.pool.thread_num ≡ n)
          × (s₂.pool.threads ≡ workers io caller id_text n 0)
          × (s₂.pool.started ≡ true)
          × (s₂.conns ≡ table name (numbers (successes fs)))
          × (s₂.closed ≡ false)
          × (handle_accept (socket none) (newest (sockets s₂.trace)) s₂ ≡ fault system_error)
    unfolding set_message_callback set_connection_callback make
    accepts_in_turn name n conn_fn msg_fn fs h w k =
        let s = set_message_callback msg_fn (set_connection_callback conn_fn (make name n)) in
        let (s₁, e₁, i₁) = start-Serves name n s h refl refl refl refl refl refl in
        let ts = workers io caller id_text n 0 in
        let (s₂, e₂, i₂) = answer_all-Serves name ts n fs s₁ w k i₁ in
        let o = i₂.state in
        (
          s₁,
          s₂,
          e₁,
          e₂,
          i₂.asked,
          i₂.given,
          o.had,
          o.wanted,
          o.same,
          o.begun,
          o.stored,
          o.listening,
          handle_accept-untold (newest (sockets s₂.trace)) s₂,
        )
