-- ===== src/TcpServer/Accepting/Open.antt =====
-- A server (src/tcp_server.cc) that is open, and what it keeps when it accepts.
use libasio.Prelude.{
  some, none, fault, system_error, add_word, ℕ, zero, suc, ◌+◌, ◌%◌, ◌≤◌, ◌≡◌, ◌<◌, refl, ◌++◌,
  subst, ap, ap₂, ◌∙◌, true, false, List, [], ◌∷◌, ltb, ok, length, word, arith,
}
use libasio.TcpConn
use libasio.TcpConn.Types.{Endpoint}
use libasio.EventLoopThread.{Thread}
use libasio.EventLoopThreadPool.{Turn, base, thread, Pool}
use libasio.EventLoopThreadPool.Turns.{take_turn-in_range}
use libasio.TcpServer.{
  Server, insert, conn_name, accept, handle_new_conn, add_conn, take_answer, Answer, failure,
  socket, async_accept, accept_in_turn, handle_accept,
}
use libasio.TcpServer.Conns.{table, insert-table, AllBelow, AllBelow-snoc}
use libasio.TcpServer.Accepting.{numbers, turn_at, successes}

pub successes-bound : (fs : List Answer) → successes fs ≤ length fs
unfolding successes
successes-bound [] = omega arith
successes-bound (failure ∷ fs) = omega (arith, successes-bound fs)
successes-bound (socket ends ∷ fs) = omega (arith, successes-bound fs)

AllBelow-numbers : (c : ℕ) → AllBelow c (numbers c)
unfolding numbers
AllBelow-numbers zero = tt
AllBelow-numbers (suc c) =
    let e : c + 1 ≡ suc c = omega arith in
    subst (λ b. AllBelow b (numbers c ++ c ∷ [])) e
      (AllBelow-snoc c (numbers c) (AllBelow-numbers c))

module _ {F : Type 0} where
  -- The handler of an accept, once it has taken its answer.
  pub handle_accept-asks :
      (a : Answer) (t : Turn) (s s' : Server F)
      → take_answer a t s ≡ ok s'
      → s'.closed ≡ false
      → handle_accept a t s ≡ async_accept s'
  unfolding handle_accept
  handle_accept-asks a t s s' e h = rw (e, h) refl

  pub take_answer-told :
      (l r : Endpoint) (t : Turn) (s : Server F)
      → take_answer (socket (some (l, r))) t s ≡ ok (add_conn t s)
  unfolding take_answer handle_new_conn TcpConn.construct
  take_answer-told l r t s = refl

  -- A socket that does not tell its ends throws out of the handler.
  pub handle_accept-untold :
      (t : Turn) (s : Server F) → handle_accept (socket none) t s ≡ fault system_error
  unfolding handle_accept take_answer handle_new_conn TcpConn.construct
  handle_accept-untold t s = refl

module _ {F : Type 0} (name : List ℕ) (ts : List (Thread F)) where
  -- A server with `n` threads that is open and has asked for `k` sockets and had `c` of them; the
  -- threads of its pool are `ts`, and the connections of its table all those that it accepted.
  pub record Open (n k c : ℕ) (s : Server F) : Type 0 where
    pub listening : s.closed ≡ false
    pub wanted : s.pool.thread_num ≡ n
    pub present : length s.pool.threads ≡ n
    pub same : s.pool.threads ≡ ts
    pub begun : s.pool.started ≡ true
    pub turned : 0 < n → s.pool.next ≡ k
    pub had : s.next_conn_id ≡ c
    pub named : s.name ≡ name
    pub stored : s.conns ≡ table name (numbers c)

  pub async_accept-Open :
      (n k c : ℕ) (s : Server F)
      → k + 1 < word
      → Open n k c s
      → (s' : Server F) × (async_accept s ≡ ok s')
        × (s'.trace ≡ accept (turn_at n k) ∷ s.trace)
        × Open n (suc k) c s'
  unfolding async_accept accept_in_turn
  async_accept-Open zero k c s w i =
      let z : ltb 0 s.pool.thread_num ≡ false = ground (arith, i.wanted) in
      (
        record s { trace = accept base ∷ s.trace },
        rw z refl,
        refl,
        record {
          listening = i.listening;
          wanted = i.wanted;
          present = i.present;
          same = i.same;
          begun = i.begun;
          turned = λ l. absurd (omega (arith, l));
          had = i.had;
          named = i.named;
          stored = i.stored;
        },
      )
  async_accept-Open (suc n) k c s w i =
      let z : ltb 0 s.pool.thread_num ≡ true = ground (arith, i.wanted) in
      let e : s.pool.next % length s.pool.threads ≡ k % suc n =
        rw (i.present, i.turned (omega arith)) refl in
      let p : Pool F = record s.pool { next = add_word s.pool.next 1 } in
      let t = thread (s.pool.next % length s.pool.threads) in
      (
        record s { pool = p; trace = accept t ∷ s.trace },
        simp (z, (take_turn-in_range s.pool (omega (arith, i.present))).0),
        ap (λ j. accept (thread j) ∷ s.trace) e,
        record {
          listening = i.listening;
          wanted = i.wanted;
          present = i.present;
          same = i.same;
          begun = i.begun;
          turned = λ l. rw (i.turned l) (omega (arith, w));
          had = i.had;
          named = i.named;
          stored = i.stored;
        },
      )

  pub add_conn-Open :
      (n k c : ℕ) (t : Turn) (s : Server F)
      → c + 1 < word
      → Open n k c s
      → Open n k (suc c) (add_conn t s)
  unfolding add_conn numbers
  add_conn-Open n k c t s w i = record {
    listening = i.listening;
    wanted = i.wanted;
    present = i.present;
    same = i.same;
    begun = i.begun;
    turned = i.turned;
    had = rw (i.had) (omega (arith, w));
    named = i.named;
    stored =
        ap₂ (λ m j. insert (conn_name m j) j s.conns) i.named i.had
        ∙ (ap (insert (conn_name name c) c) i.stored
            ∙ insert-table name c (numbers c) (AllBelow-numbers c));
  }
