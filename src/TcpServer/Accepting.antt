-- ===== src/TcpServer/Accepting.antt =====
-- The accepts of a server that was started (`Start`, `AsyncAccept` and its handler in
-- src/tcp_server.cc), each answered by a socket or an error.
mod Open
pub mod InTurn
use libasio.Prelude.{
  ℕ, zero, suc, ◌%◌, Bool, true, false, Option, none, some, List, [], ◌∷◌, ◌++◌, ok, Result, ◌>>=◌,
  length,
}
use libasio.EventLoopThreadPool.{Turn, base, thread}
use libasio.TcpServer.{
  Server, Action, accept, attach, close_acceptor, close_conn, stop_pool, Answer, failure, socket,
  handle_accept,
}

-- The turn `k` of a pool of `n` threads.
abbrev pub turn_at : (n k : ℕ) → Turn
turn_at zero k = base
turn_at (suc n) k = thread (k % suc n)

-- The first `k` turns, newest first.
unfoldable pub turns : (n k : ℕ) → List Turn
turns n zero = []
turns n (suc k) = turn_at n k ∷ turns n k

-- The accepts of a trace.
unfoldable pub sockets : List Action → List Turn
sockets [] = []
sockets (accept t ∷ log) = t ∷ sockets log
sockets (attach c ∷ log) = sockets log
sockets (close_acceptor ∷ log) = sockets log
sockets (close_conn i ∷ log) = sockets log
sockets (stop_pool ∷ log) = sockets log

-- The connections that it attaches, each with the loop that it does that in.
unfoldable pub placed : List Action → List (ℕ × Turn)
placed [] = []
placed (accept t ∷ log) = placed log
placed (attach c ∷ log) = (c.id, c.loop) ∷ placed log
placed (close_acceptor ∷ log) = placed log
placed (close_conn i ∷ log) = placed log
placed (stop_pool ∷ log) = placed log

-- The loop that the newest accept is for.
abbrev pub newest : List Turn → Turn
newest [] = base
newest (t ∷ ts) = t

-- How many of the answers are sockets.
unfoldable pub successes : List Answer → ℕ
successes [] = 0
successes (failure ∷ fs) = successes fs
successes (socket ends ∷ fs) = suc (successes fs)

-- Each socket among the answers tells its ends.
unfoldable pub all_told : List Answer → Bool
all_told [] = true
all_told (failure ∷ fs) = all_told fs
all_told (socket none ∷ fs) = false
all_told (socket (some ends) ∷ fs) = all_told fs

-- The connections that the sockets become, if the answer after `k` others is for the turn `k`, newest
-- first.
unfoldable pub placements : (n : ℕ) → List Answer → List (ℕ × Turn)
placements n [] = []
placements n (failure ∷ fs) = placements n fs
placements n (socket ends ∷ fs) = (successes fs, turn_at n (length fs)) ∷ placements n fs

-- The numbers below `c`, in order.
unfoldable pub numbers : ℕ → List ℕ
numbers zero = []
numbers (suc c) = numbers c ++ c ∷ []

module _ {F : Type 0} where
  -- The handlers of the accepts that are answered, the newest answer first.
  unfoldable pub answer_all : List Answer → Server F → Result (Server F)
  answer_all [] s = ok s
  answer_all (f ∷ fs) s = do s' ← answer_all fs s; handle_accept f (newest (sockets s'.trace)) s'
