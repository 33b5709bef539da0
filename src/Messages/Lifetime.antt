-- ===== src/Messages/Lifetime.antt =====
-- The end of the objects of src/tcp_server_impl.h and src/tcp_client_impl.h: their destructors let go
-- of the server and of the client that they hold.
use libasio.Prelude.{
  ℕ, zero, suc, ◌+◌, ◌≤◌, ◌<◌, ◌≡◌, Bool, true, false, Option, some, List, length, word, ok, fault,
  assertion_failed, Result,
}
use libasio.EventLoop.{IoService}
use libasio.EventLoopThread.Start.{total}
use libasio.EventLoopThreadPool
use libasio.EventLoopThreadPool.{Pool}
use libasio.EventLoopThreadPool.Life.{workers}
use libasio.EventLoopThreadPool.Stop.{is_stopped-workers}
use libasio.TcpServer.{Answer, Server, ConnectionMap}
use libasio.TcpServer.Control as ServerControl
use libasio.TcpServer.Accepting.{answer_all, all_told}
use libasio.TcpServer.Accepting.InTurn.{accepts_in_turn}
use libasio.TcpClient.{Held}
use libasio.TcpClient.Control as ClientControl
use libasio.Messages.Impl.{ClientImpl, server_impl, on_connect_fn, on_recv_data_fn}

-- `~TcpServerImpl`, which holds the only pointer to the server.
unfoldable pub destroy_server_impl :
    {F : Type 0} → (acceptor_open : Bool) → Server F → Result (Unit {0})
destroy_server_impl acceptor_open s = ServerControl.destroy acceptor_open s

-- `~TcpClientImpl`, which holds the only pointer to the client.
unfoldable pub destroy_client_impl : (use_count : ℕ) → ClientImpl → Result (Option Held)
destroy_client_impl n i = ClientControl.destroy n i.client

module _ {F : Type 0} (io : IoService F) (caller : ℕ) (id_text : ℕ → List ℕ) where
  is_stopped-served :
      (n : ℕ) (p : Pool F)
      → p.thread_num ≡ n
      → p.threads ≡ workers io caller id_text n 0
      → p.started ≡ true
      → EventLoopThreadPool.is_stopped p ≡ ok false
  unfolding EventLoopThreadPool.is_stopped
  is_stopped-served zero p k e b = simp (k, b)
  is_stopped-served (suc n) p k e b = is_stopped-workers io caller id_text n p k e

  -- A `TcpServerImpl` whose constructor returned, with workers that each make at least three steps
  -- while they are awaited, and the accepts of which were answered by errors and by sockets that tell
  -- their ends, fewer than the counters can number, cannot be destroyed: an assertion fails, for every
  -- number of threads, whether its acceptor is open or not, and whatever connections are left in its
  -- table.
  pub server_impl-lasts :
      (rounds : List ℕ) (name : List ℕ) (n : ℕ) (fs : List Answer) (acceptor_open : Bool)
      (m : ConnectionMap)
      → 3 ≤ total rounds
      → length fs + 1 < word
      → all_told fs ≡ true
      → (s₁ s₂ : Server F) × (server_impl io caller id_text rounds name n ≡ ok (true, s₁))
        × (answer_all fs s₁ ≡ ok s₂)
        × (destroy_server_impl acceptor_open (record s₂ { conns = m }) ≡ fault assertion_failed)
  unfolding destroy_server_impl server_impl ServerControl.destroy
  server_impl-lasts rounds name n fs o m h w told =
      let (s₁, s₂, e₁, e₂, _, _, _, k, t, b, _, _, _) =
        accepts_in_turn io caller id_text rounds name n (some on_connect_fn) (some on_recv_data_fn)
          fs h w told in
      (s₁, s₂, e₁, e₂, simp (is_stopped-served n s₂.pool k t b))
