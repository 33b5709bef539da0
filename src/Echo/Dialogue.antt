-- ===== src/Echo/Dialogue.antt =====
-- The echo server (examples/tcp_echo/server/server.cc) and a client, each on its connection.
use libasio.Prelude.{◌≡◌, ◌∙◌, List, ℕ, ◌++◌, codes}
use libasio.ByteBuffer.Bytes.{readable}
use libasio.TcpConn.Types.{Endpoint, Callbacks}
use libasio.TcpConn.Socket.{Socket}
use libasio.TcpConn.Taking.{asked}
use libasio.TcpConn.Traffic.{messages}
use libasio.TcpConn.Traffic.Steps.{Consuming}
use libasio.Link.Arrival.{bytes_arrive}
use libasio.Link.Duplex.{Duplex, connect_both, Reach, Reach-homeward, right_run}
use libasio.Echo.{server}
use libasio.Echo.Safe.{server-Keeps}
use libasio.Echo.Traffic.{server-Consuming}
use libasio.Echo.Answers.{repeated, Unprompted, answers_each}

module _ (sock sock' : Socket) (app : Callbacks) where
  -- The echo server on the right and an application on the left that takes what it is shown, on two
  -- new connections: after any sequence of moves, none of them a call of `Send` on the server's
  -- connection from outside its callbacks, what the left application was shown, then what travels to
  -- it, then what the server's connection writes and what waits there, is one greeting for each
  -- message that the server was shown while its socket was open.
  pub client_hears :
      (n n' : List ℕ) (l r l' r' : Endpoint) {k : Duplex}
      → Consuming app
      → (reach : Reach sock sock' app (server sock') (connect_both n n' l r l' r') k)
      → Unprompted sock' (right_run sock sock' app (server sock') reach)
      → messages k.left.trace
          ++ (k.back ++ (readable k.right.writing_buffer ++ readable k.right.write_buffer))
        ≡ repeated (asked sock' k.right.trace) (codes "server say hello!")
  client_hears n n' l r l' r' takes reach u =
      bytes_arrive sock' sock (server sock') app (server-Keeps sock')
        (server-Consuming sock').honest takes n' n l' r' l r
        (Reach-homeward sock sock' app (server sock') reach)
      ∙ answers_each sock' n' l' r' (right_run sock sock' app (server sock') reach) u
