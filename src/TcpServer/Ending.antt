-- ===== src/TcpServer/Ending.antt =====
-- A server without threads (src/tcp_server.cc) from its start to its end.
use libasio.Prelude.{ℕ, List, [], ◌∷◌}
use libasio.EventLoopThreadPool
use libasio.TcpServer.{Server, remove_conn, conn_name}
use libasio.TcpServer.Conns.{remove_id}

unfoldable remove_ids : List ℕ → List ℕ → List ℕ
remove_ids [] live = live
remove_ids (i ∷ gone) live = remove_ids gone (remove_id i live)

module _ {F : Type 0} where
  -- The `RemoveConn` tasks of the connections `gone`, one after the other.
  unfoldable pub remove_all : List ℕ → Server F → Server F
  remove_all [] s = s
  remove_all (i ∷ gone) s = remove_all gone (remove_conn (conn_name s.name i) s)
