-- ===== src/Tests/Servers.antt =====
-- A server at concrete inputs.
use mathlib.Core.List.{Perm, reverse, reverse_perm}
use libasio.Prelude.{ℕ, ◌≡◌, refl, true, false, List, [], ◌∷◌, some, ok, codes, arith}
use libasio.EventLoopThreadPool.{base}
use libasio.Tests.Conns.{nowhere}
use libasio.TcpServer.{
  Answer, failure, socket, lookup, conn_name, ConnectionMap, Server, stop_pool, make,
}
use libasio.TcpServer.Conns.{
  Event, opened, removed, run, run_ids, remove_id, table, AllBelow, conns_are_live,
}
use libasio.TcpServer.Members.{members, orderly, opens, removes, order_forgotten}
use libasio.Tests.Loops.{three, service, text_of}
use libasio.EventLoop.{EventLoop}
use libasio.EventLoopThreadPool
use libasio.EventLoopThreadPool.{Plan}
use libasio.EventLoopThreadPool.Stop.{started}
use libasio.TcpServer.Control.{stop_in_loop}
use libasio.TcpServer.Serving.{closings, stop_in_loop-hangs}

abbrev chat : Server ℕ
chat = record {
  closed = false;
  name = codes "chat";
  pool = three;
  conn_fn = some 0;
  msg_fn = some 1;
  next_conn_id = 2;
  conns = (codes "chat-conn#0", 0) ∷ (codes "chat-conn#1", 1) ∷ [];
  trace = [];
}

abbrev visits : List Event
visits = opened base ∷ opened base ∷ removed 0 ∷ opened base ∷ []

conns_are_live_example :
    ((run visits (make {F = ℕ} (codes "chat") 0)).conns ≡ table (codes "chat") (1 ∷ 2 ∷ []))
    × ((run visits (make {F = ℕ} (codes "chat") 0)).next_conn_id ≡ 3)
    × AllBelow 3 (1 ∷ 2 ∷ [])
unfolding run_ids remove_id
conns_are_live_example = conns_are_live ℕ visits (codes "chat") 0 (omega arith)

-- Without threads there is nothing to wait for.
abbrev alone : Server ℕ
alone = record chat { pool = record { started = true; thread_num = 0; next = 0; threads = [] } }

abbrev no_plan : Plan
no_plan i = (0, [])

-- An iteration that comes to the elements the other way round.
abbrev backwards : ConnectionMap → ConnectionMap
backwards m = reverse m

abbrev busy : Server ℕ
busy = record chat { pool = record (started service 1 text_of 2) { next = 3 } }

stop_in_loop-hangs_example :
    (s : Server ℕ) × (closed : List ℕ) × (stop_in_loop service 1 backwards no_plan [] busy
      ≡ ok (false, s))
    × (s.trace ≡ stop_pool ∷ closings closed busy)
    × Perm closed (0 ∷ 1 ∷ [])
    × (s.closed ≡ false)
unfolding started EventLoopThreadPool.make
stop_in_loop-hangs_example =
    stop_in_loop-hangs service 1 backwards text_of no_plan [] busy 1 (reverse_perm busy.conns) refl
      refl

abbrev listening : EventLoop ℕ
listening = record { tid = 1; running = true; queue = []; calls = [] }

-- Two sockets with an error between them, the newest answer first.
abbrev accepted : Answer
accepted = socket (some (nowhere, nowhere))

abbrev answers : List Answer
answers = accepted ∷ failure ∷ accepted ∷ []

-- Three sockets, the second of which goes before the third comes or after it.
abbrev early : List Event
early = opened base ∷ opened base ∷ removed 1 ∷ opened base ∷ removed 0 ∷ []

abbrev late : List Event
late = opened base ∷ removed 0 ∷ opened base ∷ opened base ∷ removed 1 ∷ removed 1 ∷ []

order_forgotten_example :
    let s = run early (make {F = ℕ} (codes "chat") 0) in
    let s' = run late (make {F = ℕ} (codes "chat") 0) in
    (members s ≡ members s')
    × ((i : ℕ)
        → lookup (conn_name (codes "chat") i) s.conns
          ≡ lookup (conn_name (codes "chat") i) s'.conns)
    × (s.next_conn_id ≡ s'.next_conn_id)
unfolding orderly opens removes
order_forgotten_example =
    order_forgotten ℕ early late (codes "chat") 0 (omega arith) (omega arith) refl refl refl
      (λ i. ground arith)
