-- ===== src/TcpServer.antt =====
-- `TCPServer` of src/tcp_server.h and src/tcp_server.cc: the connections that it accepted, by name,
-- and the turns in which its pool serves them. A connection is a number here, the one that the
-- server gave it; `Accepted` is what the server made of it. The acceptor, the sockets and the other
-- loops are asio's and other threads': what the server asks of them is listed in `trace`.
pub mod Names
pub mod Conns
pub mod Hosting
pub mod Accepting
pub mod Control
pub mod Serving
pub mod Ending
pub mod Members
pub mod Interface
use libasio.Prelude.{
  ℕ, Bool, true, false, not, List, [], ◌∷◌, ◌++◌, Option, none, some, codes, ltb, ◌==◌,
  if◌then◌else◌, add_word, Result, ok, ◌>>=◌,
}
use libasio.Prelude.Decimal.{to_string}
use libasio.TcpConn
use libasio.TcpConn.Types.{Ends}
use libasio.EventLoopThreadPool.{Pool, Turn, base, take_turn}
use libasio.EventLoopThreadPool

-- `==` of two `std::string`s.
unfoldable pub str_eq : List ℕ → List ℕ → Bool
str_eq [] [] = true
str_eq [] (d ∷ ds) = false
str_eq (c ∷ cs) [] = false
str_eq (c ∷ cs) (d ∷ ds) = if c == d then str_eq cs ds else false

-- What `HandleNewConn` sets up in a connection before it is attached.
pub record Accepted : Type 0 where
  pub id : ℕ
  pub name : List ℕ
  pub loop : Turn
  pub msg_fn : Option ℕ
  pub conn_fn : Option ℕ

-- What the server asks of the world. A task for another loop is run by that loop later.
pub data Action : Type 0 where
  accept : Turn → Action  -- `acceptor_.async_accept` into the socket of that loop
  attach : Accepted → Action  -- `loop->RunInLoop(OnAttachedToLoop)`
  close_acceptor : Action
  close_conn : ℕ → Action  -- `Close` of that connection
  stop_pool : Action  -- `tpool_->Stop(true)`

-- What an accept is answered by: an error, or a socket with what it tells of its ends.
pub data Answer : Type 0 where
  failure : Answer
  socket : Ends → Answer

-- `std::unordered_map<std::string, TCPConnPtr>`
abbrev pub ConnectionMap : Type 0
ConnectionMap = List (List ℕ × ℕ)

-- `conns_[k] = v`
unfoldable pub insert : List ℕ → ℕ → ConnectionMap → ConnectionMap
insert k v [] = (k, v) ∷ []
insert k v ((j, w) ∷ m) = if str_eq j k then (k, v) ∷ m else (j, w) ∷ insert k v m

-- `conns_.erase(k)`
unfoldable pub erase : List ℕ → ConnectionMap → ConnectionMap
erase k [] = []
erase k ((j, w) ∷ m) = if str_eq j k then m else (j, w) ∷ erase k m

unfoldable pub lookup : List ℕ → ConnectionMap → Option ℕ
lookup k [] = none
lookup k ((j, w) ∷ m) = if str_eq j k then some w else lookup k m

-- The name of a connection: `name_ + "-conn" + "#" + std::to_string(next_conn_id_++)`.
unfoldable pub conn_name : List ℕ → ℕ → List ℕ
conn_name n id = n ++ (codes "-conn" ++ (codes "#" ++ to_string id))

module _ (F : Type 0) where
  pub record Server : Type 0 where
    pub closed : Bool
    pub name : List ℕ
    pub pool : Pool F
    pub conn_fn : Option ℕ
    pub msg_fn : Option ℕ
    pub next_conn_id : ℕ
    pub conns : ConnectionMap
    pub trace : List Action  -- newest first

module _ {F : Type 0} where
  abbrev pub log : Action → Server F → Server F
  log a s = record s { trace = a ∷ s.trace }

  -- The constructor.
  unfoldable pub make : (name : List ℕ) (thread_num : ℕ) → Server F
  make n k = record {
    closed = false;
    name = n;
    pool = EventLoopThreadPool.make k;
    conn_fn = none;
    msg_fn = none;
    next_conn_id = 0;
    conns = [];
    trace = [];
  }

  unfoldable pub set_connection_callback : Option ℕ → Server F → Server F
  set_connection_callback cb s = record s { conn_fn = cb }

  unfoldable pub set_message_callback : Option ℕ → Server F → Server F
  set_message_callback cb s = record s { msg_fn = cb }

  -- `HandleNewConn`, for a socket that the loop `turn` is to serve, when the connection could be
  -- constructed.
  unfoldable pub add_conn : Turn → Server F → Server F
  add_conn turn s =
      let id = s.next_conn_id in
      let cn = conn_name s.name id in
      let conn : Accepted = record {
        id = id;
        name = cn;
        loop = turn;
        msg_fn = s.msg_fn;
        conn_fn = s.conn_fn;
      } in
      log (attach conn) (record s { next_conn_id = add_word id 1; conns = insert cn id s.conns })

  -- `HandleNewConn`: the constructor of the connection throws if the socket does not tell its ends.
  unfoldable pub handle_new_conn : Ends → Turn → Server F → Result (Server F)
  handle_new_conn ends turn s = do
    c ← TcpConn.construct (conn_name s.name s.next_conn_id) ends []
    ok (add_conn turn s)

  -- `AsyncAccept` where the pool has threads, and where the server's own socket accepts.
  unfoldable pub accept_in_turn : Server F → Result (Server F)
  accept_in_turn s = do (turn, p) ← take_turn s.pool; ok (log (accept turn) (record s { pool = p }))

  -- `AsyncAccept`
  unfoldable pub async_accept : Server F → Result (Server F)
  async_accept s = if ltb 0 s.pool.thread_num then accept_in_turn s else ok (log (accept base) s)

  -- The part of the completion handler before the next accept.
  unfoldable pub take_answer : Answer → Turn → Server F → Result (Server F)
  take_answer failure turn s = ok s
  take_answer (socket ends) turn s = handle_new_conn ends turn s

  -- The completion handler of an accept into the socket of the loop `turn`.
  unfoldable pub handle_accept : Answer → Turn → Server F → Result (Server F)
  handle_accept a turn s = do
    s' ← take_answer a turn s
    if not s'.closed then async_accept s' else ok s'

  -- The task of `RemoveConn`, run in the listening loop.
  unfoldable pub remove_conn : (name : List ℕ) → Server F → Server F
  remove_conn cn s = record s { conns = erase cn s.conns }

  unfoldable pub close_all : ConnectionMap → Server F → Server F
  close_all [] s = s
  close_all ((j, w) ∷ m) s = close_all m (log (close_conn w) s)
