-- ===== src/TcpClient/Life.antt =====
-- A `TCPClient` (src/tcp_client.cc) over its life: what asio completes, what its connections notify, and
-- what the application calls. The completions are counted, so that the attempts and the timers that
-- still run are those that the client asked for less those that came. A completion that throws ends
-- the life.
mod Steps
pub mod Single
pub mod Steady
use libasio.Prelude.{
  ℕ, ◌+◌, ◌-◌, ◌<◌, ◌≡◌, Bool, true, false, List, Option, none, some, ◌==◌, if◌then◌else◌, ok,
}
use libasio.TcpConn.Types.{Ends, Callbacks}
use libasio.TcpConn.Socket.{Socket}
use libasio.TcpClient
use libasio.TcpClient.{
  Client, Held, reconnect, connect, connect_done, connect_failed, on_remove_conn,
  disconnect_in_loop, set_auto_reconnect, set_conn_callback, set_message_callback,
}
use libasio.TcpClient.Retries.{tries, waits}

pub record Life : Type 0 where
  pub client : Client
  pub completed : ℕ  -- attempts to connect that succeeded or failed
  pub fired : ℕ  -- timers that expired
  pub gone : ℕ → Bool  -- the connections whose close callback was called

-- The attempts that run, the timers that run, and whether a connection is held.
abbrev pub dialing : Life → ℕ
dialing s = tries s.client.trace - s.completed

abbrev pub waiting : Life → ℕ
waiting s = waits s.client.trace - s.fired

abbrev pub held_count : Option Held → ℕ
held_count none = 0
held_count (some h) = 1

-- The number of the connection that is held.
abbrev pub held_id : Option Held → Option ℕ
held_id none = none
held_id (some h) = some h.id

-- A new client, with its callbacks, that was asked to connect once.
abbrev pub begin :
    (remote_addr : List ℕ)
    → (port : ℕ) → (name : List ℕ) → (auto : Bool) → (cb mb : Option ℕ) → Life
begin a p n auto cb mb = record {
  client = connect (
      set_message_callback mb
        (set_conn_callback cb (set_auto_reconnect auto (TcpClient.make a p n))));
  completed = 0;
  fired = 0;
  gone = λ i. false;
}

-- Setters that the application may call at any time.
pub data Setting : Type 0 where
  auto_reconnect : Bool → Setting
  conn_callback : Option ℕ → Setting
  message_callback : Option ℕ → Setting

abbrev pub set : Setting → Client → Client
set (auto_reconnect v) t = set_auto_reconnect v t
set (conn_callback cb) t = set_conn_callback cb t
set (message_callback cb) t = set_message_callback cb t

module _ (sock : Socket) (app : Callbacks) (remove_fn : ℕ) where
  -- What may happen next, if every connection notifies its end at most once.
  pub data Move (s : Life) : Life → Type 0 where
    dialed :
        (ends : Ends) {t : Client}
        → 0 < dialing s
        → connect_done sock app remove_fn ends s.client ≡ ok t
        → Move s (record s { client = t; completed = s.completed + 1 })
    refused :
        0 < dialing s
        → Move s (record s { client = connect_failed s.client; completed = s.completed + 1 })
    expired : 0 < waiting s → Move s (record s { client = reconnect s.client; fired = s.fired + 1 })
    notified :
        (id : ℕ) {t : Client}
        → id < s.client.next_id
        → s.gone id ≡ false
        → on_remove_conn id s.client ≡ ok t
        → Move s (record s { client = t; gone = λ i. if i == id then true else s.gone i })
    disconnects :
        {t : Client} → disconnect_in_loop s.client ≡ ok t → Move s (record s { client = t })
    sets : (x : Setting) → Move s (record s { client = set x s.client })

  pub data Reach (s : Life) : Life → Type 0 where
    start : Reach s s
    later : {s' s'' : Life} → Reach s s' → Move s' s'' → Reach s s''
