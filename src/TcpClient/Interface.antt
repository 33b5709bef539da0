-- ===== src/TcpClient/Interface.antt =====
-- What a `TCPClient` (src/tcp_client.h) offers to an application: its public methods, and what an
-- application relies on. `G` and `L` are the functors and the loop, `S` is a client.
use libasio.Prelude.{ℕ, ◌≡◌, refl, ◌∙◌, Bool, true, false, List, Option, none, Result, ok}
use libasio.EventLoop.Interface.{LoopInterface}
use libasio.TcpClient
use libasio.TcpClient.{Client, Held}
use libasio.TcpClient.Control

pub record ClientInterface (L S : Type 0) : Type 0 where
  pub make : (remote_addr : List ℕ) → (port : ℕ) → (name : List ℕ) → S
  pub destroy : (use_count : ℕ) → S → Result (Option Held)
  pub connect : S → S
  pub disconnect : (caller : ℕ) → L → S → Result (L × S)
  pub set_conn_callback : Option ℕ → S → S
  pub set_message_callback : Option ℕ → S → S
  pub get_auto_reconnect : S → Bool
  pub set_auto_reconnect : Bool → S → S
  pub get_reconnect_interval : S → ℕ
  pub set_reconnect_interval : ℕ → S → S
  pub get_tcp_conn : S → Option Held
  pub remote_address : S → List ℕ
  pub remote_port : S → ℕ
  pub get_name : S → List ℕ
  pub remote_address-make : (a : List ℕ) (p : ℕ) (n : List ℕ) → remote_address (make a p n) ≡ a
  pub remote_port-make : (a : List ℕ) (p : ℕ) (n : List ℕ) → remote_port (make a p n) ≡ p
  pub get_name-make : (a : List ℕ) (p : ℕ) (n : List ℕ) → get_name (make a p n) ≡ n
  pub get_tcp_conn-make : (a : List ℕ) (p : ℕ) (n : List ℕ) → get_tcp_conn (make a p n) ≡ none
  pub get_auto_reconnect-set_auto_reconnect :
      (v : Bool) (s : S) → get_auto_reconnect (set_auto_reconnect v s) ≡ v
  pub get_reconnect_interval-set_reconnect_interval :
      (n : ℕ) (s : S) → get_reconnect_interval (set_reconnect_interval n s) ≡ n
  -- Connecting is only begun by `connect`.
  pub get_tcp_conn-connect : (s : S) → get_tcp_conn (connect s) ≡ get_tcp_conn s
  pub get_tcp_conn-set_auto_reconnect :
      (v : Bool) (s : S) → get_tcp_conn (set_auto_reconnect v s) ≡ get_tcp_conn s
  pub get_auto_reconnect-connect : (s : S) → get_auto_reconnect (connect s) ≡ get_auto_reconnect s
  -- A client without a connection is destroyed without a failure.
  pub destroy-no_conn : (n : ℕ) (s : S) → get_tcp_conn s ≡ none → destroy n s ≡ ok none
  -- Disconnecting it in the loop's thread ends the attempts to reconnect; in another thread it
  -- leaves the client as it is.
  pub in_loop : (caller : ℕ) → L → Bool
  pub disconnect-here :
      (c : ℕ) (l : L) (s : S)
      → in_loop c l ≡ true
      → get_tcp_conn s ≡ none
      → (s' : S) × (disconnect c l s ≡ ok (l, s'))
        × (get_tcp_conn s' ≡ none)
        × (get_auto_reconnect s' ≡ false)
  pub disconnect-elsewhere :
      (c : ℕ) (l : L) (s : S) → in_loop c l ≡ false → (l' : L) × (disconnect c l s ≡ ok (l', s))

module _ {G L : Type 0} (loop : LoopInterface G L) (disconnect_fn : G) where
  unfoldable pub tcp_client : ClientInterface L Client
  unfolding TcpClient.make TcpClient.connect TcpClient.set_auto_reconnect
      TcpClient.set_reconnect_interval TcpClient.disconnect_in_loop TcpClient.close_held
      Control.destroy Control.release_held Control.disconnect Control.run_disconnect
      Control.get_auto_reconnect Control.get_reconnect_interval Control.get_tcp_conn
      Control.remote_address Control.remote_port Control.get_name
  tcp_client = record {
    make = TcpClient.make;
    destroy = Control.destroy;
    connect = TcpClient.connect;
    disconnect = λ c. Control.disconnect loop c disconnect_fn;
    set_conn_callback = TcpClient.set_conn_callback;
    set_message_callback = TcpClient.set_message_callback;
    get_auto_reconnect = Control.get_auto_reconnect;
    set_auto_reconnect = TcpClient.set_auto_reconnect;
    get_reconnect_interval = Control.get_reconnect_interval;
    set_reconnect_interval = TcpClient.set_reconnect_interval;
    get_tcp_conn = Control.get_tcp_conn;
    remote_address = Control.remote_address;
    remote_port = Control.remote_port;
    get_name = Control.get_name;
    remote_address-make = λ a p n. refl;
    remote_port-make = λ a p n. refl;
    get_name-make = λ a p n. refl;
    get_tcp_conn-make = λ a p n. refl;
    get_auto_reconnect-set_auto_reconnect = λ v t. refl;
    get_reconnect_interval-set_reconnect_interval = λ n t. refl;
    get_tcp_conn-connect = λ t. refl;
    get_tcp_conn-set_auto_reconnect = λ v t. refl;
    get_auto_reconnect-connect = λ t. refl;
    destroy-no_conn = λ n t h. rw h refl;
    in_loop = loop.is_in_loop_thread;
    disconnect-here = λ c l t h e. (
      record t { auto_reconnect = false; conn = none },
      rw (loop.run_in_loop-here c disconnect_fn l h, e) refl,
      refl,
      refl,
    );
    disconnect-elsewhere = λ c l t h. (_, Control.disconnect-elsewhere loop c disconnect_fn l t h);
  }

module _ {L S : Type 0} (client : ClientInterface L S) where
  -- A client that was made to connect and reconnect, and is disconnected in the loop's thread before
  -- it has a connection, reconnects no more, and is destroyed without a failure.
  destroy-disconnect :
      (a : List ℕ) (p : ℕ) (n : List ℕ) (c : ℕ) (l : L) (count : ℕ)
      → client.in_loop c l ≡ true
      → (s : S) × (client.disconnect c l
            (client.set_auto_reconnect true (client.connect (client.make a p n)))
          ≡ ok (l, s))
        × (client.get_auto_reconnect s ≡ false)
        × (client.destroy count s ≡ ok none)
  destroy-disconnect a p n c l count h =
      let t = client.connect (client.make a p n) in
      let e =
        client.get_tcp_conn-set_auto_reconnect true t
        ∙ (client.get_tcp_conn-connect (client.make a p n) ∙ client.get_tcp_conn-make a p n) in
      let (s, d, none_left, off) =
        client.disconnect-here c l (client.set_auto_reconnect true t) h e in
      (s, d, off, client.destroy-no_conn count s none_left)
