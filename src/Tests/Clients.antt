-- ===== src/Tests/Clients.antt =====
-- A client at concrete inputs: the socket stays open until it is closed, and the callbacks of the
-- application do nothing.
use libasio.Prelude.{
  ◌⊎◌, ◌+◌, ◌≤◌, ◌≡◌, refl, true, false, [], ◌∷◌, none, some, ok, fault, assertion_failed, codes,
  arith,
}
use libasio.TcpConn.Types.{Conn}
use libasio.TcpConn
use libasio.TcpClient
use libasio.TcpClient.Life
use libasio.TcpClient.Life.{
  Life, dialing, waiting, held_count, held_id, begin, Reach, start, later, dialed, expired,
  notified,
}
use libasio.TcpClient.Life.Steady.{under_way, steady, never_idle}
use libasio.TcpClient.Life.Single.{one_at_a_time, notice_in_life}
use libasio.TcpConn.{async_read, set_type, set_close_callback}
use libasio.TcpConn.Handlers.{on_attached_to_loop, must_notify_conn}
use libasio.TcpClient.{
  default_max_reconnect_time, connect, set_auto_reconnect, set_conn_callback, set_message_callback,
  handle_conn, hold_conn, new_conn, on_remove_held, Client, Held, async_connect, async_wait,
  on_remove_conn, disconnect_in_loop, connect_done, reconnect, connect_failed,
}
use libasio.TcpClient.Retries.{tries, waits, refused, GaveUp, refused-GaveUp, disconnect-overtaken}
use libasio.TcpClient.Notices.{disconnect_twice, notice-repeated}
use libasio.Echo.{silent}
use libasio.Tests.Conns.{plain, nowhere}

abbrev pub talker : Client
talker = record {
  remote_addr = codes "::1";
  remote_port = 3200;
  name = codes "talker";
  auto_reconnect = true;
  reconnect_interval = 3;
  reconnecting_times = 2;
  conn = none;
  conn_fn = some 0;
  msg_fn = some 1;
  next_id = 4;
  trace = async_connect (codes "::1") 3200 ∷ [];
}

-- The connection 3, attached.
abbrev pub third : Held
unfolding TcpConn.make
third = record {
  id = 3;
  conn = record (TcpConn.make (codes "talker") nowhere nowhere []) {
    status = TcpConn.Types.connected;
  };
}

abbrev pub linked : Client
linked = record talker { conn = some third }

refused-GaveUp_example : GaveUp talker 3 (refused 4 talker)
refused-GaveUp_example = refused-GaveUp 4 3 talker refl refl (omega arith)

disconnect-overtaken_example :
    (t₁ t₂ : Client) × (h : Held) × (disconnect_in_loop (connect_failed talker) ≡ ok t₁)
    × (t₁.trace ≡ async_wait 3 ∷ talker.trace)
    × ((reconnect t₁).trace ≡ async_connect (codes "::1") 3200 ∷ t₁.trace)
    × (connect_done plain silent 9 (some (nowhere, nowhere)) (reconnect t₁) ≡ ok t₂)
    × (t₂.conn ≡ some h)
    × (t₂.auto_reconnect ≡ false)
disconnect-overtaken_example =
    disconnect-overtaken plain silent 9 nowhere nowhere talker 0 refl (omega arith) refl refl refl
      (λ c. (c, refl))

disconnect_twice_example :
    (t : Client) × (disconnect_in_loop linked ≡ ok t)
    × (t.auto_reconnect ≡ false)
    × (disconnect_in_loop t ≡ fault assertion_failed)
unfolding TcpConn.is_disconnected TcpConn.is_disconnecting third
disconnect_twice_example = disconnect_twice linked third refl refl refl

notice-repeated_example :
    (t₁ t₂ : Client) × (on_remove_conn 3 linked ≡ ok t₁)
    × (t₁.trace ≡ async_connect (codes "::1") 3200 ∷ linked.trace)
    × (connect_done plain silent 9 (some (nowhere, nowhere)) t₁ ≡ ok t₂)
    × (t₂.reconnecting_times ≡ 0)
    × (on_remove_conn 3 t₂ ≡ fault assertion_failed)
unfolding third
notice-repeated_example =
    notice-repeated plain silent 9 nowhere nowhere linked third 0 refl (omega arith) refl refl refl
      (λ c. (c, refl))

-- A life: the first connection ends, the next attempt is refused, and the one after it succeeds.
abbrev relinked : (s : Life) × Reach plain silent 9 (begin [] 80 [] true (some 0) none) s
unfolding TcpClient.make connect set_auto_reconnect set_conn_callback set_message_callback
    connect_done handle_conn hold_conn new_conn on_attached_to_loop must_notify_conn async_read
    on_remove_conn on_remove_held reconnect connect_failed tries waits TcpConn.make
    TcpConn.construct set_type set_close_callback TcpConn.set_conn_callback
    TcpConn.set_message_callback
relinked =
    let s₁ = later start (dialed (some (nowhere, nowhere)) (omega arith) refl) in
    let s₂ = later s₁ (notified 0 (omega arith) refl refl) in
    let s₃ = later s₂ (Life.refused (omega arith)) in
    let s₄ = later s₃ (expired (omega arith)) in
    (_, later s₄ (dialed (some (nowhere, nowhere)) (omega arith) refl))

one_at_a_time_example : let s = relinked.0 in dialing s + waiting s + held_count s.client.conn ≤ 1
one_at_a_time_example = one_at_a_time plain silent 9 [] 80 [] true (some 0) none relinked.1

notice_in_life_example :
    let s = relinked.0 in
    (held_id s.client.conn ≡ some 1) × (t : Client) × (on_remove_conn 1 s.client ≡ ok t)
unfolding relinked
notice_in_life_example =
    notice_in_life plain silent 9 [] 80 [] true (some 0) none 1 relinked.1 (omega arith) refl

never_idle_example :
    (under_way relinked.0 ≡ 1)
    ⊎ ((under_way relinked.0 ≡ 0)
        × (default_max_reconnect_time ≤ relinked.0.client.reconnecting_times))
unfolding relinked steady
never_idle_example = never_idle plain silent 9 [] 80 [] (some 0) none relinked.1 refl refl
