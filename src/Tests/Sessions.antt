-- ===== src/Tests/Sessions.antt =====
-- The client of packets at concrete inputs.
use libasio.Prelude.{
  ℕ, ◌+◌, ◌-◌, ◌≡◌, refl, true, false, none, List, [], ◌++◌, some, ok, length, arith,
}
use libasio.Serialize.{cereal_serialize}
use libasio.ByteBuffer
use libasio.TcpConn.{store}
use libasio.TcpConn.Handlers.{send, send_in_loop, send_idle, send_busy, notify_high_water}
use libasio.ByteBuffer.Bytes.{readable}
use libasio.TcpConn
use libasio.TcpConn.Types.{Conn, connected}
use libasio.TcpConn.Stream.{accepted}
use libasio.Echo.{silent}
use libasio.Messages
use libasio.Packets.{keepalive_pkt, login_ack_pkt, operate_success}
use libasio.SimpleServer
use libasio.SimpleServer.Answers.{reply}
use libasio.SimpleClient.{
  do_keepalive, send_pkt, wait_until, SimpleClient, on_connect, on_message, on_login_ack, run_due,
}
use libasio.SimpleClient.Timer.{SteadyTimer}
use libasio.SimpleClient.Session.{login_of, login_exchange}
use libasio.SimpleClient.Keepalive.{IsFlooding, keepalives, run_dues, login_again-floods}
use libasio.Tests.Conns.{plain, nowhere}
use libasio.Tests.Packets.{numbers, write_packet, small}

pub record Clock : Type 0 where
  pub at : ℕ
  pub waits : ℕ
  pub runs : ℕ

abbrev clock : SteadyTimer
clock = record {
  Timer = Clock;
  expiry = λ t. t.at;
  waiting = λ t. t.waits;
  due = λ t. t.runs;
  expires_at = λ x t. record { at = x; waits = 0; runs = t.runs + t.waits };
  async_wait = λ t. record t { waits = t.waits + 1 };
  expire = λ t. record t { waits = 0; runs = t.runs + t.waits };
  run_handler = λ t. record t { runs = t.runs - 1 };
  expiry-expires_at = λ x t. refl;
  waiting-expires_at = λ x t. refl;
  due-expires_at = λ x t. refl;
  expiry-async_wait = λ t. refl;
  waiting-async_wait = λ t. refl;
  due-async_wait = λ t. refl;
  expiry-expire = λ t. refl;
  waiting-expire = λ t. refl;
  due-expire = λ t. refl;
  expiry-run_handler = λ t. refl;
  waiting-run_handler = λ t. refl;
  due-run_handler = λ t. refl;
}

abbrev holding : List ℕ → Conn
unfolding TcpConn.make
holding bytes = record (TcpConn.make [] nowhere nowhere []) {
  status = connected;
  recv_buffer = record { rpos = 0; wpos = length bytes; storage = bytes };
  write_buffer = small;
  writing_buffer = small;
}

abbrev sent_login : List ℕ
sent_login = write_packet (some (login_of 7))

abbrev sent_ack : List ℕ
sent_ack = write_packet (some (login_ack_pkt operate_success))

abbrev fresh : SimpleClient clock
fresh = record {
  is_login = false;
  conn = none;
  keepalive_timer = record { at = 0; waits = 0; runs = 0 };
}

login_exchange_example :
    (c₁ d₁ : Conn) × (s₁ s₂ : SimpleClient clock) × (on_connect numbers plain silent clock 7
        (holding [])
        fresh
      ≡ ok s₁)
    × (s₁.conn ≡ some c₁)
    × (accepted c₁.trace ≡ sent_login)
    × (SimpleServer.on_message numbers plain silent (holding sent_login) ≡ ok d₁)
    × (accepted d₁.trace ≡ sent_ack)
    × (on_message numbers plain silent clock 100 7 (holding sent_ack) s₁ ≡ ok s₂)
    × (s₂.is_login ≡ true)
    × (s₂.keepalive_timer.waits ≡ 1)
    × (s₂.keepalive_timer.at ≡ 103)
unfolding holding readable cereal_serialize reply TcpConn.is_connected
login_exchange_example =
    login_exchange numbers clock plain plain 7 100 (holding []) (holding sent_login)
      (holding sent_ack) fresh refl refl (omega arith, omega arith)
      (record { ordered = omega arith; inside = omega arith; fits = omega arith }) refl refl refl
      (omega arith, omega arith)
      (record { ordered = omega arith; inside = omega arith; fits = omega arith }) refl refl

abbrev logged_in : SimpleClient clock
logged_in = record {
  is_login = true;
  conn = some (holding []);
  keepalive_timer = record { at = 103; waits = 1; runs = 0 };
}

-- A second login 1 before the wait ends, and two handlers.
twice_woken :
    (s : SimpleClient clock) × (run_dues numbers plain clock 2
        (on_login_ack numbers plain silent clock 102 0 logged_in)
      ≡ ok s)
unfolding run_dues run_due do_keepalive send_pkt wait_until on_login_ack holding cereal_serialize
    Messages.send_pkt send send_in_loop send_idle send_busy notify_high_water store
    TcpConn.async_write TcpConn.swap_buffers ByteBuffer.write ByteBuffer.estimate_size
    ByteBuffer.memcpy_at_write_begin ByteBuffer.write_bytes ByteBuffer.size ByteBuffer.valid_size
    ByteBuffer.at_read_begin
twice_woken = (_, refl)

login_again-floods_example :
    IsFlooding numbers plain clock
      (write_packet (some keepalive_pkt) ++ write_packet (some keepalive_pkt))
      twice_woken.0
    × (twice_woken.0.keepalive_timer.at ≡ 111)
unfolding holding cereal_serialize keepalives
login_again-floods_example =
    login_again-floods numbers plain clock 2 102 logged_in twice_woken.0 (holding []) refl refl refl
      refl twice_woken.1
