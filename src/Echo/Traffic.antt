-- ===== src/Echo/Traffic.antt =====
-- The echo callbacks take what they are shown, and show and send nothing but through their connection.
use libasio.Prelude.{ℕ, ◌≡◌, Bool-cases, inl, inr, List, [], ok, ok-injective, subst}
use libasio.ByteBuffer.Valid.{IsValid}
use libasio.ByteBuffer.Bytes.{readable}
use libasio.TcpConn.Types.{Conn}
use libasio.TcpConn.Socket.{Socket}
use libasio.TcpConn.{is_connected}
use libasio.TcpConn.Handlers.{send}
use libasio.TcpConn.Stream.{delivered}
use libasio.TcpConn.Traffic.{messages, Still, Still-refl, Aside, send_in_loop-Still}
use libasio.TcpConn.Traffic.Steps.{Consuming}
use libasio.Echo.{silent, consume_all, on_message, on_connection, client, server}
use libasio.Echo.Safe.{consume_all-frees}

returned_same : {c c' : Conn} → ok c ≡ ok c' → Still c c'
returned_same {c} e = subst (Still c) (ok-injective e) (Still-refl c)

pub silent-Aside : Aside silent
silent-Aside = record {
  conn = λ f {c} {c'} e. returned_same e;
  high_water = λ f n {c} {c'} e. returned_same e;
  close = λ f {c} {c'} e. returned_same e;
}

module _ (sock : Socket) where
  on_message-Still :
      (answer : List ℕ) (c : Conn) {c' : Conn}
      → on_message sock answer c ≡ ok c'
      → Still (consume_all c) c'
  unfolding on_message send
  on_message-Still answer c e = send_in_loop-Still sock silent silent-Aside answer e

  on_connection-Still : {c c' : Conn} → on_connection sock c ≡ ok c' → Still c c'
  unfolding on_connection send
  on_connection-Still {c} e = elim (Bool-cases (is_connected c)) [
    | inl up ↦ send_in_loop-Still sock silent silent-Aside _ (rw up at e)
    | inr down ↦ returned_same (rw down at e)
  ]

  module _ (answer : List ℕ) (c : Conn) {c' : Conn} (e : on_message sock answer c ≡ ok c') where
    on_message-messages : messages c'.trace ≡ messages c.trace
    unfolding consume_all
    on_message-messages = (on_message-Still answer c e).heard

    on_message-delivered : delivered c'.trace ≡ delivered c.trace
    unfolding consume_all
    on_message-delivered = (on_message-Still answer c e).sent

    on_message-empties :
        IsValid c.recv_buffer → IsValid c'.recv_buffer × (readable c'.recv_buffer ≡ [])
    on_message-empties v =
        let (w, empty, room) = consume_all-frees c v in
        let b = (on_message-Still answer c e).recv in (rw b w, rw b empty)

  pub client-Consuming : Consuming (client sock)
  unfolding client
  client-Consuming = record {
    honest = record {
      aside = record {
        conn = λ f {c} {c'} e. on_connection-Still e;
        high_water = λ f n {c} {c'} e. returned_same e;
        close = λ f {c} {c'} e. returned_same e;
      };
      message_heard = λ f {c} {c'} e. on_message-messages _ c e;
      message_sent = λ f {c} {c'} e. on_message-delivered _ c e;
    };
    message_valid = λ f {c} {c'} e v. (on_message-empties _ c e v).0;
    message_empty = λ f {c} {c'} e v. (on_message-empties _ c e v).1;
  }

  pub server-Consuming : Consuming (server sock)
  unfolding server
  server-Consuming = record {
    honest = record {
      aside = record {
        conn = λ f {c} {c'} e. returned_same e;
        high_water = λ f n {c} {c'} e. returned_same e;
        close = λ f {c} {c'} e. returned_same e;
      };
      message_heard = λ f {c} {c'} e. on_message-messages _ c e;
      message_sent = λ f {c} {c'} e. on_message-delivered _ c e;
    };
    message_valid = λ f {c} {c'} e v. (on_message-empties _ c e v).0;
    message_empty = λ f {c} {c'} e v. (on_message-empties _ c e v).1;
  }
