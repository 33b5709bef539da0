-- ===== src/Echo/Safe.antt =====
-- The echo callbacks do what a connection expects of an application.
use libasio.Prelude.{
  ℕ, ◌≡◌, Bool-cases, List, [], inl, inr, ok, ok-injective, ◌∙◌, drop_all, arith, subst,
}
use libasio.ByteBuffer.{size, read_bytes, valid_size, capacity}
use libasio.ByteBuffer.Valid.{
  IsValid, read_bytes-IsValid, normalize-IsValid, valid_size-eq-sub, size-eq-sub,
}
use libasio.ByteBuffer.Bytes.{readable, readable-normalize, readable-read_bytes, length-readable}
use libasio.TcpConn.Types.{Conn}
use libasio.TcpConn.Socket.{Socket}
use libasio.TcpConn.{is_connected}
use libasio.TcpConn.Handlers.{send}
use libasio.TcpConn.Stream.{Inv, Keeps, recv-Inv}
use libasio.TcpConn.Stream.Send.{send_in_loop-Inv}
use libasio.Echo.{silent, consume_all, on_message, on_connection, client, server}

pub silent-Keeps : (P : Conn → Type 0) → Keeps silent P
silent-Keeps P = record {
  conn = λ f {c} {c'} e p. subst P (ok-injective e) p;
  message = λ f {c} {c'} e p. subst P (ok-injective e) p;
  high_water = λ f n {c} {c'} e p. subst P (ok-injective e) p;
  close = λ f {c} {c'} e p. subst P (ok-injective e) p;
}

-- A message is consumed whole: nothing is left to read, and the next read gets all of the storage.
pub consume_all-frees :
    (c : Conn)
    → IsValid c.recv_buffer
    → let b = (consume_all c).recv_buffer in
      IsValid b × (readable b ≡ []) × (valid_size b ≡ capacity c.recv_buffer)
unfolding consume_all capacity read_bytes
consume_all-frees c v =
    let b = c.recv_buffer in
    let r = read_bytes-IsValid (size b) (omega arith) v in
    let n = normalize-IsValid r in
    let empty : size (read_bytes (size b) b) ≡ 0 = omega (arith, size-eq-sub r, size-eq-sub v) in
    let gone : readable (read_bytes (size b) b) ≡ [] =
      readable-read_bytes (size b) (omega arith) v
      ∙ drop_all (size b) (readable b) (omega (arith, length-readable v)) in
    (n.0, readable-normalize r ∙ gone, omega (arith, valid_size-eq-sub n.0, n.2, n.3, empty))

module _ (sock : Socket) where
  on_message-Inv :
      (answer : List ℕ) {c c' : Conn} → on_message sock answer c ≡ ok c' → Inv sock c → Inv sock c'
  unfolding on_message send consume_all
  on_message-Inv answer {c} e v =
      send_in_loop-Inv sock silent answer (silent-Keeps (Inv sock)) e
        (recv-Inv sock (consume_all-frees c v.recv_valid).0 v)

  on_connection-Inv : {c c' : Conn} → on_connection sock c ≡ ok c' → Inv sock c → Inv sock c'
  unfolding on_connection send
  on_connection-Inv {c} e v = elim (Bool-cases (is_connected c)) [
    | inl up ↦ send_in_loop-Inv sock silent _ (silent-Keeps (Inv sock)) (rw up at e) v
    | inr down ↦ let q = ok-injective (rw down at e) in rw (← q) v
  ]

  pub client-Keeps : Keeps (client sock) (Inv sock)
  unfolding client
  client-Keeps = record {
    conn = λ f {c} {c'} e v. on_connection-Inv e v;
    message = λ f {c} {c'} e v. on_message-Inv _ e v;
    high_water = λ f n {c} {c'} e v. subst (Inv sock) (ok-injective e) v;
    close = λ f {c} {c'} e v. subst (Inv sock) (ok-injective e) v;
  }

  pub server-Keeps : Keeps (server sock) (Inv sock)
  unfolding server
  server-Keeps = record {
    conn = λ f {c} {c'} e v. subst (Inv sock) (ok-injective e) v;
    message = λ f {c} {c'} e v. on_message-Inv _ e v;
    high_water = λ f n {c} {c'} e v. subst (Inv sock) (ok-injective e) v;
    close = λ f {c} {c'} e v. subst (Inv sock) (ok-injective e) v;
  }
