-- ===== src/TcpConn/Traffic.antt =====
-- What comes in and what goes out of a `TCPConn` (src/tcp_conn.cc), and the calls that move none of it.
pub mod Steps
use libasio.Prelude.{
  ℕ, ◌≡◌, refl, ◌∙◌, Bool, true, Bool-cases, inl, inr, List, [], ◌∷◌, ◌++◌, Option, none, some, ltb,
  add_word, ok, ok-injective, returned, ◌>>=◌, arith,
}
use libasio.ByteBuffer.{size, write}
use libasio.TcpConn.Types.{disconnected, connected, Action, call_message, took, Conn, Callbacks}
use libasio.TcpConn.Socket.{Socket}
use libasio.TcpConn.{status_eq, log, store, async_read, async_write, swap_buffers}
use libasio.TcpConn.Handlers.{
  close_if_open, close_and_notify, notify_conn, notify_close, notify_high_water, must_notify_conn,
  on_attached_to_loop, handle_close, send_idle, send_busy, send_in_loop, write_on,
}
use libasio.TcpConn.Stream.{delivered}

-- The bytes that the message callback was shown, call by call.
abbrev pub messages : List Action → List ℕ
messages [] = []
messages (call_message d ∷ t) = messages t ++ d
messages (_ ∷ t) = messages t

-- No byte came in and none went out between `c` and `c'`.
pub record Still (c c' : Conn) : Type 0 where
  pub recv : c'.recv_buffer ≡ c.recv_buffer
  pub heard : messages c'.trace ≡ messages c.trace
  pub sent : delivered c'.trace ≡ delivered c.trace

pub Still-refl : (c : Conn) → Still c c
Still-refl c = record { recv = refl; heard = refl; sent = refl }

pub Still-trans : {a b c : Conn} → Still a b → Still b c → Still a c
Still-trans s t = record {
  recv = t.recv ∙ s.recv;
  heard = t.heard ∙ s.heard;
  sent = t.sent ∙ s.sent;
}

-- An application that neither touches the receive buffer nor shows or sends bytes by itself, when it
-- is told of a connection, of the high water mark or of the end.
pub record Aside (app : Callbacks) : Type 0 where
  pub conn : (f : ℕ) {c c' : Conn} → app.on_conn f c ≡ ok c' → Still c c'
  pub high_water : (f n : ℕ) {c c' : Conn} → app.on_high_water_mark f n c ≡ ok c' → Still c c'
  pub close : (f : ℕ) {c c' : Conn} → app.on_close f c ≡ ok c' → Still c c'

pub async_write-Still : (c : Conn) → Still c (async_write c)
unfolding async_write
async_write-Still c = ground arith

pub write_on-Still : (c : Conn) → Still c (write_on c)
unfolding write_on swap_buffers
write_on-Still c = ground (arith, async_write-Still c, async_write-Still (swap_buffers c))

module _ (sock : Socket) (app : Callbacks) (a : Aside app) where
  notify_conn-Still : (f : Option ℕ) {c c' : Conn} → notify_conn sock app f c ≡ ok c' → Still c c'
  unfolding notify_conn
  notify_conn-Still none e = ground arith
  notify_conn-Still (some f) e = ground (arith, a.conn f e)

  notify_close-Still : (f : Option ℕ) {c c' : Conn} → notify_close sock app f c ≡ ok c' → Still c c'
  unfolding notify_close
  notify_close-Still none e = ground arith
  notify_close-Still (some f) e = ground (arith, a.close f e)

  notify_high_water-Still :
      (f : Option ℕ) (n : ℕ) {c c' : Conn} → notify_high_water sock app f n c ≡ ok c' → Still c c'
  unfolding notify_high_water
  notify_high_water-Still none n e = ground arith
  notify_high_water-Still (some f) n e = ground (arith, a.high_water f n e)

  must_notify_conn-Still :
      (f : Option ℕ) {c c' : Conn} → must_notify_conn sock app f c ≡ ok c' → Still c c'
  unfolding must_notify_conn
  must_notify_conn-Still none e = ground arith
  must_notify_conn-Still (some f) e = ground (arith, a.conn f e)

  close_if_open-Still : (c : Conn) → Still c (close_if_open sock app c)
  unfolding close_if_open
  close_if_open-Still c = ground arith

  close_and_notify-Still : {c c' : Conn} → close_and_notify sock app c ≡ ok c' → Still c c'
  unfolding close_and_notify
  close_and_notify-Still {c} e =
      let (c₂, e₂, r) = returned (notify_conn sock app _ _) _ e in
      let (c₃, e₃, r') = returned (notify_close sock app c₂.close_fn c₂) _ r in
      ground (
        arith,
        close_if_open-Still c,
        notify_conn-Still _ e₂,
        notify_close-Still c₂.close_fn e₃,
        ok-injective r',
      )

  pub handle_close-Still : {c c' : Conn} → handle_close sock app true c ≡ ok c' → Still c c'
  unfolding handle_close
  handle_close-Still {c} e = elim (Bool-cases (status_eq c.status disconnected)) [
    | inl d ↦ let q = ok-injective (simp d at e) in ground arith
    | inr d ↦ close_and_notify-Still (simp d at e)
  ]

  pub on_attached-Still : {c c' : Conn} → on_attached_to_loop sock app true c ≡ ok c' → Still c c'
  unfolding on_attached_to_loop async_read
  on_attached-Still {c} e =
      let (d, e₂, r) = returned (must_notify_conn sock app c.conn_fn _) _ e in
      ground (arith, must_notify_conn-Still c.conn_fn e₂, ok-injective r)

  send_idle-Still : (d : List ℕ) {c c' : Conn} → send_idle sock app d c ≡ ok c' → Still c c'
  unfolding send_idle swap_buffers
  send_idle-Still d {c} e = elim (Bool-cases (ltb 0 (size c.write_buffer))) [
    | inl more ↦
        let (b, s, r) = returned (store d (swap_buffers c).writing_buffer) _ (rw more at e) in
        let c₁ : Conn = log (took d) (record (swap_buffers c) { writing_buffer = b }) in
        ground (arith, async_write-Still c₁, ok-injective r)
    | inr none_waits ↦
        let (b, s, r) = returned (store d c.writing_buffer) _ (rw none_waits at e) in
        let c₁ : Conn = log (took d) (record c { writing_buffer = b }) in
        ground (arith, async_write-Still c₁, ok-injective r)
  ]

  send_busy-Still : (d : List ℕ) {c c' : Conn} → send_busy sock app d c ≡ ok c' → Still c c'
  unfolding send_busy
  send_busy-Still d {c} e =
      let (b, s, r) = returned (store d c.write_buffer) _ e in
      let n = add_word (size b) (size c.writing_buffer) in
      elim (Bool-cases (ltb c.high_water_mark n)) [
        | inl high ↦ ground (arith, notify_high_water-Still c.high_water_mark_fn n (rw high at r))
        | inr low ↦ let q = ok-injective (rw low at r) in ground arith
      ]

  pub send_in_loop-Still :
      (d : List ℕ) {c c' : Conn} → send_in_loop sock app true d c ≡ ok c' → Still c c'
  unfolding send_in_loop
  send_in_loop-Still d {c} e = elim (Bool-cases (sock.is_open c.trace)) [
    | inr shut ↦ let q = ok-injective (simp shut at e) in ground arith
    | inl o ↦ elim (Bool-cases c.async_writing) [
      | inl w ↦ send_busy-Still d (simp (o, w) at e)
      | inr i ↦ send_idle-Still d (simp (o, i) at e)
    ]
  ]
