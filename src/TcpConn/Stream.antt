-- ===== src/TcpConn/Stream.antt =====
-- The stream that a `TCPConn` sends: the bytes that `SendInLoop` takes leave the socket in order,
-- each once. This file states the invariant; the operations are in the children.
pub mod Paused
pub mod Send
pub mod Write
pub mod Close
use libasio.Prelude.{
  refl, sym, ◌∙◌, ℕ, ◌+◌, ◌≡◌, Bool, true, false, List, [], ◌∷◌, ◌++◌, ◌+◌, length, Option, none,
  some, length, ok,
}
use libasio.ByteBuffer.{ByteBuffer}
use libasio.ByteBuffer.Valid.{IsValid}
use libasio.ByteBuffer.Bytes.{readable}
use libasio.TcpConn.{log}
use libasio.TcpConn.Types.{Status, close_socket, Action, write_some, took, wrote, Conn, Callbacks}
use libasio.TcpConn.Socket.{Socket}

-- The bytes that the connection took to send, and those that the socket reported as sent.
abbrev pub accepted : List Action → List ℕ
accepted [] = []
accepted (took d ∷ t) = accepted t ++ d
accepted (_ ∷ t) = accepted t

abbrev pub delivered : List Action → List ℕ
delivered [] = []
delivered (wrote d ∷ t) = delivered t ++ d
delivered (_ ∷ t) = delivered t

-- What the last `async_write_some` was given.
abbrev pub last_write : List Action → Option (List ℕ)
last_write [] = none
last_write (write_some d ∷ t) = some d
last_write (_ ∷ t) = last_write t

module _ (sock : Socket) where
  -- What holds whenever the application is called back and between the calls of the loop.
  pub record Inv (c : Conn) : Type 0 where
    pub recv_valid : IsValid c.recv_buffer
    pub write_valid : IsValid c.write_buffer
    pub writing_valid : IsValid c.writing_buffer
    -- sent, then being sent, then waiting, is what was taken
    pub in_order :
        delivered c.trace ++ (readable c.writing_buffer ++ readable c.write_buffer)
        ≡ accepted c.trace
    -- a buffer's write position never goes back
    pub grown : c.writing_buffer.wpos + c.write_buffer.wpos ≡ length (accepted c.trace)
    -- no write is running only where nothing is left to send
    pub drained :
        c.async_writing ≡ false
        → sock.is_open c.trace ≡ true
        → (readable c.writing_buffer ≡ []) × (readable c.write_buffer ≡ [])
    -- the buffer that the socket was given is untouched while the write runs
    pub untouched : c.async_writing ≡ true → last_write c.trace ≡ some (readable c.writing_buffer)

  -- A socket that is open after a call was open before it.
  pub open_before :
      (a : Action) (t : List Action) → sock.is_open (a ∷ t) ≡ true → sock.is_open t ≡ true
  open_before close_socket t h = cc (sock.is_open-close t)
  open_before a t h = sym (sock.is_open-other a t refl) ∙ h

  -- The entries that neither move bytes nor start a write.
  abbrev pub is_inert : Action → Bool
  is_inert (took d) = false
  is_inert (wrote d) = false
  is_inert (write_some d) = false
  is_inert _ = true

  pub log-Inv : (a : Action) {c : Conn} → is_inert a ≡ true → Inv c → Inv (log a c)
  log-Inv (took d) h v = cc
  log-Inv (wrote d) h v = cc
  log-Inv (write_some d) h v = cc
  log-Inv a {c} h v = record {
    recv_valid = v.recv_valid;
    write_valid = v.write_valid;
    writing_valid = v.writing_valid;
    in_order = v.in_order;
    grown = v.grown;
    drained = λ i o. v.drained i (open_before a c.trace o);
    untouched = v.untouched;
  }

  pub status-Inv : (s : Status) {c : Conn} → Inv c → Inv (record c { status = s })
  status-Inv s v = record {
    recv_valid = v.recv_valid;
    write_valid = v.write_valid;
    writing_valid = v.writing_valid;
    in_order = v.in_order;
    grown = v.grown;
    drained = v.drained;
    untouched = v.untouched;
  }

  -- The receive buffer is no part of the stream that is sent.
  pub recv-Inv :
      {b : ByteBuffer} {c : Conn} → IsValid b → Inv c → Inv (record c { recv_buffer = b })
  recv-Inv w v = record {
    recv_valid = w;
    write_valid = v.write_valid;
    writing_valid = v.writing_valid;
    in_order = v.in_order;
    grown = v.grown;
    drained = v.drained;
    untouched = v.untouched;
  }

-- A property that the callbacks of the application keep.
pub record Keeps (app : Callbacks) (P : Conn → Type 0) : Type 0 where
  pub conn : (f : ℕ) {c c' : Conn} → app.on_conn f c ≡ ok c' → P c → P c'
  pub message : (f : ℕ) {c c' : Conn} → app.on_message f c ≡ ok c' → P c → P c'
  pub high_water : (f n : ℕ) {c c' : Conn} → app.on_high_water_mark f n c ≡ ok c' → P c → P c'
  pub close : (f : ℕ) {c c' : Conn} → app.on_close f c ≡ ok c' → P c → P c'
