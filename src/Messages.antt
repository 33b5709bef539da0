-- ===== src/Messages.antt =====
-- `TcpClientImpl` and `TcpServerImpl` (src/tcp_client_impl.h, src/tcp_server_impl.h): packets over a
-- connection. What both templates do with a packet is `send_pkt` and `on_recv_data`.
pub mod Receiving
pub mod Impl
pub mod Lifetime
use libasio.Prelude.{
  ℕ, ◌≡◌, Bool, not, List, [], ◌∷◌, Option, some, ◌==◌, if◌then◌else◌, Result, ok, ◌>>=◌,
}
use libasio.Serialize.{Archive, cereal_serialize, cereal_deserialize_ptr}
use libasio.ByteBuffer.{at_data}
use libasio.TcpConn.Types.{Conn, Callbacks}
use libasio.TcpConn.Socket.{Socket}
use libasio.TcpConn.Handlers.{send}
use libasio.Echo.{consume_all}

-- What the templates rely on of cereal: the bytes of a pointer to a packet that is not null start
-- with 1, which is the low byte of the packet's polymorphic id.
pub record Codec {ℓ} (P : Type ℓ) : Type ℓ where
  pub archive : Archive (Option P)
  pub starts : (p : P) → (bytes : List ℕ) × (cereal_serialize archive (some p) ≡ 1 ∷ bytes)

-- What a class that derives from one of the templates defines: the virtual functions, for an object
-- with its connection. They say what becomes of both, in `O`.
pub record PacketHandlers {ℓ κ} (P : Type ℓ) (O : Type κ) : Type (ℓ ⊔ κ) where
  pub on_recv_data : Conn → Option P → Result O
  pub on_connect : Conn → Result O

-- `ss[0]`, which is 0 for an empty string.
pub first : List ℕ → ℕ
first [] = 0
first (b ∷ bytes) = b

module _ {ℓ} {P : Type ℓ} (codec : Codec P) where
  -- The bytes of a packet.
  abbrev pub bytes_of : P → List ℕ
  bytes_of p = cereal_serialize codec.archive (some p)

  -- `SendPkt`, called by a thread that is the connection's loop or not.
  unfoldable pub send_pkt : Socket → Callbacks → (in_loop : Bool) → Option P → Conn → Result Conn
  send_pkt sock app in_loop p c = send sock app in_loop (cereal_serialize codec.archive p) c

  -- `OnRecvData_`, which takes all of the buffer and calls `OnRecvData`, or returns at once: `skip`
  -- says what becomes of the object and its connection then.
  unfoldable pub on_recv_data {κ} :
      {O : Type κ} → (skip : Conn → O) → PacketHandlers P O → Conn → Result O
  unfolding first
  on_recv_data skip object c =
      let ss = at_data c.recv_buffer in
      let c' = consume_all c in
      if not (first ss == 1)
      then ok (skip c')
      else cereal_deserialize_ptr codec.archive ss >>= object.on_recv_data c'
