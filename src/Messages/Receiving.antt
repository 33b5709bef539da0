-- ===== src/Messages/Receiving.antt =====
-- What a message callback makes of the bytes that were received.
use libasio.Prelude.{ℕ, ◌≡◌, refl, ◌∙◌, true, List, [], ◌++◌, some, ◌==◌}
use libasio.Serialize.{cereal_deserialize_ptr-cereal_serialize}
use libasio.ByteBuffer.{at_data}
use libasio.ByteBuffer.Valid.{IsValid}
use libasio.ByteBuffer.Bytes.{readable, at_data-readable}
use libasio.TcpConn.Types.{Conn}
use libasio.Echo.{consume_all}
use libasio.Echo.Safe.{consume_all-frees}
use libasio.Messages.{Codec, PacketHandlers, first, bytes_of, on_recv_data}

module _ {ℓ} {P : Type ℓ} (codec : Codec P) where
  first-packet : (p : P) (rest : List ℕ) → (first (bytes_of codec p ++ rest) == 1) ≡ true
  unfolding first
  first-packet p rest = let (bytes, e) = codec.starts p in rw e refl

  -- Of bytes that start with a packet and fill a receive buffer from its front, the packet reaches
  -- the application, once; nothing that follows it does, and nothing is left for the next read.
  pub first_packet_only {κ} :
      {O : Type κ} (skip : Conn → O) (object : PacketHandlers P O) (c : Conn) (p : P)
      (rest : List ℕ)
      → IsValid c.recv_buffer
      → c.recv_buffer.rpos ≡ 0
      → readable c.recv_buffer ≡ bytes_of codec p ++ rest
      → (on_recv_data codec skip object c ≡ object.on_recv_data (consume_all c) (some p))
        × (readable (consume_all c).recv_buffer ≡ [])
  unfolding on_recv_data
  first_packet_only skip object c p rest v z e =
      let d : at_data c.recv_buffer ≡ bytes_of codec p ++ rest = at_data-readable v z ∙ e in
      let r = cereal_deserialize_ptr-cereal_serialize codec.archive (some p) rest in
      (rw (d, first-packet p rest, r) refl, (consume_all-frees c v).1)
