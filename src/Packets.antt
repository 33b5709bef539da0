-- ===== src/Packets.antt =====
-- The packets of examples/tcp_cereal_packet (packet/Packet.h, packet/PacketCommon.h,
-- packet/PacketType.h there).
use libasio.Prelude.{ℕ, List}

abbrev pub operate_success : ℕ
operate_success = 0

abbrev pub packet_keepalive : ℕ
packet_keepalive = 1

abbrev pub packet_keepalive_ack : ℕ
packet_keepalive_ack = 2147483649

abbrev pub packet_login : ℕ
packet_login = 2

abbrev pub packet_login_ack : ℕ
packet_login_ack = 2147483650

-- The class of a packet, with its fields.
pub data Body : Type 0 where
  keepalive keepalive_ack : Body
  login : (id : ℕ) → (name : List ℕ) → (password : List ℕ) → Body
  login_ack : (ack : ℕ) → Body

-- `PacketHead`: the type is a field that an archive has of its own.
pub record Packet : Type 0 where
  pub type : ℕ
  pub body : Body

-- The constructors, and the fields that the client sets.
abbrev pub keepalive_pkt : Packet
keepalive_pkt = record { type = packet_keepalive; body = keepalive }

abbrev pub login_pkt : (id : ℕ) → (name password : List ℕ) → Packet
login_pkt id name password = record { type = packet_login; body = login id name password }

abbrev pub keepalive_ack_pkt : Packet
keepalive_ack_pkt = record { type = packet_keepalive_ack; body = keepalive_ack }

abbrev pub login_ack_pkt : ℕ → Packet
login_ack_pkt ack = record { type = packet_login_ack; body = login_ack ack }
