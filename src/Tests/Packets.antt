-- ===== src/Tests/Packets.antt =====
-- The server of packets at concrete inputs, with an archive of numbers: strings follow their lengths.
use libasio.Prelude.{
  ℕ, zero, suc, ◌≡◌, refl, ap, ◌∙◌, List, [], ◌∷◌, ◌++◌, append_assoc, length, take, drop,
  take-append, take_all, drop-append, drop_all, Option, none, some, ok, codes, arith,
}
use libasio.ByteBuffer.{ByteBuffer}
use libasio.ByteBuffer.Valid.{IsValid}
use libasio.ByteBuffer.Bytes.{readable}
use libasio.TcpConn
use libasio.TcpConn.Types.{Conn, connected}
use libasio.Echo.{consume_all}
use libasio.Messages.{Codec, PacketHandlers, on_recv_data}
use libasio.Messages.Receiving.{first_packet_only}
use libasio.Serialize.{Archive, cereal_serialize}
use libasio.Packets.{Packet, Body, keepalive, keepalive_ack, login, login_ack}
use libasio.Tests.Conns.{nowhere}

abbrev pub write_body : Body → List ℕ
write_body keepalive = 0 ∷ []
write_body keepalive_ack = 1 ∷ []
write_body (login id n p) = 2 ∷ id ∷ length n ∷ length p ∷ (n ++ p)
write_body (login_ack a) = 3 ∷ a ∷ []

abbrev pub read_body : List ℕ → Option (Body × List ℕ)
read_body [] = none
read_body (zero ∷ rest) = some (keepalive, rest)
read_body (suc zero ∷ rest) = some (keepalive_ack, rest)
read_body (suc (suc zero) ∷ id ∷ k ∷ m ∷ rest) =
    some (login id (take k rest) (take m (drop k rest)), drop m (drop k rest))
read_body (suc (suc (suc zero)) ∷ a ∷ rest) = some (login_ack a, rest)
read_body _ = none

abbrev pub packet_of : ℕ → Option (Body × List ℕ) → Option (Option Packet × List ℕ)
packet_of n none = none
packet_of n (some (b, rest)) = some (some (record { type = n; body = b }), rest)

abbrev pub read_packet : List ℕ → Option (Option Packet × List ℕ)
read_packet (zero ∷ rest) = some (none, rest)
read_packet (suc zero ∷ n ∷ rest) = packet_of n (read_body rest)
read_packet _ = none

abbrev pub write_packet : Option Packet → List ℕ
write_packet none = 0 ∷ []
write_packet (some p) = 1 ∷ p.type ∷ write_body p.body

take_front : (xs ys : List ℕ) → take (length xs) (xs ++ ys) ≡ xs
take_front xs ys =
    take-append (length xs) xs ys (omega arith) ∙ take_all (length xs) xs (omega arith)

drop_front : (xs ys : List ℕ) → drop (length xs) (xs ++ ys) ≡ ys
drop_front xs ys =
    drop-append (length xs) xs ys (omega arith)
    ∙ ap (λ k. k ++ ys) (drop_all (length xs) xs (omega arith))

pub read_body-write_body :
    (b : Body) (rest : List ℕ) → read_body (write_body b ++ rest) ≡ some (b, rest)
read_body-write_body keepalive rest = refl
read_body-write_body keepalive_ack rest = refl
read_body-write_body (login id n p) rest =
    rw
      (
        append_assoc n p rest,
        take_front n (p ++ rest),
        drop_front n (p ++ rest),
        take_front p rest,
        drop_front p rest,
      )
      refl
read_body-write_body (login_ack a) rest = refl

pub read_packet-write_packet :
    (p : Option Packet) (rest : List ℕ) → read_packet (write_packet p ++ rest) ≡ some (p, rest)
read_packet-write_packet none rest = refl
read_packet-write_packet (some p) rest = ap (packet_of p.type) (read_body-write_body p.body rest)

abbrev pub number_archive : Archive (Option Packet)
number_archive = record {
  output = write_packet;
  input = read_packet;
  input-output = read_packet-write_packet;
}

pub starts_with_one :
    (p : Packet) → (bytes : List ℕ) × (cereal_serialize number_archive (some p) ≡ 1 ∷ bytes)
unfolding cereal_serialize
starts_with_one p = (p.type ∷ write_body p.body, refl)

abbrev pub numbers : Codec Packet
numbers = record { archive = number_archive; starts = starts_with_one }

abbrev hello : Packet
hello = record { type = 2; body = login 0 (codes "t") (codes "ab") }

-- A login and a keepalive, received together.
abbrev pub received : ByteBuffer
received = record { rpos = 0; wpos = 12; storage = write_packet (some hello) ++ 1 ∷ 1 ∷ 0 ∷ 0 ∷ [] }

received-IsValid : IsValid received
received-IsValid = record { ordered = omega arith; inside = omega arith; fits = omega arith }

abbrev pub small : ByteBuffer
small = record { rpos = 0; wpos = 0; storage = 0 ∷ [] }

abbrev caller : Conn
unfolding TcpConn.make
caller = record (TcpConn.make (codes "chat-conn#0") nowhere nowhere []) {
  status = connected;
  recv_buffer = received;
  write_buffer = small;
  writing_buffer = small;
}

-- An object that does nothing.
abbrev deaf : PacketHandlers Packet Conn
deaf = record { on_recv_data = λ c p. ok c; on_connect = λ c. ok c }

-- The keepalive that came behind the login is never seen.
first_packet_only_example :
    (on_recv_data numbers (λ c. c) deaf caller ≡ ok (consume_all caller))
    × (readable (consume_all caller).recv_buffer ≡ [])
unfolding caller readable cereal_serialize
first_packet_only_example =
    first_packet_only numbers (λ c. c) deaf caller hello (1 ∷ 1 ∷ 0 ∷ []) received-IsValid refl refl
