-- ===== src/Packet/Types.antt =====
-- src/protocol/packet.rs, `PacketType` and its byte.
use jamjam_client.Prelude.{ℕ, Bool, Option, none, some, ◌==◌, if◌then◌else◌}

pub data PacketType : Type 0 where
  audio fec control keep_alive latency_ping latency_pong latency_info : PacketType

-- `packet_type as u8`
unfoldable pub to_u8 : PacketType → ℕ
to_u8 PacketType.audio = 1
to_u8 PacketType.fec = 2
to_u8 PacketType.control = 3
to_u8 PacketType.keep_alive = 4
to_u8 PacketType.latency_ping = 5
to_u8 PacketType.latency_pong = 6
to_u8 PacketType.latency_info = 7

unfoldable pub try_from : ℕ → Option PacketType
try_from value =
    if value == 1
    then some PacketType.audio
    else if value == 2
    then some PacketType.fec
    else if value == 3
    then some PacketType.control
    else if value == 4
    then some PacketType.keep_alive
    else if value == 5
    then some PacketType.latency_ping
    else if value == 6
    then some PacketType.latency_pong
    else if value == 7
    then some PacketType.latency_info
    else none

-- `==` of the derived `PartialEq`.
unfoldable pub type_eq : PacketType → PacketType → Bool
unfolding to_u8
type_eq a b = to_u8 a == to_u8 b
