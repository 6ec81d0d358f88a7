-- ===== src/Packet.antt =====
-- src/protocol/packet.rs: the 12-byte header and the packets that carry it. A byte is a number
-- below 256, a payload a list of bytes.
pub mod Types
pub mod Wire
pub mod Probe
mod Tests
use jamjam_client.Prelude.{
  ℕ, ◌+◌, ◌*◌, ◌/◌, ◌%◌, ◌^◌, bit_and, bit_or, Bool, true, false, not, ◌&&◌, ◌||◌, Option, none,
  some, List, [], ◌∷◌, ◌++◌, ltb, ◌==◌, if◌then◌else◌, then_some, ◌>>=◌, length, get_or, drop,
}
pub use Types.{PacketType}
unfoldable pub use Types.{to_u8, try_from, type_eq}
use jamjam_client.Prelude.Bytes.{be16, be32, from_be16, from_be32}

abbrev pub protocol_version : ℕ
protocol_version = 1

abbrev pub header_size : ℕ
header_size = 12

abbrev pub max_payload_size : ℕ
max_payload_size = 1460

abbrev pub route_probe_request : ℕ
route_probe_request = 1

abbrev pub route_probe_reply_kind : ℕ
route_probe_reply_kind = 2

abbrev pub route_probe_size : ℕ
route_probe_size = 5

pub record PacketFlags : Type 0 where
  pub encrypted : Bool
  pub has_fec : Bool

abbrev pub no_flags : PacketFlags
no_flags = record { encrypted = false; has_fec = false }

unfoldable pub flags_to_u16 : PacketFlags → ℕ
flags_to_u16 f =
    let flags : ℕ = if f.encrypted then bit_or 0 0x0001 else 0 in
    if f.has_fec then bit_or flags 0x0002 else flags

unfoldable pub flags_from_u16 : ℕ → PacketFlags
flags_from_u16 value = record {
  encrypted = not (bit_and value 0x0001 == 0);
  has_fec = not (bit_and value 0x0002 == 0);
}

pub record Packet : Type 0 where
  pub version : ℕ
  pub packet_type : PacketType
  pub sequence : ℕ
  pub timestamp : ℕ
  pub flags : PacketFlags
  pub payload : List ℕ

unfoldable pub audio : ℕ → ℕ → List ℕ → Packet
audio sequence timestamp payload = record {
  version = protocol_version;
  packet_type = PacketType.audio;
  sequence = sequence;
  timestamp = timestamp;
  flags = no_flags;
  payload = payload;
}

unfoldable pub fec : ℕ → ℕ → List ℕ → Packet
fec sequence timestamp payload = record {
  version = protocol_version;
  packet_type = PacketType.fec;
  sequence = sequence;
  timestamp = timestamp;
  flags = no_flags;
  payload = payload;
}

unfoldable pub control : ℕ → List ℕ → Packet
control sequence payload = record {
  version = protocol_version;
  packet_type = PacketType.control;
  sequence = sequence;
  timestamp = 0;
  flags = no_flags;
  payload = payload;
}

unfoldable pub keep_alive : ℕ → Packet
keep_alive sequence = record {
  version = protocol_version;
  packet_type = PacketType.keep_alive;
  sequence = sequence;
  timestamp = 0;
  flags = no_flags;
  payload = [];
}

keep_alive_with : ℕ → ℕ → ℕ → Packet
unfolding keep_alive
keep_alive_with sequence kind token =
    let packet = keep_alive sequence in
    record packet { payload = (packet.payload ++ kind ∷ []) ++ be32 token }

unfoldable pub route_probe : ℕ → ℕ → Packet
unfolding keep_alive_with
route_probe sequence token = keep_alive_with sequence route_probe_request token

unfoldable pub route_probe_reply : ℕ → ℕ → Packet
unfolding keep_alive_with
route_probe_reply sequence token = keep_alive_with sequence route_probe_reply_kind token

-- The match on the first byte of the payload.
probe_kind : ℕ → Option Bool
probe_kind kind =
    if kind == route_probe_request
    then some false
    else if kind == route_probe_reply_kind
    then some true
    else none

-- Indexing after the length test cannot fail; `get_or` stands for it.
unfoldable pub route_probe_token : Packet → Option (Bool × ℕ)
unfolding probe_kind type_eq
route_probe_token p =
    if not (type_eq p.packet_type PacketType.keep_alive)
      || not (length p.payload == route_probe_size)
    then none
    else probe_kind (get_or p.payload 0 0) >>= λ reply. some (
      reply,
      from_be32 (get_or p.payload 1 0) (get_or p.payload 2 0) (get_or p.payload 3 0)
          (get_or p.payload 4 0),
    )

unfoldable pub header_bytes : Packet → List ℕ
unfolding to_u8 flags_to_u16
header_bytes p =
    p.version ∷ to_u8 p.packet_type ∷ be32 p.sequence
    ++ be32 p.timestamp
    ++ be16 (flags_to_u16 p.flags)

unfoldable pub to_bytes : Packet → List ℕ
unfolding header_bytes
to_bytes p = header_bytes p ++ p.payload

unfoldable pub from_bytes : List ℕ → Option Packet
unfolding try_from flags_from_u16
from_bytes bytes =
    if ltb (length bytes) header_size
    then none
    else if not (get_or bytes 0 0 == protocol_version)
    then none
    else try_from (get_or bytes 1 0) >>= λ packet_type. some (record {
      version = get_or bytes 0 0;
      packet_type = packet_type;
      sequence =
          from_be32 (get_or bytes 2 0) (get_or bytes 3 0) (get_or bytes 4 0) (get_or bytes 5 0);
      timestamp =
          from_be32 (get_or bytes 6 0) (get_or bytes 7 0) (get_or bytes 8 0) (get_or bytes 9 0);
      flags = flags_from_u16 (from_be16 (get_or bytes 10 0) (get_or bytes 11 0));
      payload = drop header_size bytes;
    })
