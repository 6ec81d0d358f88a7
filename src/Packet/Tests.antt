-- ===== src/Packet/Tests.antt =====
-- The theorems of the packet at concrete bytes.
use jamjam_client.Prelude.{
  ℕ, ◌≡◌, refl, inr, true, false, none, some, List, [], ◌∷◌, ◌++◌, arith, take, drop,
}
use jamjam_client.Packet.{Packet, PacketType, to_bytes, from_bytes}
use jamjam_client.Packet.Wire.{from_bytes-to_bytes, to_bytes-from_bytes, from_bytes-none}

abbrev sealed_audio : Packet
sealed_audio = record {
  version = 1;
  packet_type = PacketType.audio;
  sequence = 0x01020304;
  timestamp = 0xfffffffe;
  flags = record { encrypted = true; has_fec = false };
  payload = 7 ∷ 8 ∷ [];
}

abbrev sealed_bytes : List ℕ
sealed_bytes = 1 ∷ 1 ∷ 1 ∷ 2 ∷ 3 ∷ 4 ∷ 255 ∷ 255 ∷ 255 ∷ 254 ∷ 0 ∷ 1 ∷ 7 ∷ 8 ∷ []

to_bytes-sealed : to_bytes sealed_audio ≡ sealed_bytes
unfolding to_bytes
to_bytes-sealed = refl

from_bytes-to_bytes_example : from_bytes (to_bytes sealed_audio) ≡ some sealed_audio
from_bytes-to_bytes_example = from_bytes-to_bytes sealed_audio (omega arith)

to_bytes-from_bytes_example :
    to_bytes sealed_audio ≡ take 10 sealed_bytes ++ 0 ∷ 1 ∷ drop 12 sealed_bytes
unfolding from_bytes
to_bytes-from_bytes_example = to_bytes-from_bytes sealed_bytes sealed_audio (omega arith) refl

from_bytes-none_example : from_bytes (1 ∷ 8 ∷ drop 2 sealed_bytes) ≡ none
from_bytes-none_example =
    (from_bytes-none (1 ∷ 8 ∷ drop 2 sealed_bytes)).1 (inr (inr (inr (omega arith))))
