-- ===== src/Packet/Probe.antt =====
-- Route probes: keep-alives that carry a token.
use jamjam_client.Prelude.{ℕ, ◌^◌, ◌<◌, ◌≡◌, Bool, true, false, some, ◌∷◌, arith, if◌then◌else◌}
use jamjam_client.Prelude.Bytes.{AllBytes, five_bytes, be32, from_be32-be32}
use jamjam_client.Packet.{
  Packet, PacketType, type_eq, route_probe, route_probe_reply, route_probe_token,
}

type_eq-keep_alive :
    (t : PacketType) → type_eq t PacketType.keep_alive ≡ true → t ≡ PacketType.keep_alive
unfolding type_eq
type_eq-keep_alive t h = ground arith

-- A probe and a reply to one each say which they are, with the 32-bit token they were made from.
pub route_probe_token-probe :
    (sequence token : ℕ)
    → token < 2 ^ 32
    → (route_probe_token (route_probe sequence token) ≡ some (false, token))
      × (route_probe_token (route_probe_reply sequence token) ≡ some (true, token))
unfolding route_probe_token route_probe route_probe_reply
route_probe_token-probe sequence token h =
    (ground (arith, from_be32-be32 token h), ground (arith, from_be32-be32 token h))

-- A packet whose payload is bytes is read as a probe, or as a reply, with a token only if it is a
-- keep-alive whose payload is the byte of that kind followed by the token: no other packet is taken
-- for one, a keep-alive with an empty payload included.
pub route_probe_token_sound :
    (p : Packet) (reply : Bool) (token : ℕ)
    → AllBytes p.payload
    → route_probe_token p ≡ some (reply, token)
    → (p.packet_type ≡ PacketType.keep_alive) × (p.payload ≡ (if reply then 2 else 1) ∷ be32 token)
unfolding route_probe_token
route_probe_token_sound p reply token h e =
    ground (arith, five_bytes p.payload h, type_eq-keep_alive p.packet_type)
