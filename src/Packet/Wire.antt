-- ===== src/Packet/Wire.antt =====
-- A packet through the wire and back, and what the parser takes.
use jamjam_client.Bits.{bit_and-two_pow}
use jamjam_client.Prelude.{
  ℕ, ◌/◌, ◌%◌, ◌^◌, ◌<◌, ◌≡◌, refl, ap, ◌↔◌, ◌⊎◌, inl, inr, ◌≢◌, none, some, List, ◌∷◌, ◌++◌, arith,
  length, get_or, Option-cases, take, drop,
}
use jamjam_client.Prelude.Bytes.{AllBytes, from_be16, from_be16-be16, from_be32-be32}
use jamjam_client.Packet.{
  Packet, PacketType, PacketFlags, protocol_version, header_size, to_u8, try_from, flags_to_u16,
  flags_from_u16, header_bytes, to_bytes, from_bytes,
}

try_from-to_u8 : (t : PacketType) → try_from (to_u8 t) ≡ some t
unfolding try_from to_u8
try_from-to_u8 PacketType.audio = refl
try_from-to_u8 _ = refl

flags-round_trip : (f : PacketFlags) → flags_from_u16 (flags_to_u16 f) ≡ f
unfolding flags_from_u16 flags_to_u16
flags-round_trip f = ground arith

flags_to_u16-lt : (f : PacketFlags) → flags_to_u16 f < 4
unfolding flags_to_u16
flags_to_u16-lt f = ground arith

-- A packet that this version made: its numbers fit their fields.
pub record IsWire (p : Packet) : Type 0 where
  pub current : p.version ≡ protocol_version
  pub sequence_fits : p.sequence < 2 ^ 32
  pub timestamp_fits : p.timestamp < 2 ^ 32

-- A packet with the current version, and a sequence and a timestamp of 32 bits, is read back from
-- its bytes unchanged.
pub from_bytes-to_bytes : (p : Packet) → IsWire p → from_bytes (to_bytes p) ≡ some p
unfolding from_bytes to_bytes header_bytes
from_bytes-to_bytes p v = ground (
  arith,
  try_from-to_u8 p.packet_type,
  flags-round_trip p.flags,
  flags_to_u16-lt p.flags,
  from_be16-be16 (flags_to_u16 p.flags),
  from_be32-be32 p.sequence,
  from_be32-be32 p.timestamp,
  ap flags_from_u16
      {x = from_be16 (flags_to_u16 p.flags / 2 ^ 8 % 2 ^ 8) (flags_to_u16 p.flags % 2 ^ 8)}
      {y = flags_to_u16 p.flags},
)

flags_to_u16-flags_from_u16 : (v : ℕ) → flags_to_u16 (flags_from_u16 v) ≡ v % 4
unfolding flags_to_u16 flags_from_u16
flags_to_u16-flags_from_u16 v = ground (arith, bit_and-two_pow 0 v, bit_and-two_pow 1 v)

to_u8-try_from : (b : ℕ) (t : PacketType) → try_from b ≡ some t → to_u8 t ≡ b
unfolding try_from to_u8
to_u8-try_from b t e = ground arith

try_from-none : (b : ℕ) → (try_from b ≡ none) ↔ ((b ≡ 0) ⊎ (7 < b))
unfolding try_from
try_from-none b = (λ e. ground arith, λ h. ground arith)

-- The parser gives nothing exactly when there are fewer than 12 bytes, the first is not the
-- version, or the second is not one of the seven types.
pub from_bytes-none :
    (bytes : List ℕ)
    → (from_bytes bytes ≡ none) ↔ (
        (length bytes < header_size)
        ⊎ (get_or bytes 0 0 ≢ protocol_version)
        ⊎ (get_or bytes 1 0 ≡ 0)
        ⊎ (7 < get_or bytes 1 0))
unfolding from_bytes
from_bytes-none bytes = (
  λ e. elim (Option-cases (try_from (get_or bytes 1 0))) [
    | inl none_e ↦ ground (arith, (try_from-none (get_or bytes 1 0)).0 none_e)
    | inr (ty, some_e) ↦ ground (arith, some_e)
  ],
  λ h. ground (arith, (try_from-none (get_or bytes 1 0)).1),
)

-- Written out again, an accepted packet of bytes is the same bytes, but for the fourteen bits of
-- the flags that mean nothing, which become 0.
pub to_bytes-from_bytes :
    (bytes : List ℕ) (p : Packet)
    → AllBytes bytes
    → from_bytes bytes ≡ some p
    → to_bytes p ≡ take 10 bytes ++ 0 ∷ (get_or bytes 11 0 % 4) ∷ drop 12 bytes
unfolding from_bytes to_bytes header_bytes
to_bytes-from_bytes (v ∷ t ∷ s0 ∷ s1 ∷ s2 ∷ s3 ∷ t0 ∷ t1 ∷ t2 ∷ t3 ∷ f0 ∷ f1 ∷ rest) p h e =
    elim (Option-cases (try_from t)) [
      | inl none_e ↦ ground (arith, none_e)
      | inr (ty, some_e) ↦
          ground (
            arith,
            some_e,
            to_u8-try_from t ty some_e,
            flags_to_u16-flags_from_u16 (from_be16 f0 f1),
          )
    ]
to_bytes-from_bytes _ p h e = ground arith
