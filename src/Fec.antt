-- ===== src/Fec.antt =====
-- src/network/fec.rs: one XOR packet for each group of packets, and its use for a lost one.
pub mod Columns
pub mod Order
pub mod Groups
pub mod Recovery
pub mod Steps
pub mod Arrival
pub mod Retention
pub mod Wire
pub mod Encoding
mod Tests
use jamjam_client.Prelude.{
  ℕ, zero, suc, ◌+◌, ◌*◌, ◌%◌, ◌^◌, max, bit_xor, Bool, true, false, not, ◌||◌, Option, none, some,
  List, [], ◌∷◌, ◌++◌, map, ltb, leb, ◌==◌, if◌then◌else◌, ◌>>=◌, length, get_or, get_elem?, take,
  drop, replicate,
}
use jamjam_client.Prelude.Bytes.{be16, be32, from_be16, from_be32}
use jamjam_client.Prelude.Assoc.{lookup, contains_key, remove, insert, min_key}

abbrev pub fec_group_size : ℕ
fec_group_size = 4

pub record FecEncoder : Type 0 where
  pub group_size : ℕ
  pub current_group : List (List ℕ)
  pub group_sequence : ℕ

pub record FecPacket : Type 0 where
  pub group_sequence : ℕ
  pub packet_count : ℕ
  pub packet_lengths : List ℕ
  pub fec_data : List ℕ

pub new_encoder : ℕ → FecEncoder
new_encoder group_size = record { group_size = group_size; current_group = []; group_sequence = 0 }

-- The length of the longest packet.
pub max_len : List (List ℕ) → ℕ
max_len [] = 0
max_len (p ∷ ps) = max (length p) (max_len ps)

-- `acc[i] ^= byte` for each byte of the packet that `acc` has room for.
pub xor_into : List ℕ → List ℕ → List ℕ
xor_into [] packet = []
xor_into (a ∷ acc) [] = a ∷ acc
xor_into (a ∷ acc) (b ∷ packet) = bit_xor a b ∷ xor_into acc packet

pub xor_all : List ℕ → List (List ℕ) → List ℕ
xor_all acc [] = acc
xor_all acc (p ∷ ps) = xor_all (xor_into acc p) ps

pub generate_fec : FecEncoder → FecPacket
generate_fec e = record {
  group_sequence = e.group_sequence;
  packet_count = length e.current_group % 2 ^ 8;
  packet_lengths = map (λ p. length p % 2 ^ 16) e.current_group;
  fec_data = xor_all (replicate (max_len e.current_group) 0) e.current_group;
}

pub encode_packet : FecEncoder → List ℕ → FecEncoder × Option FecPacket
encode_packet e bytes =
    let full = record e { current_group = e.current_group ++ (bytes ∷ []) } in
    if leb full.group_size (length full.current_group)
    then (
      record full { current_group = []; group_sequence = (full.group_sequence + 1) % 2 ^ 32 },
      some (generate_fec full),
    )
    else (full, none)

concat16 : List ℕ → List ℕ
concat16 [] = []
concat16 (n ∷ ns) = be16 n ++ concat16 ns

pub to_bytes : FecPacket → List ℕ
unfolding concat16
to_bytes f =
    be32 f.group_sequence
    ++ (f.packet_count ∷ [])
    ++ (0 ∷ [])
    ++ concat16 f.packet_lengths
    ++ f.fec_data

-- The lengths, `count` of them, from the bytes behind the first six.
read_lengths : ℕ → List ℕ → List ℕ
read_lengths zero bytes = []
read_lengths (suc count) bytes =
    from_be16 (get_or bytes 0 0) (get_or bytes 1 0) ∷ read_lengths count (drop 2 bytes)

pub from_bytes : List ℕ → Option FecPacket
unfolding read_lengths
from_bytes bytes =
    if ltb (length bytes) 6
    then none
    else (let packet_count = get_or bytes 4 0 in
        if ltb (length bytes) (6 + packet_count * 2)
        then none
        else some (record {
          group_sequence =
              from_be32 (get_or bytes 0 0) (get_or bytes 1 0) (get_or bytes 2 0) (get_or bytes 3 0);
          packet_count = packet_count;
          packet_lengths = read_lengths packet_count (drop 6 bytes);
          fec_data = drop (6 + packet_count * 2) bytes;
        }))

pub record GroupState : Type 0 where
  pub packets : List (ℕ × List ℕ)
  pub fec : Option FecPacket
  pub recovered : Bool

pub record FecDecoder : Type 0 where
  pub group_size : ℕ
  pub groups : List (ℕ × GroupState)
  pub max_groups : ℕ

pub record RecoveredPacket : Type 0 where
  pub group_sequence : ℕ
  pub packet_index : ℕ
  pub bytes : List ℕ

pub new_decoder : ℕ → FecDecoder
new_decoder group_size = record { group_size = group_size; groups = []; max_groups = 16 }

pub reset : FecDecoder → FecDecoder
reset d = record d { groups = [] }

abbrev pub fresh_group : GroupState
fresh_group = record { packets = []; fec = none; recovered = false }

-- `entry(group_sequence).or_insert_with(...)`
abbrev pub group_at : FecDecoder → ℕ → GroupState
group_at d g = elim (lookup g d.groups) [ none ↦ fresh_group | some s ↦ s ]

-- The first of the `rounds` indexes from `i` on that has no packet.
pub first_missing : ℕ → ℕ → List (ℕ × List ℕ) → Option ℕ
first_missing zero i packets = none
first_missing (suc rounds) i packets =
    if contains_key i packets then first_missing rounds (i + 1) packets else some i

-- The packets of all indexes but the missing one, XORed into `acc`.
pub xor_others : ℕ → List ℕ → List (ℕ × List ℕ) → List ℕ
xor_others missing acc [] = acc
xor_others missing acc ((i, p) ∷ ps) =
    xor_others missing (if i == missing then acc else xor_into acc p) ps

pub cleanup : FecDecoder → FecDecoder
cleanup d =
    if ltb d.max_groups (length d.groups)
    then elim (min_key d.groups) [
      | none ↦ d
      | some oldest ↦ record d { groups = remove oldest d.groups }
    ]
    else d

-- What a group with its FEC packet gives: the index that is missing, and its bytes.
pub rebuild : List (ℕ × List ℕ) → FecPacket → Option (ℕ × List ℕ)
rebuild packets fec =
    if not (length packets + 1 == fec.packet_count)
    then none
    else first_missing fec.packet_count 0 packets >>= λ missing.
        get_elem? fec.packet_lengths missing >>= λ recovered_len.
        some (missing, take recovered_len (xor_others missing fec.fec_data packets))

pub recover_with :
    FecDecoder → ℕ → GroupState → Option (ℕ × List ℕ) → FecDecoder × Option RecoveredPacket
unfolding cleanup
recover_with d g s none = (d, none)
recover_with d g s (some (missing, bytes)) = (
  cleanup (record d { groups = insert g (record s { recovered = true }) d.groups }),
  some (record { group_sequence = g; packet_index = missing; bytes = bytes }),
)

pub try_group : FecDecoder → ℕ → GroupState → FecDecoder × Option RecoveredPacket
unfolding recover_with
try_group d g s =
    if s.recovered
    then (d, none)
    else elim s.fec [ none ↦ (d, none) | some fec ↦ recover_with d g s (rebuild s.packets fec) ]

pub try_recover : FecDecoder → ℕ → FecDecoder × Option RecoveredPacket
unfolding try_group
try_recover d g = elim (lookup g d.groups) [ none ↦ (d, none) | some s ↦ try_group d g s ]

pub decode_packet : FecDecoder → ℕ → ℕ → List ℕ → FecDecoder × Option RecoveredPacket
decode_packet d g index bytes =
    let s = group_at d g in
    let s' = record s { packets = insert index bytes s.packets } in
    try_recover (record d { groups = insert g s' d.groups }) g

pub add_fec : FecDecoder → FecPacket → FecDecoder × Option RecoveredPacket
add_fec d fec =
    let g = fec.group_sequence in
    let s = group_at d g in
    let s' = record s { fec = some fec } in
    try_recover (record d { groups = insert g s' d.groups }) g
