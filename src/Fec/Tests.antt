-- ===== src/Fec/Tests.antt =====
-- The theorems of the FEC codec on a group of three packets.
use mathlib.Core.List.{Permᴰ, flatten}
use jamjam_client.Prelude.{ℕ, ◌≡◌, refl, some, List, [], ◌∷◌, ◌++◌, arith, length}
use jamjam_client.Prelude.Assoc.{lookup, insert, remove}
use jamjam_client.Fec.{
  FecPacket, new_encoder, new_decoder, generate_fec, to_bytes, from_bytes, decode_packet, add_fec,
  try_recover, rebuild, max_len, xor_all, xor_into,
}
use jamjam_client.Fec.Recovery.{fec_of, IsGroup}
use jamjam_client.Fec.Steps.{parity, receive, receive_all, arrivals}
use jamjam_client.Fec.Arrival.{receive_all_recovers}
use jamjam_client.Fec.Wire.{fec_round_trip}
use jamjam_client.Fec.Encoding.{encode_all, encode_all-groups, fecs}
use jamjam_client.Fec.Retention.{after_all, whole}

abbrev trio : List (List ℕ)
trio = (1 ∷ 2 ∷ []) ∷ (3 ∷ []) ∷ (7 ∷ 8 ∷ 9 ∷ []) ∷ []

abbrev trio_fec : FecPacket
trio_fec = record {
  group_sequence = 5;
  packet_count = 3;
  packet_lengths = 2 ∷ 1 ∷ 3 ∷ [];
  fec_data = 5 ∷ 10 ∷ 9 ∷ [];
}

trio_fec_lem : fec_of 5 trio ≡ trio_fec
unfolding generate_fec xor_all xor_into max_len
trio_fec_lem = refl

trio-IsGroup : IsGroup trio
unfolding max_len
trio-IsGroup = omega arith

-- The last packet, then the FEC packet, then the first one; the second is lost.
receive_all_recovers_example :
    receive_all (new_decoder 3) (
      arrivals 5 ((2, 7 ∷ 8 ∷ 9 ∷ []) ∷ [])
      ++ (parity (fec_of 5 trio) ∷ arrivals 5 ((0, 1 ∷ 2 ∷ []) ∷ [])))
    ≡ record { group_sequence = 5; packet_index = 1; bytes = 3 ∷ [] } ∷ []
unfolding new_decoder lookup
receive_all_recovers_example =
    receive_all_recovers 5 1 trio (omega arith) trio-IsGroup (new_decoder 3)
      ((2, 7 ∷ 8 ∷ 9 ∷ []) ∷ []) ((0, 1 ∷ 2 ∷ []) ∷ []) refl (Permᴰ.swap refl refl)

fec_round_trip_example : from_bytes (to_bytes trio_fec) ≡ some trio_fec
fec_round_trip_example = fec_round_trip trio_fec (omega arith)

encode_all-groups_example :
    (encode_all (new_encoder 3) (flatten (trio ∷ trio ∷ []))).1 ≡ fecs 0 (trio ∷ trio ∷ [])
unfolding new_encoder
encode_all-groups_example = encode_all-groups 3 0 (trio ∷ trio ∷ []) (omega arith) (omega arith)

-- Twenty groups of one packet are twenty entries, where `max_groups` is 16.
twenty : List (ℕ × List (List ℕ))
twenty =
    (1, one)
    ∷ (2, one)
    ∷ (3, one)
    ∷ (4, one)
    ∷ (5, one)
    ∷ (6, one)
    ∷ (7, one)
    ∷ (8, one)
    ∷ (9, one)
    ∷ (10, one)
    ∷ (11, one)
    ∷ (12, one)
    ∷ (13, one)
    ∷ (14, one)
    ∷ (15, one)
    ∷ (16, one)
    ∷ (17, one)
    ∷ (18, one)
    ∷ (19, one)
    ∷ (20, one)
    ∷ []
  where
    one : List (List ℕ)
    one = (1 ∷ []) ∷ []

twenty_groups : length (after_all (new_decoder 1) (whole twenty)).groups ≡ 20
unfolding after_all receive twenty new_decoder add_fec decode_packet generate_fec try_recover
    rebuild lookup insert remove max_len xor_all xor_into
twenty_groups = refl
