-- ===== src/Fec/Wire.antt =====
-- An FEC packet through the wire and back.
use jamjam_client.Prelude.{
  ℕ, zero, suc, ◌+◌, ◌*◌, ◌^◌, ◌<◌, ◌≡◌, refl, sym, ◌∙◌, ap, some, List, [], ◌∷◌, ◌++◌, arith,
  length, drop, length-append,
}
use jamjam_client.Prelude.Bytes.{be32, from_be16-be16, from_be32-be32}
use mathlib.Core.List.{append_assoc}
use jamjam_client.Fec.{FecPacket, concat16, read_lengths, to_bytes, from_bytes}

abbrev pub AllFit : List ℕ → Type 0
AllFit [] = Unit
AllFit (n ∷ ns) = (n < 2 ^ 16) × AllFit ns

pub record IsWire (f : FecPacket) : Type 0 where
  pub sequence_fits : f.group_sequence < 2 ^ 32
  pub count_fits : f.packet_count < 2 ^ 8
  pub counted : f.packet_count ≡ length f.packet_lengths
  pub lengths_fit : AllFit f.packet_lengths

length-concat16 : (ns : List ℕ) → length (concat16 ns) ≡ length ns * 2
unfolding concat16
length-concat16 [] = refl
length-concat16 (n ∷ ns) = omega (arith, length-concat16 ns)

read_lengths-concat16 :
    (ns rest : List ℕ) → AllFit ns → read_lengths (length ns) (concat16 ns ++ rest) ≡ ns
unfolding read_lengths concat16
read_lengths-concat16 [] rest w = refl
read_lengths-concat16 (n ∷ ns) rest w =
    ground (arith, from_be16-be16 n w.0, read_lengths-concat16 ns rest w.1)

drop-append : (xs ys : List ℕ) (n : ℕ) → n ≡ length xs → drop n (xs ++ ys) ≡ ys
drop-append [] ys zero h = refl
drop-append [] ys (suc n) h = absurd (omega arith)
drop-append (x ∷ xs) ys zero h = absurd (omega arith)
drop-append (x ∷ xs) ys (suc n) h = drop-append xs ys n (omega arith)

front : FecPacket → List ℕ
front f = be32 f.group_sequence ++ (f.packet_count ∷ 0 ∷ [])

drop-front :
    (f : FecPacket)
    → IsWire f
    → drop (6 + f.packet_count * 2) (front f ++ (concat16 f.packet_lengths ++ f.fec_data))
      ≡ f.fec_data
unfolding front
drop-front f v =
    ap (drop (6 + f.packet_count * 2))
      (sym (append_assoc (front f) (concat16 f.packet_lengths) f.fec_data))
    ∙ drop-append (front f ++ concat16 f.packet_lengths) f.fec_data (6 + f.packet_count * 2)
        (omega (arith, v.counted, length-concat16 f.packet_lengths))

-- An FEC packet whose numbers fit their fields, and whose count is that of its lengths, is read
-- back from its bytes.
pub fec_round_trip : (f : FecPacket) → IsWire f → from_bytes (to_bytes f) ≡ some f
unfolding from_bytes to_bytes front
fec_round_trip f v = ground (
  arith,
  v.counted,
  from_be32-be32 f.group_sequence,
  read_lengths-concat16 f.packet_lengths f.fec_data v.lengths_fit,
  length-append (concat16 f.packet_lengths) f.fec_data,
  length-concat16 f.packet_lengths,
  drop-front f v,
)
