-- ===== src/Fec/Encoding.antt =====
-- What the encoder sends for a stream of packets.
use mathlib.Core.List.{append_assoc, flatten}
use jamjam_client.Prelude.{
  ℕ, suc, ◌+◌, ◌%◌, ◌^◌, ◌<◌, ◌≡◌, refl, ◌∙◌, ap, Option, none, some, List, [], ◌∷◌, ◌++◌, arith,
  length, length-append,
}
use jamjam_client.Fec.{FecEncoder, FecPacket, generate_fec, encode_packet}
use jamjam_client.Fec.Recovery.{fec_of}

abbrev pub emitted : Option FecPacket → List FecPacket
emitted none = []
emitted (some f) = f ∷ []

-- The FEC packets for a stream, and the encoder after it.
pub encode_all : FecEncoder → List (List ℕ) → FecEncoder × List FecPacket
encode_all e [] = (e, [])
encode_all e (p ∷ ps) =
    let (e', out) = encode_packet e p in
    let (e'', outs) = encode_all e' ps in (e'', emitted out ++ outs)

-- The FEC packets of whole groups, numbered from `s` on.
abbrev pub fecs : ℕ → List (List (List ℕ)) → List FecPacket
fecs s [] = []
fecs s (ps ∷ groups) = fec_of s ps ∷ fecs ((s + 1) % 2 ^ 32) groups

abbrev pub AllSized : ℕ → List (List (List ℕ)) → Type 0
AllSized n [] = Unit
AllSized n (ps ∷ groups) = (length ps ≡ n) × AllSized n groups

abbrev encoder : ℕ → List (List ℕ) → ℕ → FecEncoder
encoder n acc s = record { group_size = n; current_group = acc; group_sequence = s }

fills :
    (n s : ℕ) (acc : List (List ℕ)) (p : List ℕ)
    → length acc + 1 < n
    → encode_packet (encoder n acc s) p ≡ (encoder n (acc ++ (p ∷ [])) s, none)
unfolding encode_packet
fills n s acc p h = ground (arith, length-append acc (p ∷ []))

-- The packets that complete a group, and then the rest of the stream.
complete_group :
    (n s : ℕ) (acc : List (List ℕ)) (p : List ℕ) (ps rest : List (List ℕ))
    → length acc + suc (length ps) ≡ n
    → encode_all (encoder n acc s) ((p ∷ ps) ++ rest) ≡ (
        let (e, outs) = encode_all (encoder n [] ((s + 1) % 2 ^ 32)) rest in
        (e, fec_of s (acc ++ (p ∷ ps)) ∷ outs))
unfolding encode_all encode_packet generate_fec
complete_group n s acc p [] rest h = ground (arith, length-append acc (p ∷ []))
complete_group n s acc p (q ∷ ps) rest h =
    ap
      (λ (t : FecEncoder × Option FecPacket).
        let (e, outs) = encode_all t.0 ((q ∷ ps) ++ rest) in (e, emitted t.1 ++ outs))
      (fills n s acc p (omega arith))
    ∙ complete_group n s (acc ++ (p ∷ [])) q ps rest (omega (arith, length-append acc (p ∷ [])))
    ∙ ap
        (λ t.
          let (e, outs) = encode_all (encoder n [] ((s + 1) % 2 ^ 32)) rest in
          (e, fec_of s t ∷ outs))
        (append_assoc acc (p ∷ []) (q ∷ ps))

-- Given whole groups of `n` packets one after another, an encoder of group size `n` that starts with
-- no packet and number `s` sends exactly the FEC packets of those groups, under the numbers from `s`
-- on, mod 2 ^ 32.
pub encode_all-groups :
    (n s : ℕ) (groups : List (List (List ℕ)))
    → 0 < n
    → AllSized n groups
    → (encode_all (encoder n [] s) (flatten groups)).1 ≡ fecs s groups
unfolding encode_all flatten
encode_all-groups n s [] h w = refl
encode_all-groups n s ([] ∷ groups) h w = absurd (omega arith)
encode_all-groups n s ((p ∷ ps) ∷ groups) h w =
    ap (λ (t : FecEncoder × List FecPacket). t.1)
      (complete_group n s [] p ps (flatten groups) (omega (arith, w.0)))
    ∙ ap (◌∷◌ (fec_of s (p ∷ ps))) (encode_all-groups n ((s + 1) % 2 ^ 32) groups h w.1)
