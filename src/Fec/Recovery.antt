-- ===== src/Fec/Recovery.antt =====
-- What a decoder rebuilds from a group that lost one packet.
use mathlib.Core.List.{Permᴰ}
use jamjam_client.Bits.{bit_xor_comm, bit_xor_assoc, bit_xor_self, bit_xor-zero}
use jamjam_client.Prelude.{
  ℕ, ◌%◌, ◌^◌, ◌≤◌, ◌<◌, bit_xor, ◌≡◌, ◌∙◌, ap, ap₂, false, some, List, [], arith, length, get_or,
  take, replicate, length-replicate,
}
use jamjam_client.Prelude.Assoc.{contains_key}
use jamjam_client.Fec.{
  FecPacket, generate_fec, max_len, xor_all, xor_others, first_missing, rebuild,
}
use jamjam_client.Fec.Columns.{
  column, bodies, AllWithin, AllWithin-le, AllWithin-max_len, length-xor_all, get_or-xor_all,
  get_or-replicate_zero, xor_others-bodies,
}
use jamjam_client.Fec.Order.{Entry, column-perm, contains_key-perm, length-perm, AllWithin-perm}
use jamjam_client.Fec.Groups.{
  others, length-others, contains_key-others, AllWithin-others, column-others, first_missing_lem,
  AllWithin-get, get_elem?-map, take_agreeing,
}

-- The FEC packet that the sender makes of the packets of group `g`.
abbrev pub fec_of : ℕ → List (List ℕ) → FecPacket
fec_of g ps =
    generate_fec (record { group_size = length ps; current_group = ps; group_sequence = g })

-- A group that the header can describe: at most 255 packets, none longer than 65535 bytes.
pub record IsGroup (ps : List (List ℕ)) : Type 0 where
  pub few : length ps < 2 ^ 8
  pub short : max_len ps < 2 ^ 16

xor_cancel : (a b : ℕ) → bit_xor (bit_xor a b) b ≡ a
xor_cancel a b = bit_xor_assoc a b b ∙ ap (bit_xor a) (bit_xor_self b) ∙ bit_xor-zero a

-- The group `ps` lost packet `k`, and `es` is what arrived, in any order.
module _ (g k : ℕ) (ps : List (List ℕ)) (es : List Entry) (at : k < length ps) (group : IsGroup ps)
    (arrived : Permᴰ es (others 0 k ps)) where
  width : AllWithin (length (xor_all (replicate (max_len ps) 0) ps)) (bodies es)
  width = AllWithin-perm (length (xor_all (replicate (max_len ps) 0) ps)) arrived (
      AllWithin-others (length (xor_all (replicate (max_len ps) 0) ps)) 0 k ps (
        AllWithin-le ps (max_len ps) (length (xor_all (replicate (max_len ps) 0) ps))
          (omega (
            arith,
            length-xor_all (replicate (max_len ps) 0) ps,
            length-replicate {A = ℕ} (max_len ps) 0,
          ))
          (AllWithin-max_len ps)))

  absent : contains_key k es ≡ false
  absent = ground (arith, contains_key-perm k arrived, contains_key-others k 0 k ps at)

  byte :
      (i : ℕ)
      → get_or (xor_others k (xor_all (replicate (max_len ps) 0) ps) es) i 0
        ≡ get_or (get_or ps k []) i 0
  byte i =
      ap (λ t. get_or t i 0) (xor_others-bodies k (xor_all (replicate (max_len ps) 0) ps) es absent)
      ∙ get_or-xor_all (xor_all (replicate (max_len ps) 0) ps) (bodies es) i width
      ∙ ap₂ bit_xor sent (column-perm i arrived)
      ∙ xor_cancel (get_or (get_or ps k []) i 0) (column i (bodies (others 0 k ps)))
    where
      zeros : ℕ
      zeros = get_or {A = ℕ} (replicate (max_len ps) 0) i 0

      sent :
          get_or (xor_all (replicate (max_len ps) 0) ps) i 0
          ≡ bit_xor (get_or (get_or ps k []) i 0) (column i (bodies (others 0 k ps)))
      sent =
          get_or-xor_all (replicate (max_len ps) 0) ps i (
            AllWithin-le ps (max_len ps) (length {A = ℕ} (replicate (max_len ps) 0))
              (omega (arith, length-replicate {A = ℕ} (max_len ps) 0)) (AllWithin-max_len ps))
          ∙ ap (λ t. bit_xor t (column i ps)) (get_or-replicate_zero (max_len ps) i)
          ∙ bit_xor_comm 0 (column i ps)
          ∙ bit_xor-zero (column i ps)
          ∙ column-others i 0 k ps at

  missing : first_missing (length ps) 0 es ≡ some k
  missing =
      first_missing_lem (length ps) 0 k es
        (λ j a b. ground (arith, contains_key-perm j arrived, contains_key-others j 0 k ps at))
        absent (omega arith) (omega arith)

  cut :
      take
        (length (get_or ps k []) % 2 ^ 16)
        (xor_others k (xor_all (replicate (max_len ps) 0) ps) es)
      ≡ get_or ps k []
  cut =
      ap (λ n. take n found) {y = length (get_or ps k [])} (omega (arith, group.short, long_enough))
      ∙ take_agreeing found (get_or ps k []) (omega (arith, long_enough, found_length)) byte
    where
      found : List ℕ
      found = xor_others k (xor_all (replicate (max_len ps) 0) ps) es

      long_enough : length (get_or ps k []) ≤ max_len ps
      long_enough = AllWithin-get (max_len ps) k ps (AllWithin-max_len ps)

      found_length : length found ≡ max_len ps
      found_length =
          ap length (xor_others-bodies k (xor_all (replicate (max_len ps) 0) ps) es absent)
          ∙ length-xor_all (xor_all (replicate (max_len ps) 0) ps) (bodies es)
          ∙ length-xor_all (replicate (max_len ps) 0) ps
          ∙ length-replicate (max_len ps) 0

  pub rebuild_lem : rebuild es (fec_of g ps) ≡ some (k, get_or ps k [])
  unfolding rebuild generate_fec
  rebuild_lem = ground (
    arith,
    group,
    length-perm arrived,
    length-others 0 k ps at,
    missing,
    get_elem?-map k ps (λ p. length p % 2 ^ 16) at,
    cut,
  )
