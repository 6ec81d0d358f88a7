-- ===== src/Fec/Arrival.antt =====
-- A decoder that takes the packets of a group as they arrive.
use mathlib.Core.List.{Permᴰ, append-nil}
use jamjam_client.Prelude.{
  ℕ, ◌+◌, ◌<◌, ◌≡◌, ◌≢◌, refl, sym, ◌∙◌, ap, subst, false, Option, none, some, List, [], ◌∷◌, ◌++◌,
  arith, length, get_or,
}
use jamjam_client.Prelude.Assoc.{contains_key, lookup}
use jamjam_client.Fec.{FecDecoder, RecoveredPacket, generate_fec, rebuild, try_group, recover_with}
use jamjam_client.Fec.Order.{Entry, length-perm, Distinct-perm}
use jamjam_client.Fec.Groups.{others, length-others, Distinct-others}
use jamjam_client.Fec.Recovery.{fec_of, IsGroup, rebuild_lem}
use jamjam_client.Fec.Steps.{
  parity, receive, found, receive_all, arrivals, onto, onto-Distinct, onto-append, onto-perm,
  length-onto, Holds, put, kept, decode_packet_lem, add_fec_lem, put-Holds, rebuild_early,
}

module _ (g k : ℕ) (ps : List (List ℕ)) (at : k < length ps) (group : IsGroup ps) where
  lost : RecoveredPacket
  lost = record { group_sequence = g; packet_index = k; bytes = get_or ps k [] }

  fec_count : (fec_of g ps).packet_count ≡ length ps
  unfolding generate_fec
  fec_count = omega (arith, group.few)

  fec_group : (fec_of g ps).group_sequence ≡ g
  unfolding generate_fec
  fec_group = refl

  rebuild_now :
      (acc : List Entry)
      → Permᴰ acc (others 0 k ps)
      → rebuild acc (fec_of g ps) ≡ some (k, get_or ps k [])
  rebuild_now acc perm = rebuild_lem g k ps acc at group perm

  complete :
      (d : FecDecoder) (acc : List Entry)
      → Permᴰ acc (others 0 k ps)
      → (try_group d g (kept acc (some (fec_of g ps)))).1 ≡ some lost
  unfolding try_group lost
  complete d acc perm =
      ap (λ r. (recover_with d g (kept acc (some (fec_of g ps))) r).1) (rebuild_now acc perm)

  waiting :
      (d : FecDecoder) (acc : List Entry)
      → length acc + 1 ≢ length ps
      → try_group d g (kept acc (some (fec_of g ps))) ≡ (d, none)
  unfolding try_group
  waiting d acc h =
      ap (recover_with d g (kept acc (some (fec_of g ps))))
        (rebuild_early acc (fec_of g ps) (λ e. h (e ∙ fec_count)))

  new_key :
      (e : Entry) (es acc : List Entry)
      → Permᴰ (onto (e ∷ es) acc) (others 0 k ps)
      → contains_key e.0 acc ≡ false
  new_key e es acc perm =
      (onto-Distinct es (e ∷ acc) (Distinct-perm perm (Distinct-others 0 k ps at))).0

  not_last :
      (es acc : List Entry)
      → Permᴰ (onto es acc) (others 0 k ps)
      → 0 < length es
      → length acc + 1 ≢ length ps
  not_last es acc perm h =
      omega (arith, length-onto es acc, length-perm perm, length-others 0 k ps at)

  -- Packets after the FEC packet: the last of them brings the lost one back.
  after_parity :
      (d : FecDecoder) (i : ℕ) (p : List ℕ) (es acc : List Entry)
      → Holds d g acc (some (fec_of g ps))
      → Permᴰ (onto ((i, p) ∷ es) acc) (others 0 k ps)
      → receive_all d (arrivals g ((i, p) ∷ es)) ≡ lost ∷ []
  unfolding receive_all receive
  after_parity d i p [] acc h perm =
      ap (λ (t : FecDecoder × Option RecoveredPacket). found t.1 ++ [])
        (decode_packet_lem d g i p acc (some (fec_of g ps)) h (new_key (i, p) [] acc perm))
      ∙ ap (λ o. found o ++ [])
          (complete (put d g (kept ((i, p) ∷ acc) (some (fec_of g ps)))) ((i, p) ∷ acc) perm)
  after_parity d i p ((j, q) ∷ es) acc h perm =
      let d' = put d g (kept ((i, p) ∷ acc) (some (fec_of g ps))) in
      ap
        (λ (t : FecDecoder × Option RecoveredPacket).
          found t.1 ++ receive_all t.0 (arrivals g ((j, q) ∷ es)))
        (decode_packet_lem d g i p acc (some (fec_of g ps)) h
            (new_key (i, p) ((j, q) ∷ es) acc perm)
          ∙ waiting d' ((i, p) ∷ acc) (not_last ((j, q) ∷ es) ((i, p) ∷ acc) perm (omega arith)))
      ∙ after_parity d' j q es ((i, p) ∷ acc) (put-Holds d g ((i, p) ∷ acc) (some (fec_of g ps)))
          perm

  at_parity :
      (d : FecDecoder) (fs acc : List Entry)
      → Holds d g acc none
      → Permᴰ (onto fs acc) (others 0 k ps)
      → receive_all d (parity (fec_of g ps) ∷ arrivals g fs) ≡ lost ∷ []
  unfolding receive_all receive generate_fec
  at_parity d [] acc h perm =
      ap (λ (t : FecDecoder × Option RecoveredPacket). found t.1 ++ [])
        (add_fec_lem d acc none (fec_of g ps) h)
      ∙ ap (λ o. found o ++ []) (complete (put d g (kept acc (some (fec_of g ps)))) acc perm)
  at_parity d ((i, p) ∷ fs) acc h perm =
      let d' = put d g (kept acc (some (fec_of g ps))) in
      ap
        (λ (t : FecDecoder × Option RecoveredPacket).
          found t.1 ++ receive_all t.0 (arrivals g ((i, p) ∷ fs)))
        (add_fec_lem d acc none (fec_of g ps) h
          ∙ waiting d' acc (not_last ((i, p) ∷ fs) acc perm (omega arith)))
      ∙ after_parity d' i p fs acc (put-Holds d g acc (some (fec_of g ps))) perm

  before_parity :
      (d : FecDecoder) (es fs acc : List Entry)
      → Holds d g acc none
      → Permᴰ (onto fs (onto es acc)) (others 0 k ps)
      → receive_all d (arrivals g es ++ (parity (fec_of g ps) ∷ arrivals g fs)) ≡ lost ∷ []
  unfolding receive_all receive try_group
  before_parity d [] fs acc h perm = at_parity d fs acc h perm
  before_parity d ((i, p) ∷ es) fs acc h perm =
      let d' = put d g (kept ((i, p) ∷ acc) none) in
      ap
        (λ (t : FecDecoder × Option RecoveredPacket).
          found t.1 ++ receive_all t.0 (arrivals g es ++ (parity (fec_of g ps) ∷ arrivals g fs)))
        (decode_packet_lem d g i p acc none h (
          new_key (i, p) (es ++ fs) acc
            (subst (λ t. Permᴰ t (others 0 k ps)) (sym (onto-append ((i, p) ∷ es) fs acc)) perm)))
      ∙ before_parity d' es fs ((i, p) ∷ acc) (put-Holds d g ((i, p) ∷ acc) none) perm

  -- A group of at most 255 packets, none longer than 65535 bytes, loses packet `k`. A decoder that
  -- has seen nothing of the group is given the other packets in any order, and the group's FEC
  -- packet before, among or after them: it recovers exactly one packet, which is the lost one with
  -- its bytes and its index.
  pub receive_all_recovers :
      (d : FecDecoder) (es fs : List Entry)
      → lookup g d.groups ≡ none
      → Permᴰ (es ++ fs) (others 0 k ps)
      → receive_all d (arrivals g es ++ (parity (fec_of g ps) ∷ arrivals g fs))
        ≡ record { group_sequence = g; packet_index = k; bytes = get_or ps k [] } ∷ []
  unfolding lost
  receive_all_recovers d es fs unseen perm = before_parity d es fs [] (ground (arith, unseen)) (
      Permᴰ.trans
        (subst (λ t. Permᴰ t (es ++ fs)) (onto-append es fs [])
          (subst (Permᴰ (onto (es ++ fs) [])) (append-nil (es ++ fs)) (onto-perm (es ++ fs) [])))
        perm)
