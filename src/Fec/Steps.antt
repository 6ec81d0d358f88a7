-- ===== src/Fec/Steps.antt =====
-- One arrival at a decoder: the map of a group after it, and what the decoder tries.
use mathlib.Core.List.{Permᴰ}
use mathlib.Core.List.Permᴰ
use jamjam_client.Prelude.{
  ℕ, ◌+◌, ◌≡◌, ◌≢◌, refl, ◌∙◌, ap, false, Option, none, some, List, [], ◌∷◌, ◌++◌, arith, length,
}
use jamjam_client.Prelude.Assoc.{contains_key, lookup, insert, lookup-insert, remove_absent}
use jamjam_client.Fec.{
  FecPacket, FecDecoder, GroupState, RecoveredPacket, rebuild, group_at, try_recover, try_group,
  add_fec, decode_packet,
}
use jamjam_client.Fec.Order.{Entry, Distinct}

pub data Arrival : Type 0 where
  packet : ℕ → ℕ → List ℕ → Arrival
  parity : FecPacket → Arrival

unfoldable pub receive : FecDecoder → Arrival → FecDecoder × Option RecoveredPacket
receive d (packet g index bytes) = decode_packet d g index bytes
receive d (parity fec) = add_fec d fec

abbrev pub found : Option RecoveredPacket → List RecoveredPacket
found none = []
found (some r) = r ∷ []

-- What the decoder recovers from the arrivals, in order.
unfoldable pub receive_all : FecDecoder → List Arrival → List RecoveredPacket
receive_all d [] = []
receive_all d (a ∷ rest) = let (d', out) = receive d a in found out ++ receive_all d' rest

-- The packets of group `g` as arrivals.
abbrev pub arrivals : ℕ → List Entry → List Arrival
arrivals g [] = []
arrivals g ((i, p) ∷ es) = packet g i p ∷ arrivals g es

-- The entries of a map after those of `es` were inserted one by one.
abbrev pub onto : List Entry → List Entry → List Entry
onto [] acc = acc
onto (e ∷ es) acc = onto es (e ∷ acc)

pub onto-Distinct : (es acc : List Entry) → Distinct (onto es acc) → Distinct acc
onto-Distinct [] acc d = d
onto-Distinct (e ∷ es) acc d = (onto-Distinct es (e ∷ acc) d).1

pub onto-append : (es fs acc : List Entry) → onto (es ++ fs) acc ≡ onto fs (onto es acc)
onto-append [] fs acc = refl
onto-append (e ∷ es) fs acc = onto-append es fs (e ∷ acc)

pub middle-perm : (e : Entry) (es acc : List Entry) → Permᴰ (es ++ (e ∷ acc)) (e ∷ (es ++ acc))
middle-perm e [] acc = Permᴰ.refl (e ∷ acc)
middle-perm e (f ∷ es) acc =
    Permᴰ.trans (Permᴰ.cons refl (middle-perm e es acc)) (Permᴰ.swap refl refl)

pub onto-perm : (es acc : List Entry) → Permᴰ (onto es acc) (es ++ acc)
onto-perm [] acc = Permᴰ.refl acc
onto-perm (e ∷ es) acc = Permᴰ.trans (onto-perm es (e ∷ acc)) (middle-perm e es acc)

pub length-onto : (es acc : List Entry) → length (onto es acc) ≡ length es + length acc
length-onto [] acc = omega arith
length-onto (e ∷ es) acc = omega (arith, length-onto es (e ∷ acc))

-- The group as the decoder has it: these packets, this FEC packet, not recovered.
abbrev pub Holds : FecDecoder → ℕ → List Entry → Option FecPacket → Type 0
Holds d g acc fec = group_at d g ≡ record { packets = acc; fec = fec; recovered = false }

insert_fresh :
    (i : ℕ) (p : List ℕ) (acc : List Entry)
    → contains_key i acc ≡ false
    → insert i p acc ≡ (i, p) ∷ acc
unfolding insert
insert_fresh i p acc h = ap (◌∷◌ (i, p)) (remove_absent i acc h)

abbrev pub put : FecDecoder → ℕ → GroupState → FecDecoder
put d g s = record d { groups = insert g s d.groups }

attempt :
    (d : FecDecoder) (g : ℕ) (s : GroupState)
    → try_recover (put d g s) g ≡ try_group (put d g s) g s
unfolding try_recover
attempt d g s =
    let here : lookup g (insert g s d.groups) ≡ some s =
      ground (arith, lookup-insert g g s d.groups) in
    rw (here, try_recover)

abbrev pub kept : List Entry → Option FecPacket → GroupState
kept acc fec = record { packets = acc; fec = fec; recovered = false }

pub decode_packet_lem :
    (d : FecDecoder) (g i : ℕ) (p : List ℕ) (acc : List Entry) (fec : Option FecPacket)
    → Holds d g acc fec
    → contains_key i acc ≡ false
    → decode_packet d g i p
      ≡ try_group (put d g (kept ((i, p) ∷ acc) fec)) g (kept ((i, p) ∷ acc) fec)
unfolding decode_packet
decode_packet_lem d g i p acc fec h new =
    ap (λ (s : GroupState). try_recover (put d g (record s { packets = insert i p s.packets })) g) h
    ∙ ap (λ (m : List Entry). try_recover (put d g (kept m fec)) g) (insert_fresh i p acc new)
    ∙ attempt d g (kept ((i, p) ∷ acc) fec)

pub add_fec_lem :
    (d : FecDecoder) (acc : List Entry) (old : Option FecPacket) (fec : FecPacket)
    → Holds d fec.group_sequence acc old
    → add_fec d fec
      ≡ try_group
          (put d fec.group_sequence (kept acc (some fec)))
          fec.group_sequence
          (kept acc (some fec))
unfolding add_fec
add_fec_lem d acc old fec h =
    ap
      (λ (s : GroupState).
        try_recover (put d fec.group_sequence (record s { fec = some fec })) fec.group_sequence)
      h
    ∙ attempt d fec.group_sequence (kept acc (some fec))

pub put-Holds :
    (d : FecDecoder) (g : ℕ) (acc : List Entry) (fec : Option FecPacket)
    → Holds (put d g (kept acc fec)) g acc fec
put-Holds d g acc fec = ground (arith, lookup-insert g g (kept acc fec) d.groups)

-- While more than one packet is missing there is nothing to rebuild.
pub rebuild_early :
    (es : List Entry) (fec : FecPacket) → length es + 1 ≢ fec.packet_count → rebuild es fec ≡ none
unfolding rebuild
rebuild_early es fec h = ground arith
