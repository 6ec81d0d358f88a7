-- ===== src/Fec/Retention.antt =====
-- Groups that lose nothing: what the decoder keeps of them.
use jamjam_client.Prelude.{ℕ, ◌≡◌, ◌≢◌, false, some, List, [], ◌∷◌, ◌++◌}
use jamjam_client.Prelude.Assoc.{contains_key, lookup}
use jamjam_client.Fec.{FecDecoder, GroupState}
use jamjam_client.Fec.Groups.{numbered}
use jamjam_client.Fec.Recovery.{fec_of, IsGroup}
use jamjam_client.Fec.Steps.{Arrival, parity, receive, arrivals}

-- The decoder after the arrivals.
unfoldable pub after_all : FecDecoder → List Arrival → FecDecoder
after_all d [] = d
after_all d (a ∷ rest) = after_all (receive d a).0 rest

-- What one whole group leaves behind: nothing recovered, the group held, the other groups as they were.
abbrev Keeps : FecDecoder → FecDecoder → ℕ → Type 0
Keeps d d' g =
    ((s : GroupState) × (lookup g d'.groups ≡ some s))
    × ((h : ℕ) → h ≢ g → lookup h d'.groups ≡ lookup h d.groups)

-- Whole groups one after another: all packets of each in order, then its FEC packet.
abbrev pub whole : List (ℕ × List (List ℕ)) → List Arrival
whole [] = []
whole ((g, ps) ∷ groups) =
    (arrivals g (numbered 0 ps) ++ (parity (fec_of g ps) ∷ [])) ++ whole groups

-- New groups, each that the header can describe.
abbrev pub AreGroups : List (ℕ × List (List ℕ)) → Type 0
AreGroups [] = Unit
AreGroups ((g, ps) ∷ groups) = IsGroup ps × (contains_key g groups ≡ false) × AreGroups groups

abbrev pub AllHeld : List (ℕ × List (List ℕ)) → FecDecoder → Type 0
AllHeld [] d = Unit
AllHeld ((g, ps) ∷ groups) d = ((s : GroupState) × (lookup g d.groups ≡ some s)) × AllHeld groups d

record Kept (groups : List (ℕ × List (List ℕ))) (d d' : FecDecoder) : Type 0 where
  held : AllHeld groups d'
  same : (h : ℕ) → contains_key h groups ≡ false → lookup h d'.groups ≡ lookup h d.groups
