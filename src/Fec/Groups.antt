-- ===== src/Fec/Groups.antt =====
-- A group as the sender numbers it, and all of it but one packet.
use native.Mathlib.Decide.{dec_lt}
use jamjam_client.Prelude.{
  ℕ, zero, suc, ◌+◌, ◌≤◌, ◌<◌, bit_xor, ◌≡◌, refl, sym, ◌∙◌, ap, true, false, not, ◌&&◌, some, List,
  [], ◌∷◌, arith, ltb, leb, ◌==◌, length, get_or, get_elem?, take, map,
}
use jamjam_client.Prelude.Assoc.{contains_key}
use jamjam_client.Fec.{first_missing}
use jamjam_client.Fec.Columns.{column, bodies, AllWithin}
use jamjam_client.Fec.Order.{left_comm, Entry, Distinct}

-- The packets with their indexes, from `base` on.
abbrev pub numbered : ℕ → List (List ℕ) → List Entry
numbered base [] = []
numbered base (p ∷ ps) = (base, p) ∷ numbered (suc base) ps

-- All of them but the one `k` places behind the first.
abbrev pub others : ℕ → ℕ → List (List ℕ) → List Entry
others base k [] = []
others base zero (p ∷ ps) = numbered (suc base) ps
others base (suc k) (p ∷ ps) = (base, p) ∷ others (suc base) k ps

bodies-numbered : (base : ℕ) (ps : List (List ℕ)) → bodies (numbered base ps) ≡ ps
bodies-numbered base [] = refl
bodies-numbered base (p ∷ ps) = ap (◌∷◌ p) (bodies-numbered (suc base) ps)

pub length-numbered : (base : ℕ) (ps : List (List ℕ)) → length (numbered base ps) ≡ length ps
length-numbered base [] = refl
length-numbered base (p ∷ ps) = ap suc (length-numbered (suc base) ps)

pub length-others :
    (base k : ℕ) (ps : List (List ℕ)) → k < length ps → length (others base k ps) + 1 ≡ length ps
length-others base k [] h = absurd (omega arith)
length-others base zero (p ∷ ps) h = omega (arith, length-numbered (suc base) ps)
length-others base (suc k) (p ∷ ps) h = omega (arith, length-others (suc base) k ps (omega arith))

contains_key-numbered :
    (j base : ℕ) (ps : List (List ℕ))
    → contains_key j (numbered base ps) ≡ (leb base j && ltb j (base + length ps))
unfolding contains_key
contains_key-numbered j base [] = ground arith
contains_key-numbered j base (p ∷ ps) = ground (arith, contains_key-numbered j (suc base) ps)

pub contains_key-others :
    (j base k : ℕ) (ps : List (List ℕ))
    → k < length ps
    → contains_key j (others base k ps)
      ≡ (leb base j && ltb j (base + length ps) && not (j == (base + k)))
unfolding contains_key
contains_key-others j base k [] h = absurd (omega arith)
contains_key-others j base zero (p ∷ ps) h = ground (arith, contains_key-numbered j (suc base) ps)
contains_key-others j base (suc k) (p ∷ ps) h =
    ground (arith, contains_key-others j (suc base) k ps)

pub Distinct-numbered : (base : ℕ) (ps : List (List ℕ)) → Distinct (numbered base ps)
Distinct-numbered base [] = tt
Distinct-numbered base (p ∷ ps) =
    (ground (arith, contains_key-numbered base (suc base) ps), Distinct-numbered (suc base) ps)

pub Distinct-others :
    (base k : ℕ) (ps : List (List ℕ)) → k < length ps → Distinct (others base k ps)
Distinct-others base k [] h = tt
Distinct-others base zero (p ∷ ps) h = Distinct-numbered (suc base) ps
Distinct-others base (suc k) (p ∷ ps) h = (
  ground (arith, contains_key-others base (suc base) k ps),
  Distinct-others (suc base) k ps (omega arith),
)

pub AllWithin-others :
    (n base k : ℕ) (ps : List (List ℕ)) → AllWithin n ps → AllWithin n (bodies (others base k ps))
AllWithin-others n base k [] w = tt
AllWithin-others n base zero (p ∷ ps) w = rw (bodies-numbered (suc base) ps) w.1
AllWithin-others n base (suc k) (p ∷ ps) w = (w.0, AllWithin-others n (suc base) k ps w.1)

-- A column is the byte of one packet XOR the column of the others.
pub column-others :
    (i base k : ℕ) (ps : List (List ℕ))
    → k < length ps
    → column i ps ≡ bit_xor (get_or (get_or ps k []) i 0) (column i (bodies (others base k ps)))
column-others i base k [] h = absurd (omega arith)
column-others i base zero (p ∷ ps) h =
    ap (λ t. bit_xor (get_or p i 0) (column i t)) (sym (bodies-numbered (suc base) ps))
column-others i base (suc k) (p ∷ ps) h =
    ap (bit_xor (get_or p i 0)) (column-others i (suc base) k ps (omega arith))
    ∙ left_comm (get_or p i 0) (get_or (get_or ps k []) i 0)
        (column i (bodies (others (suc base) k ps)))

pub first_missing_lem :
    (rounds i k : ℕ) (es : List Entry)
    → ((j : ℕ) → i ≤ j → j < k → contains_key j es ≡ true)
    → contains_key k es ≡ false
    → i ≤ k
    → k < i + rounds
    → first_missing rounds i es ≡ some k
unfolding first_missing
first_missing_lem zero i k es before at h l = absurd (omega arith)
first_missing_lem (suc rounds) i k es before at h l =
    let next = λ (p : i < k).
      first_missing_lem rounds (i + 1) k es (λ j a b. before j (omega arith) b) at (omega arith)
        (omega arith) in
    elim (dec_lt i k) [
      | yes p ↦ ground (arith, before i (omega arith) p, next p)
      | no p ↦
          let same : i ≡ k = omega arith in
          ground (arith, same, at, ap (λ t. contains_key t es) same)
    ]

pub AllWithin-get : (n k : ℕ) (ps : List (List ℕ)) → AllWithin n ps → length (get_or ps k []) ≤ n
AllWithin-get n k [] w = omega arith
AllWithin-get n zero (p ∷ ps) w = w.0
AllWithin-get n (suc k) (p ∷ ps) w = AllWithin-get n k ps w.1

pub get_elem?-map :
    (k : ℕ) (ps : List (List ℕ)) (f : List ℕ → ℕ)
    → k < length ps
    → get_elem? (map f ps) k ≡ some (f (get_or ps k []))
get_elem?-map k [] f h = absurd (omega arith)
get_elem?-map zero (p ∷ ps) f h = refl
get_elem?-map (suc k) (p ∷ ps) f h = get_elem?-map k ps f (omega arith)

-- A list that agrees with `ys` byte for byte, cut to its length, is `ys`.
pub take_agreeing :
    (xs ys : List ℕ)
    → length ys ≤ length xs
    → ((i : ℕ) → get_or xs i 0 ≡ get_or ys i 0)
    → take (length ys) xs ≡ ys
take_agreeing xs [] h e = refl
take_agreeing [] (y ∷ ys) h e = absurd (omega arith)
take_agreeing (x ∷ xs) (y ∷ ys) h e = cc (e 0, take_agreeing xs ys (omega arith) (λ i. e (suc i)))
