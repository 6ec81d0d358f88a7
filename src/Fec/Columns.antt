-- ===== src/Fec/Columns.antt =====
-- The bytes at one index of all packets, and their XOR.
use jamjam_client.Bits.{bit_xor_assoc, bit_xor-zero}
use jamjam_client.Prelude.{
  ℕ, zero, suc, ◌≤◌, max, bit_xor, ◌≡◌, refl, sym, ◌∙◌, ap, false, List, [], ◌∷◌, arith, length,
  get_or, replicate,
}
use jamjam_client.Prelude.Assoc.{contains_key}
use jamjam_client.Fec.{xor_into, xor_all, xor_others, max_len}

pub length-xor_into : (acc p : List ℕ) → length (xor_into acc p) ≡ length acc
unfolding xor_into
length-xor_into [] p = refl
length-xor_into (a ∷ acc) [] = refl
length-xor_into (a ∷ acc) (b ∷ p) = ap suc (length-xor_into acc p)

pub get_or-xor_into :
    (acc p : List ℕ) (i : ℕ)
    → length p ≤ length acc
    → get_or (xor_into acc p) i 0 ≡ bit_xor (get_or acc i 0) (get_or p i 0)
unfolding xor_into
get_or-xor_into [] [] i h = refl
get_or-xor_into [] (b ∷ p) i h = absurd (omega arith)
get_or-xor_into (a ∷ acc) [] i h = sym (bit_xor-zero (get_or (a ∷ acc) i 0))
get_or-xor_into (a ∷ acc) (b ∷ p) zero h = refl
get_or-xor_into (a ∷ acc) (b ∷ p) (suc i) h = get_or-xor_into acc p i (omega arith)

-- The XOR of byte `i` of all packets; a packet that is too short counts as 0.
abbrev pub column : ℕ → List (List ℕ) → ℕ
column i [] = 0
column i (p ∷ ps) = bit_xor (get_or p i 0) (column i ps)

-- No packet is longer than `n`.
abbrev pub AllWithin : ℕ → List (List ℕ) → Type 0
AllWithin n [] = Unit
AllWithin n (p ∷ ps) = (length p ≤ n) × AllWithin n ps

pub AllWithin-le : (ps : List (List ℕ)) (m n : ℕ) → m ≤ n → AllWithin m ps → AllWithin n ps
AllWithin-le [] m n h w = tt
AllWithin-le (p ∷ ps) m n h w = (omega arith, AllWithin-le ps m n h w.1)

pub AllWithin-max_len : (ps : List (List ℕ)) → AllWithin (max_len ps) ps
unfolding max_len
AllWithin-max_len [] = tt
AllWithin-max_len (p ∷ ps) = (
  omega arith,
  AllWithin-le ps (max_len ps) (max (length p) (max_len ps)) (omega arith) (AllWithin-max_len ps),
)

pub length-xor_all : (acc : List ℕ) (ps : List (List ℕ)) → length (xor_all acc ps) ≡ length acc
unfolding xor_all
length-xor_all acc [] = refl
length-xor_all acc (p ∷ ps) = length-xor_all (xor_into acc p) ps ∙ length-xor_into acc p

pub get_or-xor_all :
    (acc : List ℕ) (ps : List (List ℕ)) (i : ℕ)
    → AllWithin (length acc) ps
    → get_or (xor_all acc ps) i 0 ≡ bit_xor (get_or acc i 0) (column i ps)
unfolding xor_all
get_or-xor_all acc [] i w = sym (bit_xor-zero (get_or acc i 0))
get_or-xor_all acc (p ∷ ps) i w =
    get_or-xor_all (xor_into acc p) ps i (
      AllWithin-le ps (length acc) (length (xor_into acc p)) (omega (arith, length-xor_into acc p))
        w.1)
    ∙ ap (λ t. bit_xor t (column i ps)) (get_or-xor_into acc p i w.0)
    ∙ bit_xor_assoc (get_or acc i 0) (get_or p i 0) (column i ps)

pub get_or-replicate_zero : (n i : ℕ) → get_or {A = ℕ} (replicate n 0) i 0 ≡ 0
get_or-replicate_zero zero i = refl
get_or-replicate_zero (suc n) zero = refl
get_or-replicate_zero (suc n) (suc i) = get_or-replicate_zero n i

-- The packets of a list of entries.
abbrev pub bodies : List (ℕ × List ℕ) → List (List ℕ)
bodies [] = []
bodies ((i, p) ∷ es) = p ∷ bodies es

pub xor_others-bodies :
    (missing : ℕ) (acc : List ℕ) (es : List (ℕ × List ℕ))
    → contains_key missing es ≡ false
    → xor_others missing acc es ≡ xor_all acc (bodies es)
unfolding xor_others xor_all contains_key
xor_others-bodies missing acc [] h = refl
xor_others-bodies missing acc ((i, p) ∷ es) h =
    ground (arith, xor_others-bodies missing (xor_into acc p) es)
