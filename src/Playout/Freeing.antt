-- ===== src/Playout/Freeing.antt =====
-- Freeing the slot of a frame takes that frame away, and no other.
use jamjam_client.Prelude.{
  ℕ, zero, suc, ◌+◌, ◌%◌, ◌<◌, ◌≡◌, refl, sym, ap, ◌∙◌, inl, inr, true, Bool, false, not, ◌&&◌,
  ◌==◌, length, get_elem?-set_self, ◌≢◌, get_elem?-set_ne, Option, none, some, List, [], ◌∷◌, arith,
  unwrap_or, Bool-cases, get_elem?, set,
}
use jamjam_client.Playout.Types.{Slot}
use jamjam_client.Playout.Ring.{holds, occupied, count_ready, slot_sequence_none}

holds-occupied :
    {A : Type 0} (o : Option ℕ) (samples : List A) (sequence : ℕ)
    → holds (some (record { sequence = o; samples = samples })) sequence ≡ true
    → occupied (record { sequence = o; samples = samples }) ≡ true
holds-occupied (some s) samples sequence h = refl
holds-occupied none samples sequence h = h

-- Freeing a slot that holds a frame takes one off the count.
pub count_ready-set :
    {A : Type 0} (slots : List (Slot A)) (i : ℕ) (slot : Slot A) (sequence : ℕ)
    → get_elem? slots i ≡ some slot
    → holds (some slot) sequence ≡ true
    → count_ready (set slots i (slot_sequence_none slot)) + 1 ≡ count_ready slots
count_ready-set [] i slot sequence e h = absurd (ground (arith, e))
count_ready-set (x ∷ xs) zero slot sequence e h =
    let taken : occupied slot ≡ true = holds-occupied slot.sequence slot.samples sequence h in
    let same : x ≡ slot = ap (λ o. unwrap_or o x) e in rw (same, taken) (omega arith)
count_ready-set (x ∷ xs) (suc i) slot sequence e h =
    ground (arith, count_ready-set xs i slot sequence e h)

in_range : {A : Type 0} (xs : List A) (i : ℕ) {x : A} → get_elem? xs i ≡ some x → i < length xs
in_range [] i e = absurd (ground (arith, e))
in_range (x ∷ xs) zero e = omega arith
in_range (x ∷ xs) (suc i) e = omega (arith, in_range xs i e)

pub and_true : (b : Bool) → b ≡ (b && true)
and_true true = refl
and_true false = refl

keeps_other : (b : Bool) (s q n : ℕ) → s % n ≢ q % n → b ≡ (b && not (q == s))
keeps_other b s q n apart = elim (Bool-cases (q == s)) [
  | inl same ↦ let p : s ≡ q = ground (arith, same) in absurd (apart (ap (λ (k : ℕ). k % n) p))
  | inr other ↦ rw other (and_true b)
]

only_in_turn :
    {A : Type 0} (o : Option ℕ) (samples : List A) (s q : ℕ)
    → holds (some (record { sequence = o; samples = samples })) s ≡ true
    → (holds (some (record { sequence = o; samples = samples })) q && not (q == s)) ≡ false
only_in_turn none samples s q h = refl
only_in_turn (some t) samples s q h = ground (arith, h)

-- Freeing the slot that holds `s` takes that frame away, and no other.
pub freed_holds :
    {A : Type 0} (slots : List (Slot A)) (s q : ℕ) (slot : Slot A)
    → get_elem? slots (s % length slots) ≡ some slot
    → holds (some slot) s ≡ true
    → holds
        (get_elem? (set slots (s % length slots) (slot_sequence_none slot)) (q % length slots))
        q
      ≡ (holds (get_elem? slots (q % length slots)) q && not (q == s))
freed_holds {A = A} slots s q slot e h =
    let i = s % length slots in
    let j = q % length slots in
    let free : Slot A = slot_sequence_none slot in
    elim (Bool-cases (j == i)) [
      | inl same ↦
          let p : j ≡ i = ground (arith, same) in
          ap (λ (k : ℕ). holds (get_elem? (set slots i free) k) q) p
          ∙ ap (λ (o : Option (Slot A)). holds o q)
              (get_elem?-set_self slots i free (in_range slots i e))
          ∙ sym (
              ap (λ (k : ℕ). holds (get_elem? slots k) q && not (q == s)) p
              ∙ ap (λ (o : Option (Slot A)). holds o q && not (q == s)) e
              ∙ only_in_turn slot.sequence slot.samples s q h)
      | inr other ↦
          let apart : i ≢ j = λ p. absurd (ground (arith, other, p)) in
          ap (λ (o : Option (Slot A)). holds o q) (get_elem?-set_ne slots free apart)
          ∙ keeps_other (holds (get_elem? slots j) q) s q (length slots) apart
    ]
