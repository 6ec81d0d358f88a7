-- ===== src/Tracker/Gaps.antt =====
-- How many positions of a range are not in a list.
use jamjam_client.Prelude.{
  ℕ, zero, suc, ◌+◌, ◌≤◌, ◌<◌, ◌≡◌, refl, ap, false, List, ◌∷◌, arith, if◌then◌else◌,
}
use native.Mathlib.Decide.{ℕ_discrete}
use jamjam_client.Prelude.Counters.{contains, maximum, contains_above}

-- Of the `n` positions from `first` on.
abbrev pub gaps : ℕ → ℕ → List ℕ → ℕ
gaps first zero past = 0
gaps first (suc n) past = gaps first n past + (if contains past (first + n) then 0 else 1)

pub gaps_above :
    (first n p : ℕ) (past : List ℕ) → first + n ≤ p → gaps first n (p ∷ past) ≡ gaps first n past
gaps_above first zero p past h = refl
gaps_above first (suc n) p past h = ground (arith, gaps_above first n p past)

-- A position of the range that was missing, filled.
pub gaps_filled :
    (first n p : ℕ) (past : List ℕ)
    → first ≤ p
    → p < first + n
    → contains past p ≡ false
    → gaps first n past ≡ gaps first n (p ∷ past) + 1
gaps_filled first zero p past h k e = absurd (omega arith)
gaps_filled first (suc n) p past h k e = elim (ℕ_discrete p (first + n)) [
  | yes q ↦ ground (arith, gaps_above first n p past, e, ap (contains past) q)
  | no q ↦ ground (arith, gaps_filled first n p past)
]

-- Nothing above the largest of a list is in it.
pub gaps_beyond :
    (first n d : ℕ) (past : List ℕ)
    → maximum past < first + n
    → gaps first (n + d) past ≡ gaps first n past + d
gaps_beyond first n zero past h = let e : n + 0 ≡ n = omega arith in rw e (omega arith)
gaps_beyond first n (suc d) past h =
    let e : n + suc d ≡ suc (n + d) = omega arith in
    rw e (ground (arith, gaps_beyond first n d past, contains_above past (first + (n + d))))

pub gaps-le : (first n : ℕ) (past : List ℕ) → gaps first n past ≤ n
gaps-le first zero past = omega arith
gaps-le first (suc n) past = ground (arith, gaps-le first n past)
