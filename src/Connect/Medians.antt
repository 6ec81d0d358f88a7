-- ===== src/Connect/Medians.antt =====
-- A candidate that answered has a median round trip.
use jamjam_client.Prelude.{
  ℕ, zero, suc, ◌-◌, ◌/◌, ◌<◌, ◌≡◌, refl, ap, ◌∙◌, some, List, [], ◌∷◌, length, get_elem?, get_or,
  arith,
}
use jamjam_client.Connect.Types.{Probing}
use jamjam_client.Connect.Probes.{flatten, insert_sorted, sort, middle, median, reply_count}

length-insert_sorted : (x : ℕ) (xs : List ℕ) → length (insert_sorted x xs) ≡ suc (length xs)
unfolding insert_sorted
length-insert_sorted x [] = refl
length-insert_sorted x (y ∷ ys) = ground (arith, length-insert_sorted x ys)

length-sort : (xs : List ℕ) → length (sort xs) ≡ length xs
unfolding sort
length-sort [] = refl
length-sort (x ∷ xs) = length-insert_sorted x (sort xs) ∙ ap suc (length-sort xs)

in_bounds : (xs : List ℕ) (i : ℕ) → i < length xs → (x : ℕ) × (get_elem? xs i ≡ some x)
in_bounds [] i h = elim h [ ]
in_bounds (x ∷ xs) zero h = (x, refl)
in_bounds (x ∷ xs) (suc i) h = in_bounds xs i (omega arith)

has_middle : (xs : List ℕ) → 0 < length xs → (x : ℕ) × (middle xs ≡ some x)
unfolding middle
has_middle [] h = elim h [ ]
has_middle (x ∷ xs) h = in_bounds (x ∷ xs) ((length (x ∷ xs) - 1) / 2) (omega arith)

pub has_median : (p : Probing) (i : ℕ) → 0 < reply_count p i → (m : ℕ) × (median p i ≡ some m)
unfolding median reply_count
has_median p i h =
    has_middle (sort (flatten (get_or p.rtt i [])))
      (omega (arith, length-sort (flatten (get_or p.rtt i []))))
