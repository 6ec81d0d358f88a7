-- ===== src/Prelude/Counters.antt =====
-- Lists of numbers as sets: membership as a test, and the largest element.
use jamjam_client.Prelude.Tests.{◌==◌}
use Prim.Native.Nat.{ℕ, ◌<◌, max}
use mathlib.Core.Path.{◌≡◌, refl}
use mathlib.Core.Bool.{Bool, true, false, ◌||◌}
use mathlib.Core.List.{List, [], ◌∷◌}
use native.Mathlib.Omega.{arith}

abbrev pub contains : List ℕ → ℕ → Bool
contains [] c = false
contains (x ∷ xs) c = (x == c) || contains xs c

abbrev pub is_empty {ℓ} : {A : Type ℓ} → List A → Bool
is_empty [] = true
is_empty (x ∷ xs) = false

abbrev pub maximum : List ℕ → ℕ
maximum [] = 0
maximum (x ∷ xs) = max x (maximum xs)

pub contains_above : (xs : List ℕ) (c : ℕ) → maximum xs < c → contains xs c ≡ false
contains_above [] c h = refl
contains_above (x ∷ xs) c h = ground (arith, contains_above xs c)

pub contains-maximum : (x : ℕ) (xs : List ℕ) → contains (x ∷ xs) (maximum (x ∷ xs)) ≡ true
contains-maximum x [] = ground arith
contains-maximum x (y ∷ ys) = ground (arith, contains-maximum y ys)
