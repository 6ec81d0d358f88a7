-- ===== src/Prelude/Members.antt =====
-- Membership in a list, with the place kept, and the lists that a test or a function gives.
use Prim.Native.Nat.{ℕ, zero, suc, ◌+◌, ◌≤◌, ◌<◌, min, max}
use mathlib.Core.Path.{◌≡◌, refl, subst}
use mathlib.Core.Logic.{◌⊎◌, inl, inr}
use mathlib.Core.Bool.{Bool, true, false}
use mathlib.Core.Option.{Option, none, some}
use mathlib.Core.List.{List, [], ◌∷◌, ◌++◌, map}
use native.Mathlib.Omega.{arith}

pub data OneOf {ℓ} {A : Type ℓ} (a : A) : List A → Type ℓ where
  first : {xs : List A} → OneOf a (a ∷ xs)
  later : {x : A} {xs : List A} → OneOf a xs → OneOf a (x ∷ xs)

abbrev cons_some : Option ℕ → List ℕ → List ℕ
cons_some none ys = ys
cons_some (some y) ys = y ∷ ys

later_some : (o : Option ℕ) {y : ℕ} {ys : List ℕ} → OneOf y ys → OneOf y (cons_some o ys)
later_some none m = m
later_some (some z) m = later m

-- `filter` and `filter_map`.
module _ {ℓ} {A : Type ℓ} where
  abbrev cons_if : Bool → A → List A → List A
  cons_if true x xs = x ∷ xs
  cons_if false x xs = xs

  unfoldable pub keep : (A → Bool) → List A → List A
  keep f [] = []
  keep f (x ∷ xs) = cons_if (f x) x (keep f xs)

  kept :
      (f : A → Bool) (b : Bool) {a x : A} {ys xs : List A}
      → f x ≡ b
      → (OneOf a ys → OneOf a xs × (f a ≡ true))
      → OneOf a (cons_if b x ys)
      → OneOf a (x ∷ xs) × (f a ≡ true)
  kept f true e k first = (first, e)
  kept f true e k (later m) = let rest = k m in (later rest.0, rest.1)
  kept f false e k m = let rest = k m in (later rest.0, rest.1)

  pub keep-OneOf :
      (f : A → Bool) {a : A} (xs : List A) → OneOf a (keep f xs) → OneOf a xs × (f a ≡ true)
  unfolding keep
  keep-OneOf f [] m = elim m [ ]
  keep-OneOf f (x ∷ xs) m = kept f (f x) refl (keep-OneOf f xs) m

  later_if : (b : Bool) (x : A) {a : A} {ys : List A} → OneOf a ys → OneOf a (cons_if b x ys)
  later_if true x m = later m
  later_if false x m = m

  pub OneOf-keep :
      (f : A → Bool) {a : A} {xs : List A} → f a ≡ true → OneOf a xs → OneOf a (keep f xs)
  unfolding keep
  OneOf-keep f e first = rw e first
  OneOf-keep f e (later {x} m) = later_if (f x) x (OneOf-keep f e m)

  unfoldable pub filter_map : (A → Option ℕ) → List A → List ℕ
  filter_map f [] = []
  filter_map f (x ∷ xs) = cons_some (f x) (filter_map f xs)

  mapped :
      (f : A → Option ℕ) (o : Option ℕ) {y : ℕ} {x : A} {ys : List ℕ} {xs : List A}
      → f x ≡ o
      → (OneOf y ys → (a : A) × OneOf a xs × (f a ≡ some y))
      → OneOf y (cons_some o ys)
      → (a : A) × OneOf a (x ∷ xs) × (f a ≡ some y)
  mapped f none e k m = let rest = k m in (rest.0, later rest.1, rest.2)
  mapped f (some z) {x} e k first = (x, first, e)
  mapped f (some z) e k (later m) = let rest = k m in (rest.0, later rest.1, rest.2)

  pub filter_map-OneOf :
      (f : A → Option ℕ) {y : ℕ} (xs : List A)
      → OneOf y (filter_map f xs)
      → (a : A) × OneOf a xs × (f a ≡ some y)
  unfolding filter_map
  filter_map-OneOf f [] m = elim m [ ]
  filter_map-OneOf f (x ∷ xs) m = mapped f (f x) refl (filter_map-OneOf f xs) m

  pub OneOf-filter_map :
      (f : A → Option ℕ) {a : A} {y : ℕ} {xs : List A}
      → f a ≡ some y
      → OneOf a xs
      → OneOf y (filter_map f xs)
  unfolding filter_map
  OneOf-filter_map f e first = rw e first
  OneOf-filter_map f e (later {x} m) = later_some (f x) (OneOf-filter_map f e m)

-- `Iterator::min` and `Iterator::max` of numbers.
unfoldable pub min_of : ℕ → List ℕ → ℕ
min_of x [] = x
min_of x (y ∷ ys) = min x (min_of y ys)

abbrev pub minimum? : List ℕ → Option ℕ
minimum? [] = none
minimum? (x ∷ xs) = some (min_of x xs)

unfoldable pub max_of : ℕ → List ℕ → ℕ
max_of x [] = x
max_of x (y ∷ ys) = max x (max_of y ys)

abbrev pub maximum? : List ℕ → Option ℕ
maximum? [] = none
maximum? (x ∷ xs) = some (max_of x xs)

-- The numbers below `n`, from `k` on.
unfoldable pub range_from : ℕ → ℕ → List ℕ
range_from k zero = []
range_from k (suc n) = k ∷ range_from (suc k) n

pub range_from-OneOf : (k n : ℕ) {i : ℕ} → OneOf i (range_from k n) → (k ≤ i) × (i < k + n)
unfolding range_from
range_from-OneOf k zero m = elim m [ ]
range_from-OneOf k (suc n) first = omega arith
range_from-OneOf k (suc n) (later m) = omega (arith, range_from-OneOf (suc k) n m)

pub OneOf-range_from : (k n d : ℕ) → d < n → OneOf (k + d) (range_from k n)
unfolding range_from
OneOf-range_from k zero d h = absurd (omega arith)
OneOf-range_from k (suc n) zero h = let e : k + 0 ≡ k = omega arith in rw e first
OneOf-range_from k (suc n) (suc d) h =
    let e : k + suc d ≡ suc k + d = omega arith in
    rw e (later (OneOf-range_from (suc k) n d (omega arith)))

one_of_two : (m x y : ℕ) {xs : List ℕ} → (m ≡ x) ⊎ (m ≡ y) → OneOf y xs → OneOf m (x ∷ xs)
one_of_two m x y (inl e) h = rw e first
one_of_two m x y (inr e) h = later (rw e h)

min_of-OneOf : (x : ℕ) (xs : List ℕ) → OneOf (min_of x xs) (x ∷ xs)
unfolding min_of
min_of-OneOf x [] = first
min_of-OneOf x (y ∷ ys) =
    one_of_two (min x (min_of y ys)) x (min_of y ys) (ground arith) (min_of-OneOf y ys)

max_of-OneOf : (x : ℕ) (xs : List ℕ) → OneOf (max_of x xs) (x ∷ xs)
unfolding max_of
max_of-OneOf x [] = first
max_of-OneOf x (y ∷ ys) =
    one_of_two (max x (max_of y ys)) x (max_of y ys) (ground arith) (max_of-OneOf y ys)

min_of-le : (x : ℕ) (xs : List ℕ) (y : ℕ) → OneOf y (x ∷ xs) → min_of x xs ≤ y
unfolding min_of
min_of-le x [] y first = omega arith
min_of-le x [] y (later m) = elim m [ ]
min_of-le x (z ∷ zs) y first = omega arith
min_of-le x (z ∷ zs) y (later m) = omega (arith, min_of-le z zs y m)

le-max_of : (x : ℕ) (xs : List ℕ) (y : ℕ) → OneOf y (x ∷ xs) → y ≤ max_of x xs
unfolding max_of
le-max_of x [] y first = omega arith
le-max_of x [] y (later m) = elim m [ ]
le-max_of x (z ∷ zs) y first = omega arith
le-max_of x (z ∷ zs) y (later m) = omega (arith, le-max_of z zs y m)

-- What is found is in the list, and bounds it; nothing is found only in an empty list.
pub minimum?-OneOf : (xs : List ℕ) (m : ℕ) → minimum? xs ≡ some m → OneOf m xs
minimum?-OneOf [] m e = cc
minimum?-OneOf (x ∷ xs) m e =
    let same : min_of x xs ≡ m = cc in subst (λ k. OneOf k (x ∷ xs)) same (min_of-OneOf x xs)

pub minimum?-le : (xs : List ℕ) (m y : ℕ) → minimum? xs ≡ some m → OneOf y xs → m ≤ y
minimum?-le [] m y e h = cc
minimum?-le (x ∷ xs) m y e h = ground (arith, min_of-le x xs y h)

pub minimum?-none : (xs : List ℕ) (y : ℕ) → minimum? xs ≡ none → ¬ OneOf y xs
minimum?-none [] y e m = elim m [ ]
minimum?-none (x ∷ xs) y e m = cc

pub maximum?-OneOf : (xs : List ℕ) (m : ℕ) → maximum? xs ≡ some m → OneOf m xs
maximum?-OneOf [] m e = cc
maximum?-OneOf (x ∷ xs) m e =
    let same : max_of x xs ≡ m = cc in subst (λ k. OneOf k (x ∷ xs)) same (max_of-OneOf x xs)

pub le-maximum? : (xs : List ℕ) (m y : ℕ) → maximum? xs ≡ some m → OneOf y xs → y ≤ m
le-maximum? [] m y e h = cc
le-maximum? (x ∷ xs) m y e h = ground (arith, le-max_of x xs y h)

pub maximum?-none : (xs : List ℕ) (y : ℕ) → maximum? xs ≡ none → ¬ OneOf y xs
maximum?-none [] y e m = elim m [ ]
maximum?-none (x ∷ xs) y e m = cc

-- A property of every element.
abbrev pub AllOf {ℓ κ} : {A : Type ℓ} → (A → Type κ) → List A → Type κ
AllOf P [] = Unit
AllOf P (x ∷ xs) = P x × AllOf P xs

pub all_of {ℓ κ} :
    {A : Type ℓ} (P : A → Type κ) (xs : List A) → ((x : A) → OneOf x xs → P x) → AllOf P xs
all_of P [] h = tt
all_of P (x ∷ xs) h = (h x first, all_of P xs (λ y m. h y (later m)))

pub AllOf-OneOf {ℓ κ} :
    {A : Type ℓ} (P : A → Type κ) {x : A} {xs : List A} → AllOf P xs → OneOf x xs → P x
AllOf-OneOf P h first = h.0
AllOf-OneOf P h (later m) = AllOf-OneOf P h.1 m

pub OneOf_before {ℓ} :
    {A : Type ℓ} {x : A} {xs : List A} (ys : List A) → OneOf x xs → OneOf x (xs ++ ys)
OneOf_before ys first = first
OneOf_before ys (later m) = later (OneOf_before ys m)

pub OneOf_after {ℓ} :
    {A : Type ℓ} {x : A} (xs : List A) {ys : List A} → OneOf x ys → OneOf x (xs ++ ys)
OneOf_after [] m = m
OneOf_after (y ∷ xs) m = later (OneOf_after xs m)

pub OneOf-append {ℓ} :
    {A : Type ℓ} {x : A} (xs ys : List A) → OneOf x (xs ++ ys) → OneOf x xs ⊎ OneOf x ys
OneOf-append [] ys m = inr m
OneOf-append (z ∷ zs) ys first = inl first
OneOf-append (z ∷ zs) ys (later m) = elim (OneOf-append zs ys m) [
  | inl l ↦ inl (later l)
  | inr r ↦ inr r
]

pub map-OneOf {ℓ κ} :
    {A : Type ℓ} {B : Type κ} (f : A → B) {y : B} (xs : List A)
    → OneOf y (map f xs)
    → (x : A) × OneOf x xs × (f x ≡ y)
map-OneOf f [] m = elim m [ ]
map-OneOf f (x ∷ xs) first = (x, first, refl)
map-OneOf f (x ∷ xs) (later m) = let rest = map-OneOf f xs m in (rest.0, later rest.1, rest.2)

pub OneOf-map {ℓ κ} :
    {A : Type ℓ} {B : Type κ} (f : A → B) {x : A} {xs : List A}
    → OneOf x xs
    → OneOf (f x) (map f xs)
OneOf-map f first = first
OneOf-map f (later m) = later (OneOf-map f m)
