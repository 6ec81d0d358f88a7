-- ===== src/Channels/Smallest.antt =====
-- The channel count that a device is opened with.
use jamjam_client.Prelude.{
  ℕ, ◌≤◌, ◌≡◌, refl, inl, inr, true, false, Option, none, some, List, [], ◌∷◌, arith, leb,
  if◌then◌else◌, Bool-cases,
}
use jamjam_client.Prelude.Counters.{contains}
use jamjam_client.Channels.{holding, lesser, least, smallest_channel_count}

holding-contains :
    (needed : ℕ) (counts : List ℕ) (x : ℕ)
    → contains (holding needed counts) x ≡ (if leb needed x then contains counts x else false)
holding-contains needed [] x = ground arith
holding-contains needed (y ∷ ys) x = elim (Bool-cases (leb needed y)) [
  | inl e ↦ rw e (ground (arith, holding-contains needed ys x, e))
  | inr e ↦ rw e (ground (arith, holding-contains needed ys x, e))
]

-- What a least element is: in the list, and no more than any other.
abbrev pub IsLeast : List ℕ → Option ℕ → Type 0
IsLeast xs none = (x : ℕ) → contains xs x ≡ false
IsLeast xs (some m) = (contains xs m ≡ true) × ((x : ℕ) → contains xs x ≡ true → m ≤ x)

lesser-IsLeast : (x : ℕ) (xs : List ℕ) (o : Option ℕ) → IsLeast xs o → IsLeast (x ∷ xs) (lesser x o)
lesser-IsLeast x xs none h = (ground arith, λ y e. ground (arith, h y, e))
lesser-IsLeast x xs (some m) (h, l) = (ground (arith, h), λ y e. ground (arith, l y, e))

least-IsLeast : (xs : List ℕ) → IsLeast xs (least xs)
least-IsLeast [] = λ x. refl
least-IsLeast (x ∷ xs) = lesser-IsLeast x xs (least xs) (least-IsLeast xs)

-- A count is right for a device if it is offered and holds the channels needed, and no such count is
-- less; none is right if no such count is offered.
abbrev pub IsSmallest : List ℕ → ℕ → Option ℕ → Type 0
IsSmallest offered needed none = (x : ℕ) → needed ≤ x → contains offered x ≡ false
IsSmallest offered needed (some m) =
    (contains offered m ≡ true)
    × (needed ≤ m)
    × ((x : ℕ) → contains offered x ≡ true → needed ≤ x → m ≤ x)

IsLeast-IsSmallest :
    (offered : List ℕ) (needed : ℕ) (o : Option ℕ)
    → IsLeast (holding needed offered) o
    → IsSmallest offered needed o
IsLeast-IsSmallest offered needed none h =
    λ x le. ground (arith, h x, holding-contains needed offered x)
IsLeast-IsSmallest offered needed (some m) (h, l) = (
  ground (arith, h, holding-contains needed offered m),
  ground (arith, h, holding-contains needed offered m),
  λ x e le. ground (arith, l x, holding-contains needed offered x, e),
)

-- The channel count chosen is the smallest of those offered that hold the channels needed, and there
-- is none exactly when none of them does.
pub smallest_channel_count-IsSmallest :
    (offered : List ℕ) (needed : ℕ)
    → IsSmallest offered needed (smallest_channel_count offered needed)
unfolding smallest_channel_count
smallest_channel_count-IsSmallest offered needed =
    IsLeast-IsSmallest offered needed (least (holding needed offered))
      (least-IsLeast (holding needed offered))
