-- ===== src/Prelude/Bytes.antt =====
-- Rust's `to_be_bytes` and `from_be_bytes`, at two, four and eight bytes.
use jamjam_client.Prelude.Lists.{length, get_or}
use Prim.Native.Nat.{ℕ, ◌+◌, ◌*◌, ◌/◌, ◌%◌, ◌^◌, ◌<◌}
use mathlib.Core.Path.{◌≡◌}
use mathlib.Core.List.{List, [], ◌∷◌, ◌++◌}
use native.Mathlib.Omega.{arith}

abbrev pub be16 : ℕ → List ℕ
be16 x = (x / 2 ^ 8 % 2 ^ 8) ∷ (x % 2 ^ 8) ∷ []

abbrev pub from_be16 : ℕ → ℕ → ℕ
from_be16 a b = a * 2 ^ 8 + b

abbrev pub be32 : ℕ → List ℕ
be32 x = (x / 2 ^ 24 % 2 ^ 8) ∷ (x / 2 ^ 16 % 2 ^ 8) ∷ (x / 2 ^ 8 % 2 ^ 8) ∷ (x % 2 ^ 8) ∷ []

abbrev pub from_be32 : ℕ → ℕ → ℕ → ℕ → ℕ
from_be32 a b c d = a * 2 ^ 24 + b * 2 ^ 16 + c * 2 ^ 8 + d

abbrev pub be64 : ℕ → List ℕ
be64 x = be32 (x / 2 ^ 32) ++ be32 (x % 2 ^ 32)

abbrev pub from_be64 : ℕ → ℕ → ℕ → ℕ → ℕ → ℕ → ℕ → ℕ → ℕ
from_be64 a b c d e f g h = from_be32 a b c d * 2 ^ 32 + from_be32 e f g h

pub from_be16-be16 : (x : ℕ) → x < 2 ^ 16 → from_be16 (x / 2 ^ 8 % 2 ^ 8) (x % 2 ^ 8) ≡ x
from_be16-be16 x h = omega arith

pub from_be32-be32 :
    (x : ℕ)
    → x < 2 ^ 32
    → from_be32 (x / 2 ^ 24 % 2 ^ 8) (x / 2 ^ 16 % 2 ^ 8) (x / 2 ^ 8 % 2 ^ 8) (x % 2 ^ 8) ≡ x
from_be32-be32 x h = omega arith

abbrev pub AllBytes : List ℕ → Type 0
AllBytes [] = Unit
AllBytes (b ∷ bs) = (b < 256) × AllBytes bs

pub five_bytes :
    (bs : List ℕ)
    → AllBytes bs
    → length bs ≡ 5
    → bs
      ≡ get_or bs 0 0
        ∷ be32 (from_be32 (get_or bs 1 0) (get_or bs 2 0) (get_or bs 3 0) (get_or bs 4 0))
five_bytes (k ∷ a ∷ b ∷ c ∷ d ∷ []) h e = ground arith
five_bytes _ h e = absurd (omega arith)
