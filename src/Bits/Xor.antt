-- ===== src/Bits/Xor.antt =====
-- `^` is commutative, associative and its own inverse.
use Prim.Native.Nat.{differ, bit_xor-bitwise}
use native.Mathlib.Nat.{pow-suc}
use jamjam_client.Bits.Step.{bit_xor_low}
use jamjam_client.Prelude.{
  ℕ, zero, suc, ◌+◌, ◌*◌, ◌/◌, ◌%◌, ◌≤◌, ◌<◌, ◌^◌, bit_xor, ◌≡◌, refl, sym, ◌∙◌, ap, ap₂, arith,
}

differ_comm : (a b : ℕ) → differ a b ≡ differ b a
differ_comm zero zero = refl
differ_comm zero (suc b) = refl
differ_comm (suc a) zero = refl
differ_comm (suc a) (suc b) = differ_comm a b

differ_self : (a : ℕ) → differ a a ≡ 0
differ_self zero = refl
differ_self (suc a) = differ_self a

differ-le : (a b : ℕ) → a ≤ 1 → b ≤ 1 → differ a b ≤ 1
differ-le zero b h k = k
differ-le (suc a) zero h k = h
differ-le (suc a) (suc b) h k = differ-le a b (omega arith) (omega arith)

differ_assoc : (a b c : ℕ) → a ≤ 1 → b ≤ 1 → c ≤ 1 → differ (differ a b) c ≡ differ a (differ b c)
differ_assoc zero b c h k l = refl
differ_assoc (suc zero) zero c h k l = refl
differ_assoc (suc zero) (suc zero) zero h k l = refl
differ_assoc (suc zero) (suc zero) (suc zero) h k l = refl
differ_assoc (suc zero) (suc zero) (suc (suc c)) h k l = absurd (omega arith)
differ_assoc (suc zero) (suc (suc b)) c h k l = absurd (omega arith)
differ_assoc (suc (suc a)) b c h k l = absurd (omega arith)

xor_half : (x y : ℕ) → bit_xor x y / 2 ≡ bit_xor (x / 2) (y / 2)
xor_half x y = omega (arith, bit_xor_low x y, differ-le (x % 2) (y % 2) (omega arith) (omega arith))

xor_parity : (x y : ℕ) → bit_xor x y % 2 ≡ differ (x % 2) (y % 2)
xor_parity x y =
    omega (arith, bit_xor_low x y, differ-le (x % 2) (y % 2) (omega arith) (omega arith))

comm_below : (n x y : ℕ) → x ≤ n → y ≤ n → bit_xor x y ≡ bit_xor y x
comm_below zero zero zero h k = refl
comm_below zero zero (suc y) h k = absurd (omega arith)
comm_below zero (suc x) y h k = absurd (omega arith)
comm_below (suc n) x y h k = omega (
  arith,
  bit_xor_low x y,
  bit_xor_low y x,
  differ_comm (x % 2) (y % 2),
  comm_below n (x / 2) (y / 2) (omega arith) (omega arith),
)

self_below : (n x : ℕ) → x ≤ n → bit_xor x x ≡ 0
self_below zero zero h = refl
self_below zero (suc x) h = absurd (omega arith)
self_below (suc n) x h =
    omega (arith, bit_xor_low x x, differ_self (x % 2), self_below n (x / 2) (omega arith))

assoc_below :
    (n x y z : ℕ) → x ≤ n → y ≤ n → z ≤ n → bit_xor (bit_xor x y) z ≡ bit_xor x (bit_xor y z)
assoc_below zero zero zero zero h k l = refl
assoc_below zero zero zero (suc z) h k l = absurd (omega arith)
assoc_below zero zero (suc y) z h k l = absurd (omega arith)
assoc_below zero (suc x) y z h k l = absurd (omega arith)
assoc_below (suc n) x y z h k l =
    bit_xor_low (bit_xor x y) z
    ∙ ap₂ (λ a b. a * 2 + b) (ap (λ t. bit_xor t (z / 2)) (xor_half x y))
        (ap (λ t. differ t (z % 2)) (xor_parity x y))
    ∙ ap₂ (λ a b. a * 2 + b)
        (assoc_below n (x / 2) (y / 2) (z / 2) (omega arith) (omega arith) (omega arith))
        (differ_assoc (x % 2) (y % 2) (z % 2) (omega arith) (omega arith) (omega arith))
    ∙ ap₂ (λ a b. a * 2 + b) (ap (bit_xor (x / 2)) (sym (xor_half y z)))
        (ap (differ (x % 2)) (sym (xor_parity y z)))
    ∙ sym (bit_xor_low x (bit_xor y z))

pub bit_xor_comm : (x y : ℕ) → bit_xor x y ≡ bit_xor y x
bit_xor_comm x y = comm_below (x + y) x y (omega arith) (omega arith)

pub bit_xor_self : (x : ℕ) → bit_xor x x ≡ 0
bit_xor_self x = self_below x x (omega arith)

pub bit_xor_assoc : (x y z : ℕ) → bit_xor (bit_xor x y) z ≡ bit_xor x (bit_xor y z)
bit_xor_assoc x y z = assoc_below (x + y + z) x y z (omega arith) (omega arith) (omega arith)

pub bit_xor-zero : (x : ℕ) → bit_xor x 0 ≡ x
bit_xor-zero x = bit_xor_comm x 0 ∙ bit_xor-bitwise 0 x

pub bit_xor-lt : (n x y : ℕ) → x < 2 ^ n → y < 2 ^ n → bit_xor x y < 2 ^ n
bit_xor-lt zero zero zero h k = h
bit_xor-lt zero zero (suc y) h k = absurd (omega arith)
bit_xor-lt zero (suc x) y h k = absurd (omega arith)
bit_xor-lt (suc n) x y h k = omega (
  arith,
  pow-suc 2 n,
  bit_xor_low x y,
  differ-le (x % 2) (y % 2) (omega arith) (omega arith),
  bit_xor-lt n (x / 2) (y / 2) (omega (arith, pow-suc 2 n)) (omega (arith, pow-suc 2 n)),
)

pub bit_xor_twice : (x y : ℕ) → bit_xor (bit_xor x y) y ≡ x
bit_xor_twice x y = bit_xor_assoc x y y ∙ ap (bit_xor x) (bit_xor_self y) ∙ bit_xor-zero x
