-- ===== src/Bits/Pack.antt =====
-- A high and a low part that share no digit.
use native.Mathlib.Nat.{pow-suc}
use jamjam_client.Bits.Step.{bit_or_low}
use jamjam_client.Prelude.{
  ℕ, zero, suc, ◌+◌, ◌*◌, ◌/◌, ◌%◌, ◌^◌, ◌<◌, ◌≤◌, max, bit_or, ◌≡◌, refl, ◌∙◌, arith,
}

bit_or-zero : (n x : ℕ) → x ≤ n → bit_or x 0 ≡ x
bit_or-zero zero zero h = refl
bit_or-zero zero (suc x) h = absurd (omega arith)
bit_or-zero (suc n) zero h = refl
bit_or-zero (suc n) (suc x) h =
    omega (arith, bit_or_low (suc x) 0, bit_or-zero n (suc x / 2) (omega arith))

pub bit_or_parts : (n x y : ℕ) → y < 2 ^ n → bit_or (x * 2 ^ n) y ≡ x * 2 ^ n + y
bit_or_parts zero x y h =
    let e : y ≡ 0 = omega arith in rw e (bit_or-zero (x * 1) (x * 1) (omega arith) ∙ omega arith)
bit_or_parts (suc n) x y h =
    let p : 2 ^ suc n ≡ 2 ^ n * 2 = omega (arith, pow-suc 2 n) in
    let e : x * (2 ^ n * 2) ≡ x * 2 ^ n * 2 = grind arith in
    let half : x * 2 ^ n * 2 / 2 ≡ x * 2 ^ n = omega arith in
    let low : bit_or (x * 2 ^ n * 2) y
        ≡ bit_or (x * 2 ^ n * 2 / 2) (y / 2) * 2 + max (x * 2 ^ n * 2 % 2) (y % 2) =
      bit_or_low (x * 2 ^ n * 2) y in
    rw (p, e) (low ∙ rw half (omega (arith, bit_or_parts n x (y / 2) (omega arith))))
