-- ===== src/Bits/Digit.antt =====
-- Digit `n` of a number, and of the results of the operations on digits.
use native.Mathlib.Nat.{
  pow-suc, one-le-pow, div-add-mod, mod-one, mul-one, add-mul-mod_self_left, mod-eq_of_lt, mod-lt,
}
use jamjam_client.Bits.Step.{bit_and_low, bit_or_low}
use jamjam_client.Prelude.{
  ℕ, zero, suc, ◌+◌, ◌-◌, ◌*◌, ◌/◌, ◌%◌, ◌^◌, ◌≤◌, min, max, bit_and, bit_or, ◌≡◌, refl, ap, arith,
  ltb, lt→ltb, ◌==◌, if◌then◌else◌,
}

abbrev pub digit : ℕ → ℕ → ℕ
digit zero x = x % 2
digit (suc n) x = digit n (x / 2)

pub digit-le : (n x : ℕ) → digit n x ≤ 1
digit-le zero x = omega arith
digit-le (suc n) x = digit-le n (x / 2)

pub digit-bit_or : (n x y : ℕ) → digit n (bit_or x y) ≡ max (digit n x) (digit n y)
digit-bit_or zero x y = omega (arith, bit_or_low x y)
digit-bit_or (suc n) x y =
    let e : bit_or x y / 2 ≡ bit_or (x / 2) (y / 2) = omega (arith, bit_or_low x y) in
    rw e (digit-bit_or n (x / 2) (y / 2))

pub digit-zero : (n : ℕ) → digit n 0 ≡ 0
digit-zero zero = refl
digit-zero (suc n) = digit-zero n

double-half : (q : ℕ) → 2 * q / 2 ≡ q
double-half q = omega arith

pub digit-two_pow : (n m : ℕ) → digit n (2 ^ m) ≡ (if n == m then 1 else 0)
digit-two_pow zero zero = refl
digit-two_pow zero (suc m) = ground (arith, pow-suc 2 m)
digit-two_pow (suc n) zero = ground (arith, digit-zero n)
digit-two_pow (suc n) (suc m) =
    rw (pow-suc 2 m) (ground (arith, double-half (2 ^ m), digit-two_pow n m))

-- `x & (1 << n) == 0` asks for digit `n`.
bit_and-zero : (n x : ℕ) → x ≤ n → bit_and x 0 ≡ 0
bit_and-zero zero zero h = refl
bit_and-zero zero (suc x) h = absurd (omega arith)
bit_and-zero (suc n) zero h = refl
bit_and-zero (suc n) (suc x) h =
    omega (arith, bit_and_low (suc x) 0, bit_and-zero n (suc x / 2) (omega arith))

pub bit_and-two_pow : (n x : ℕ) → bit_and x (2 ^ n) ≡ digit n x * 2 ^ n
bit_and-two_pow zero x = omega (arith, bit_and_low x 1, bit_and-zero (x / 2) (x / 2) (omega arith))
bit_and-two_pow (suc n) x =
    let e : 2 ^ suc n / 2 ≡ 2 ^ n = omega (arith, pow-suc 2 n) in
    let low : bit_and x (2 ^ suc n) ≡ bit_and (x / 2) (2 ^ n) * 2 + min (x % 2) (2 ^ suc n % 2) =
      rw (← e) (bit_and_low x (2 ^ suc n)) in
    omega (
      arith,
      low,
      pow-suc 2 n,
      bit_and-two_pow n (x / 2),
      ap (λ (t : ℕ). digit n (x / 2) * t) (pow-suc 2 n),
    )

halves : (k x : ℕ) → 1 ≤ k → x % (k * 2) / 2 ≡ x / 2 % k
halves k x h = grind (
  arith,
  div-add-mod x (k * 2),
  add-mul-mod_self_left (x % (k * 2) / 2) k (x / (k * 2)),
  mod-eq_of_lt {n = x % (k * 2) / 2} {m = k},
  mod-lt x {m = k * 2},
)

-- `x << d`, cut to `w` digits.
mod-half : (w x : ℕ) → x % 2 ^ suc w / 2 ≡ x / 2 % 2 ^ w
mod-half w x = rw (pow-suc 2 w) (halves (2 ^ w) x (one-le-pow w 2 (omega arith)))

pub digit-mod : (n w x : ℕ) → digit n (x % 2 ^ w) ≡ (if ltb n w then digit n x else 0)
digit-mod n zero x = rw (mod-one x) (ground (arith, digit-zero n))
digit-mod zero (suc w) x =
    ground (arith, halves (2 ^ w) x (one-le-pow w 2 (omega arith)), pow-suc 2 w)
digit-mod (suc n) (suc w) x = rw (mod-half w x) (ground (arith, digit-mod n w (x / 2)))

pub digit-shift : (n d x : ℕ) → digit n (x * 2 ^ d) ≡ (if ltb n d then 0 else digit (n - d) x)
digit-shift n zero x = ground (arith, mul-one x)
digit-shift zero (suc d) x = rw (lt→ltb 0 (suc d) (omega arith), pow-suc 2 d) (omega arith)
digit-shift (suc n) (suc d) x =
    let e : x * 2 ^ suc d / 2 ≡ x * 2 ^ d = rw (pow-suc 2 d) (omega arith) in
    rw e (ground (arith, digit-shift n d x))
