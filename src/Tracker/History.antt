-- ===== src/Tracker/History.antt =====
-- The tracker against the list of all positions that arrived in time.
use native.Mathlib.Nat.{one-le-pow}
use native.Mathlib.Decide.{dec_lt}
use jamjam_client.Bits.{
  digit, digit-le, digit-zero, digit-bit_or, digit-two_pow, digit-mod, digit-shift, bit_and-two_pow,
}
use jamjam_client.Prelude.{
  ℕ, ◌+◌, ◌-◌, ◌*◌, ◌%◌, ◌^◌, ◌≤◌, ◌<◌, bit_and, bit_or, ◌≡◌, ap, ◌⊎◌, true, false, ◌||◌, some,
  List, ◌∷◌, arith, ltb, leb, ◌==◌, if◌then◌else◌, lt→ltb,
}
use jamjam_client.Prelude.Counters.{contains, maximum}
use jamjam_client.Tracker.{SequenceTracker, shift_in}
use jamjam_client.Tracker.Positions.{seq_of}
use jamjam_client.Tracker.Gaps.{gaps}

-- Digits of the bitmap: the test, the mark, and the shift.
pub test_digit : (n x : ℕ) → (bit_and x (2 ^ n) == 0) ≡ (digit n x == 0)
test_digit n x =
    rw (bit_and-two_pow n x)
      (ground (arith, digit-le n x, one-le-pow n 2 (omega arith), ap (λ (d : ℕ). d * 2 ^ n)))

pub mark_digit : (n k x : ℕ) → digit n (bit_or x (2 ^ k)) ≡ (if n == k then 1 else digit n x)
mark_digit n k x = rw (digit-bit_or n x (2 ^ k), digit-two_pow n k) (ground (arith, digit-le n x))

pub shift_digit :
    (n d x : ℕ)
    → n < 64
    → 1 ≤ d
    → digit n (shift_in x d) ≡ (if n == 0 then 1 else if ltb n d then 0 else digit (n - d) x)
shift_digit n d x h p = elim (dec_lt d 64) [
  | yes q ↦
      rw
        (
          lt→ltb d 64 q,
          digit-bit_or n (x * 2 ^ d % 2 ^ 64) 1,
          digit-two_pow n 0,
          digit-mod n 64 (x * 2 ^ d),
          digit-shift n d x,
        )
        (ground (arith, digit-le (n - d) x))
  | no q ↦ ground (arith, digit-bit_or n 0 1, digit-two_pow n 0, digit-zero n)
]

-- `t` is what the code keeps of a stream that began at position `first`, when `past` are the
-- positions that arrived in time.
pub record Tracks (t : SequenceTracker) (first : ℕ) (past : List ℕ) : Type 0 where
  pub begun : (s : ℕ) × (t.last_sequence ≡ some s)
  pub width : t.window_size ≡ 64
  pub top : t.highest_sequence ≡ seq_of (maximum past)
  pub highest : contains past (maximum past) ≡ true
  pub since : first ≤ maximum past
  pub marks :
      (n : ℕ)
      → n < 64
      → n ≤ maximum past
      → digit n t.received_bitmap ≡ (if contains past (maximum past - n) then 1 else 0)
  pub lost : t.packets_lost ≡ gaps first (maximum past - first + 1) past

-- The positions that arrived in time once `p` has arrived: not again, and not 64 behind or more.
abbrev pub noted : List ℕ → ℕ → List ℕ
noted past p = if contains past p || leb (p + 64) (maximum past) then past else p ∷ past

pub noted_past :
    (past : List ℕ) (p : ℕ)
    → (contains past p ≡ true) ⊎ (p + 64 ≤ maximum past)
    → noted past p ≡ past
noted_past past p h = ground (arith, h)

pub noted_new :
    (past : List ℕ) (p : ℕ)
    → contains past p ≡ false
    → maximum past < p + 64
    → noted past p ≡ p ∷ past
noted_new past p e h = ground (arith, e)
