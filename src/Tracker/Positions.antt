-- ===== src/Tracker/Positions.antt =====
-- A sequence number is a position in the stream, mod 2 ^ 32.
use jamjam_client.Prelude.{
  ℕ, zero, suc, ◌+◌, ◌-◌, ◌%◌, ◌^◌, ◌≤◌, ◌<◌, ◌≡◌, refl, ap, ap₂, ◌∙◌, List, [], ◌∷◌, arith, length,
}
use jamjam_client.Prelude.Int.{pos, negsuc, wrapping_diff}
use jamjam_client.Tracker.{missed}

abbrev pub seq_of : ℕ → ℕ
seq_of p = p % 2 ^ 32

pub diff_ahead :
    (p q : ℕ) → q ≤ p → p < q + 2 ^ 31 → wrapping_diff (seq_of p) (seq_of q) ≡ pos (p - q)
diff_ahead p q h k = ground arith

pub diff_behind :
    (p q : ℕ) → p < q → q < p + 2 ^ 31 → wrapping_diff (seq_of p) (seq_of q) ≡ negsuc (q - p - 1)
diff_behind p q h k = ground arith

-- The sequence numbers of the `count` positions after `p`.
abbrev pub after : ℕ → ℕ → List ℕ
after p zero = []
after p (suc count) = seq_of (p + 1) ∷ after (p + 1) count

pub missed-after : (p count : ℕ) → missed (seq_of p) count ≡ after p count
unfolding missed
missed-after p zero = refl
missed-after p (suc count) =
    let e : (seq_of p + 1) % 2 ^ 32 ≡ seq_of (p + 1) = omega arith in
    ap₂ ◌∷◌ e (ap (λ t. missed t count) e ∙ missed-after (p + 1) count)

pub length-after : (p count : ℕ) → length (after p count) ≡ count
length-after p zero = refl
length-after p (suc count) = ap suc (length-after (p + 1) count)
