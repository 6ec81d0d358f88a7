-- ===== src/Link/Replay/History.antt =====
-- The window against the list of all counters that were accepted.
use jamjam_client.Bits.{
  digit, digit-le, digit-zero, digit-bit_or, digit-two_pow, digit-mod, digit-shift, bit_and-two_pow,
}
use native.Mathlib.Nat.{mod-eq_of_lt, one-le-pow}
use native.Mathlib.Decide.{dec_lt}
use jamjam_client.Prelude.{
  ℕ, ◌+◌, ◌-◌, ◌*◌, ◌^◌, ◌≤◌, ◌<◌, bit_and, bit_or, ◌≡◌, refl, ap, inl, inr, Bool, true, false, not,
  ◌&&◌, ◌||◌, List, [], ◌∷◌, arith, ltb, leb, ◌==◌, if◌then◌else◌, Bool-cases,
}
use jamjam_client.Prelude.Counters.{contains, is_empty, maximum, contains_above}
use jamjam_client.Link.Replay.{ReplayWindow, replay_window, default, one_shl, shl, is_new, accept}

-- What one test and one update of the word `seen` mean for its digits.
test_digit : (n x : ℕ) → n < 128 → (bit_and x (one_shl n) == 0) ≡ (digit n x == 0)
test_digit n x h =
    rw (mod-eq_of_lt h, bit_and-two_pow n x)
      (ground (arith, digit-le n x, one-le-pow n 2 (omega arith), ap (λ (d : ℕ). d * 2 ^ n)))

mark_digit :
    (n k x : ℕ) → k < 128 → digit n (bit_or x (one_shl k)) ≡ (if n == k then 1 else digit n x)
mark_digit n k x h =
    rw (mod-eq_of_lt h, digit-bit_or n x (2 ^ k), digit-two_pow n k) (ground (arith, digit-le n x))

shift_digit :
    (n d x : ℕ)
    → n < 128
    → 1 ≤ d
    → digit n (bit_or (shl x d) 1) ≡ (if n == 0 then 1 else if ltb n d then 0 else digit (n - d) x)
shift_digit n d x h p =
    rw
      (
        digit-bit_or n (shl x d) 1,
        digit-two_pow n 0,
        digit-mod n 128 (x * 2 ^ d),
        digit-shift n d x,
      )
      (ground (arith, digit-le (n - d) x))

-- `w` is what the code keeps of the accepted counters `past`.
pub record Tracks (w : ReplayWindow) (past : List ℕ) : Type 0 where
  pub begun : w.started ≡ not (is_empty past)
  pub top : w.newest ≡ maximum past
  pub marks :
      (n : ℕ)
      → n < 128
      → n ≤ w.newest
      → digit n w.seen ≡ (if contains past (w.newest - n) then 1 else 0)

pub default-Tracks : Tracks default []
default-Tracks = record { begun = refl; top = refl; marks = λ n _ _. digit-zero n }

-- What the window should answer: a counter that is not in the past, and less than 128 behind.
abbrev pub is_fresh : List ℕ → ℕ → Bool
is_fresh past c = not (contains past c) && (is_empty past || ltb (maximum past) (c + 128))

-- For a window in step with the list of all counters accepted so far, a counter is new exactly when
-- it is not in the list and is less than 128 behind the largest of them (any counter, if there are
-- none).
pub is_new-is_fresh :
    (w : ReplayWindow) (past : List ℕ) (c : ℕ) → Tracks w past → is_new w c ≡ is_fresh past c
unfolding is_new
is_new-is_fresh w [] c t = ground (arith, t.begun)
is_new-is_fresh w (x ∷ xs) c t = elim (dec_lt w.newest c) [
  | yes p ↦ ground (arith, t.begun, t.top, contains_above (x ∷ xs) c)
  | no p ↦ elim (dec_lt (w.newest - c) 128) [
    | yes q ↦ ground (
      arith,
      t.begun,
      t.top,
      t.marks (w.newest - c),
      test_digit (w.newest - c) w.seen q,
      ap (contains (x ∷ xs)) {x = w.newest - (w.newest - c)} {y = c},
    )
    | no q ↦ ground (arith, t.begun, t.top)
  ]
]

accept_above :
    (w : ReplayWindow) (past : List ℕ) (c : ℕ)
    → Tracks w past
    → w.newest < c
    → (n : ℕ) → n < 128
    → n ≤ c
    → digit n (if leb replay_window (c - w.newest) then 1 else bit_or (shl w.seen (c - w.newest)) 1)
      ≡ (if contains (c ∷ past) (c - n) then 1 else 0)
accept_above w past c t h n lt le = elim (dec_lt (c - w.newest) 128) [
  | yes q ↦ ground (
    arith,
    t.top,
    shift_digit n (c - w.newest) w.seen lt,
    t.marks (n - (c - w.newest)),
    contains_above past (c - n),
    ap (contains past) {x = w.newest - (n - (c - w.newest))} {y = c - n},
  )
  | no q ↦ ground (arith, t.top, digit-two_pow n 0, contains_above past (c - n))
]

accept_below :
    (w : ReplayWindow) (past : List ℕ) (c : ℕ)
    → Tracks w past
    → c ≤ w.newest
    → w.newest - c < 128
    → (n : ℕ) → n < 128
    → n ≤ w.newest
    → digit n (bit_or w.seen (one_shl (w.newest - c)))
      ≡ (if contains (c ∷ past) (w.newest - n) then 1 else 0)
accept_below w past c t h k n lt le =
    ground (arith, mark_digit n (w.newest - c) w.seen k, t.marks n lt le)

started_top :
    (w : ReplayWindow) (past : List ℕ)
    → Tracks w past
    → w.started ≡ false
    → (w.newest ≡ 0) × (past ≡ [])
started_top w [] t e = (t.top, refl)
started_top w (x ∷ xs) t e = ground (arith, t.begun)

-- Accepting a new counter leaves the window in step with the list that has it added.
pub accept-Tracks :
    (w : ReplayWindow) (past : List ℕ) (c : ℕ)
    → Tracks w past
    → is_new w c ≡ true
    → Tracks (accept w c) (c ∷ past)
unfolding accept is_new
accept-Tracks w past c t h = record {
  begun = ground (arith, t.begun);
  top = ground (arith, t.top, started_top w past t);
  marks = λ n lt le. marks n lt le;
}
  where
    marks :
        (n : ℕ)
        → n < 128
        → n ≤ (accept w c).newest
        → digit n (accept w c).seen
          ≡ (if contains (c ∷ past) ((accept w c).newest - n) then 1 else 0)
    marks n lt le = elim (Bool-cases w.started) [
      | inr e ↦ ground (arith, started_top w past t, e, digit-two_pow n 0)
      | inl e ↦ elim (dec_lt w.newest c) [
        | yes p ↦ ground (arith, e, accept_above w past c t p n lt)
        | no p ↦ ground (arith, e, accept_below w past c t (omega arith) (ground arith) n lt)
      ]
    ]
