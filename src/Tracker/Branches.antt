-- ===== src/Tracker/Branches.antt =====
-- The branches of `record`, each against the list of positions.
use native.Mathlib.Decide.{dec_lt}
use jamjam_client.Bits.{digit}
use jamjam_client.Prelude.{
  ℕ, suc, ◌+◌, ◌-◌, ◌%◌, ◌^◌, ◌≤◌, ◌<◌, bit_or, ◌≡◌, refl, ap, ◌∙◌, inl, inr, true, false, List,
  ◌∷◌, arith, if◌then◌else◌, Bool-cases, lt→ltb, le→leb,
}
use jamjam_client.Prelude.Counters.{contains, maximum, contains_above, contains-maximum}
use jamjam_client.Tracker.{SequenceTracker, shift_in, ahead, behind}
use jamjam_client.Tracker.Positions.{seq_of, after, missed-after, length-after}
use jamjam_client.Tracker.Gaps.{gaps, gaps_above, gaps_filled, gaps_beyond, gaps-le}
use jamjam_client.Tracker.History.{
  test_digit, mark_digit, shift_digit, Tracks, noted, noted_past, noted_new,
}

module _ (t : SequenceTracker) (first : ℕ) (past : List ℕ) (v : Tracks t first past) where
  pub ahead_result :
      (p : ℕ)
      → maximum past < p
      → p ≤ maximum past + 64
      → ahead t (seq_of p) (p - maximum past) ≡ (
        record t {
          packets_lost = (t.packets_lost + (p - maximum past - 1)) % 2 ^ 64;
          received_bitmap = shift_in t.received_bitmap (p - maximum past);
          highest_sequence = seq_of p;
        },
        after (maximum past) (p - maximum past - 1),
      )
  unfolding ahead
  ahead_result p h k =
      rw
        (
          v.width,
          le→leb (p - maximum past) 64 (omega arith),
          v.top,
          missed-after (maximum past) (p - maximum past - 1),
          length-after (maximum past) (p - maximum past - 1),
        )
        refl

  ahead_marks :
      (p n : ℕ)
      → maximum past < p
      → n < 64
      → n ≤ p
      → digit n (shift_in t.received_bitmap (p - maximum past))
        ≡ (if contains (p ∷ past) (p - n) then 1 else 0)
  ahead_marks p n h lt le = ground (
    arith,
    shift_digit n (p - maximum past) t.received_bitmap lt,
    v.marks (n - (p - maximum past)),
    contains_above past (p - n),
    ap (contains past) {x = maximum past - (n - (p - maximum past))} {y = p - n},
  )

  ahead_lost :
      (p : ℕ)
      → maximum past < p
      → p ≤ maximum past + 64
      → p < 2 ^ 64
      → (t.packets_lost + (p - maximum past - 1)) % 2 ^ 64 ≡ gaps first (p - first + 1) (p ∷ past)
  ahead_lost p h k small =
      let n : ℕ = maximum past - first + 1 in
      let d : ℕ = p - maximum past - 1 in
      let e : p - first + 1 ≡ suc (n + d) = ground (arith, v.since) in
      rw
        (
          e,
          gaps_above first (n + d) p past (ground (arith, v.since)),
          gaps_beyond first n d past (ground (arith, v.since)),
          v.lost,
        )
        (ground (arith, v.since, gaps-le first n past))

  pub ahead-Tracks :
      (p : ℕ)
      → maximum past < p
      → p ≤ maximum past + 64
      → p < 2 ^ 64
      → Tracks (ahead t (seq_of p) (p - maximum past)).0 first (p ∷ past)
  ahead-Tracks p h k small =
      let e : maximum (p ∷ past) ≡ p = ground arith in
      rw (ahead_result p h k) (record {
        begun = v.begun;
        width = v.width;
        top = rw e refl;
        highest = contains-maximum p past;
        since = rw e (ground (arith, v.since));
        marks = rw e (λ n lt le. ahead_marks p n h lt le);
        lost = rw e (ahead_lost p h k small);
      })

  -- The digit of a position below the newest one.
  digit_behind :
      (p : ℕ)
      → p ≤ maximum past
      → maximum past - p < 64
      → digit (maximum past - p) t.received_bitmap ≡ (if contains past p then 1 else 0)
  digit_behind p h k =
      v.marks (maximum past - p) k (omega arith)
      ∙ ap (λ (q : ℕ). if contains past q then 1 else 0) (omega arith)

  behind_late :
      (p : ℕ)
      → first ≤ p
      → p < maximum past
      → maximum past - p < 64
      → contains past p ≡ false
      → behind t (maximum past - p) ≡ record t {
        received_bitmap = bit_or t.received_bitmap (2 ^ (maximum past - p));
        packets_lost = t.packets_lost - 1;
      }
  unfolding behind
  behind_late p f h k e =
      let positive : 0 < t.packets_lost =
        ground (arith, v.lost, gaps_filled first (maximum past - first + 1) p past) in
      rw
        (
          v.width,
          lt→ltb (maximum past - p) 64 k,
          test_digit (maximum past - p) t.received_bitmap,
          digit_behind p (omega arith) k,
          e,
          lt→ltb 0 t.packets_lost positive,
        )
        refl

  behind_again :
      (p : ℕ)
      → p < maximum past
      → maximum past - p < 64
      → contains past p ≡ true
      → behind t (maximum past - p) ≡ t
  unfolding behind
  behind_again p h k e =
      rw
        (
          v.width,
          lt→ltb (maximum past - p) 64 k,
          test_digit (maximum past - p) t.received_bitmap,
          digit_behind p (omega arith) k,
          e,
        )
        refl

  behind_old : (p : ℕ) → p + 64 ≤ maximum past → behind t (maximum past - p) ≡ t
  unfolding behind
  behind_old p h = rw v.width (ground arith)

  late_marks :
      (p n : ℕ)
      → p < maximum past
      → n < 64
      → n ≤ maximum past
      → digit n (bit_or t.received_bitmap (2 ^ (maximum past - p)))
        ≡ (if contains (p ∷ past) (maximum past - n) then 1 else 0)
  late_marks p n h lt le =
      ground (arith, mark_digit n (maximum past - p) t.received_bitmap, v.marks n lt le)

  late-Tracks :
      (p : ℕ)
      → first ≤ p
      → p < maximum past
      → maximum past - p < 64
      → contains past p ≡ false
      → Tracks (behind t (maximum past - p)) first (p ∷ past)
  late-Tracks p f h k absent =
      let e : maximum (p ∷ past) ≡ maximum past = ground arith in
      rw (behind_late p f h k absent) (record {
        begun = v.begun;
        width = v.width;
        top = rw e v.top;
        highest = contains-maximum p past;
        since = rw e v.since;
        marks = rw e (λ n lt le. late_marks p n h lt le);
        lost = rw e (
            ground (
              arith,
              v.lost,
              gaps_filled first (maximum past - first + 1) p past f (ground (arith, v.since))
                  absent,
            ));
      })

  pub behind-Tracks :
      (p : ℕ)
      → first ≤ p
      → p < maximum past
      → Tracks (behind t (maximum past - p)) first (noted past p)
  behind-Tracks p f h = elim (dec_lt (maximum past - p) 64) [
    | no q ↦ rw (noted_past past p (inr (omega arith)), behind_old p (omega arith)) v
    | yes q ↦ elim (Bool-cases (contains past p)) [
      | inl e ↦ rw (noted_past past p (inl e), behind_again p h q e) v
      | inr e ↦ rw (noted_new past p e (omega arith)) (late-Tracks p f h q e)
    ]
  ]
