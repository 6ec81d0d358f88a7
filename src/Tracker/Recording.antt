-- ===== src/Tracker/Recording.antt =====
-- `record` against the list of positions, and `was_received`.
use native.Mathlib.Decide.{dec_lt}
use jamjam_client.Bits.{digit-two_pow}
use jamjam_client.Prelude.{
  ℕ, ◌+◌, ◌-◌, ◌%◌, ◌^◌, ◌≤◌, ◌<◌, ◌≡◌, refl, sym, subst, ap, ◌∙◌, inl, false, Option, some, List,
  [], ◌∷◌, arith, lt→ltb,
}
use jamjam_client.Prelude.Counters.{contains, maximum, contains_above, contains-maximum}
use jamjam_client.Tracker.{
  SequenceTracker, new, sequence_diff, ahead, behind, by_diff, later, record_after, record_packet,
  seen_at, was_received,
}
use jamjam_client.Tracker.Positions.{seq_of, diff_ahead, diff_behind, after}
use jamjam_client.Tracker.History.{test_digit, Tracks, noted, noted_past, noted_new}
use jamjam_client.Tracker.Branches.{ahead_result, ahead-Tracks, behind-Tracks}

module _ (t : SequenceTracker) (first : ℕ) (past : List ℕ) (v : Tracks t first past) where
  later-ahead :
      (p : ℕ)
      → maximum past < p
      → p < maximum past + 2 ^ 31
      → later t (seq_of p) ≡ ahead t (seq_of p) (p - maximum past)
  unfolding later by_diff
  later-ahead p h k =
      ap (λ top. by_diff t (seq_of p) (sequence_diff (seq_of p) top)) v.top
      ∙ ap (by_diff t (seq_of p)) (diff_ahead p (maximum past) (omega arith) k)
      ∙ rw (lt→ltb 0 (p - maximum past) (omega arith)) refl

  later_again : later t (seq_of (maximum past)) ≡ (t, [])
  unfolding later by_diff
  later_again =
      let e : maximum past - maximum past ≡ 0 = omega arith in
      ap (λ top. by_diff t (seq_of (maximum past)) (sequence_diff (seq_of (maximum past)) top))
        v.top
      ∙ ap (by_diff t (seq_of (maximum past)))
          (diff_ahead (maximum past) (maximum past) (omega arith) (omega arith))
      ∙ rw e refl

  later-behind :
      (p : ℕ)
      → p < maximum past
      → maximum past < p + 2 ^ 31
      → later t (seq_of p) ≡ (behind t (maximum past - p), [])
  unfolding later by_diff
  later-behind p h k =
      let e : maximum past - p - 1 + 1 ≡ maximum past - p = omega arith in
      ap (λ top. by_diff t (seq_of p) (sequence_diff (seq_of p) top)) v.top
      ∙ ap (by_diff t (seq_of p)) (diff_behind p (maximum past) h k)
      ∙ rw e refl

  later-Tracks :
      (p : ℕ)
      → first ≤ p
      → p ≤ maximum past + 64
      → maximum past < p + 2 ^ 31
      → p < 2 ^ 64
      → ((later t (seq_of p)).1 ≡ after (maximum past) (p - maximum past - 1))
        × Tracks (later t (seq_of p)).0 first (noted past p)
  later-Tracks p f h k small = elim (dec_lt (maximum past) p) [
    | yes above ↦
        let absent : contains past p ≡ false = contains_above past p above in
        rw (later-ahead p above (omega arith), noted_new past p absent (omega arith))
          (
            ap (λ r. r.1) (ahead_result t first past v p above h),
            ahead-Tracks t first past v p above h small,
          )
    | no above ↦ elim (dec_lt p (maximum past)) [
      | yes below ↦
          let e : p - maximum past - 1 ≡ 0 = omega arith in
          rw (later-behind p below k, e) (refl, behind-Tracks t first past v p f below)
      | no below ↦
          let same : p ≡ maximum past = omega arith in
          let e : maximum past - maximum past - 1 ≡ 0 = omega arith in
          rw (same, later_again, e, noted_past past (maximum past) (inl v.highest)) (refl, v)
    ]
  ]

counted :
    (t : SequenceTracker) (first : ℕ) (past : List ℕ) (n : ℕ)
    → Tracks t first past
    → Tracks (record t { packets_received = n }) first past
counted t first past n v = record {
  begun = v.begun;
  width = v.width;
  top = v.top;
  highest = v.highest;
  since = v.since;
  marks = v.marks;
  lost = v.lost;
}

arrived :
    (t : SequenceTracker) (first : ℕ) (past : List ℕ) (s : ℕ)
    → Tracks t first past
    → Tracks (record t { last_sequence = some s }) first past
arrived t first past s v = record {
  begun = (s, refl);
  width = v.width;
  top = v.top;
  highest = v.highest;
  since = v.since;
  marks = v.marks;
  lost = v.lost;
}

-- A new tracker that records its first packet is in step with the list of that position alone.
pub record_packet_first : (p : ℕ) → Tracks (record_packet new (seq_of p)).0 p (p ∷ [])
unfolding record_packet record_after
record_packet_first p =
    let e : maximum (p ∷ []) ≡ p = ground arith in
    record {
      begun = (seq_of p, refl);
      width = refl;
      top = rw e refl;
      highest = contains-maximum p [];
      since = rw e (omega arith);
      marks = rw e (λ n lt le. ground (arith, digit-two_pow n 0));
      lost = rw e (let z : p - p + 1 ≡ 1 = omega arith in rw z (ground arith));
    }

-- For a tracker in step with the list of positions that arrived in time, a packet at a position not
-- before the first, at most 64 past the largest and not 2 ^ 31 behind it: recording it returns the
-- numbers of exactly the positions skipped over, and leaves the tracker in step with the list that
-- has the position added (unless it is there or is 64 or more behind). So `packets_lost` stays the
-- number of positions since the first that did not arrive in time, wrap-around included.
pub record_packet-Tracks :
    (t : SequenceTracker) (first : ℕ) (past : List ℕ) (p : ℕ)
    → Tracks t first past
    → first ≤ p
    → p ≤ maximum past + 64
    → maximum past < p + 2 ^ 31
    → p < 2 ^ 64
    → ((record_packet t (seq_of p)).1 ≡ after (maximum past) (p - maximum past - 1))
      × Tracks (record_packet t (seq_of p)).0 first (noted past p)
unfolding record_packet record_after
record_packet-Tracks t first past p v f h k small =
    let t' = record t { packets_received = (t.packets_received + 1) % 2 ^ 64 } in
    let step =
      later-Tracks t' first past (counted t first past ((t.packets_received + 1) % 2 ^ 64) v) p f h
        k small in
    let (s, e) = v.begun in
    subst
      (λ (o : Option ℕ).
        ((record_after o t' (seq_of p)).1 ≡ after (maximum past) (p - maximum past - 1))
        × Tracks (record_after o t' (seq_of p)).0 first (noted past p))
      (sym e) (step.0, arrived (later t' (seq_of p)).0 first (noted past p) (seq_of p) step.1)

-- A position less than 64 behind the largest is reported as received exactly when it is in the list.
pub was_received-contains :
    (t : SequenceTracker) (first : ℕ) (past : List ℕ) (p : ℕ)
    → Tracks t first past
    → p ≤ maximum past
    → maximum past < p + 64
    → was_received t (seq_of p) ≡ contains past p
unfolding was_received seen_at
was_received-contains t first past p v h k =
    let n : ℕ = maximum past - p in
    ap (λ top. seen_at t (sequence_diff top (seq_of p))) v.top
    ∙ ap (seen_at t) (diff_ahead (maximum past) p h (omega arith))
    ∙ rw (lt→ltb n 64 (omega arith), test_digit n t.received_bitmap)
        (ground (
          arith,
          v.marks n (omega arith) (omega arith),
          ap (contains past) {x = maximum past - n} {y = p},
        ))
