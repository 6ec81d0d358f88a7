-- ===== src/Playout/Depth.antt =====
-- How many frames the buffer holds, and what lowering the delay discards.
use jamjam_client.Prelude.{
  ℕ, zero, suc, ◌+◌, ◌%◌, ◌^◌, ◌≤◌, ◌<◌, min, ◌≡◌, refl, sym, subst, ap, ◌∙◌, inl, inr, ◌⊎◌, true,
  Bool, false, not, ◌&&◌, ◌||◌, ◌==◌, length, length-set, Option, none, some, arith, ltb,
  Bool-cases, Option-cases, by_if, get_elem?, set,
}
use jamjam_client.Prelude.Int.{ℤ, pos, negsuc}
use jamjam_client.Playout.Types.{Slot, PlayoutBuffer}
use jamjam_client.Playout.Ring.{
  holds, slot_sequence_none, ready_frames, slot_for, holds_at, vacate, free_at,
}
use jamjam_client.Playout.Trim.{discard_at, discard_due, trim, trim_by, trim_excess}
use jamjam_client.Playout.Freeing.{count_ready-set, freed_holds, and_true}

-- Whether `q` is one of the `m` positions from `s` on.
abbrev pub is_passed : ℕ → ℕ → ℕ → Bool
is_passed s zero q = false
is_passed s (suc m) q = (q == s) || is_passed ((s + 1) % 2 ^ 32) m q

module _ {A P : Type 0} where
  abbrev pub ready : PlayoutBuffer A P → ℕ
  ready b = ready_frames b

  -- One turn of the loop discards at most the frame due, and moves on.
  record Discards (b b' : PlayoutBuffer A P) (s : ℕ) : Type 0 where
    no_more : ready b' ≤ ready b
    one_less : ready b ≤ ready b' + 1
    same_target : b'.target_delay_frames ≡ b.target_delay_frames
    keeps : (q : ℕ) → holds_at b' q ≡ (holds_at b q && not (q == s))
    moves : b'.play_sequence ≡ some ((s + 1) % 2 ^ 32)

  vacated : (b : PlayoutBuffer A P) (s : ℕ) → holds_at b s ≡ true → ready (vacate b s) + 1 ≡ ready b
  unfolding vacate ready_frames holds_at free_at
  vacated b s h = elim (Option-cases (get_elem? b.slots (slot_for b s))) [
    | inl e ↦ absurd (ground (arith, h, ap (λ (o : Option (Slot A)). holds o s) e))
    | inr (slot, e) ↦
        subst (λ (o : Option (Slot A)). ready (free_at b (slot_for b s) o) + 1 ≡ ready b) (sym e)
          (count_ready-set b.slots (slot_for b s) slot s e
            (subst (λ (o : Option (Slot A)). holds o s ≡ true) e h))
  ]

  vacate-target :
      (b : PlayoutBuffer A P) (i : ℕ) (o : Option (Slot A))
      → (free_at b i o).target_delay_frames ≡ b.target_delay_frames
  unfolding free_at
  vacate-target b i none = refl
  vacate-target b i (some slot) = refl

  missing_keeps :
      (b : PlayoutBuffer A P) (s q : ℕ)
      → holds_at b s ≡ false
      → holds_at b q ≡ (holds_at b q && not (q == s))
  missing_keeps b s q e = elim (Bool-cases (q == s)) [
    | inl same ↦ let p : q ≡ s = ground (arith, same) in rw p (ground (arith, e))
    | inr other ↦ ground (arith, other)
  ]

  vacate-keeps :
      (b : PlayoutBuffer A P) (s q : ℕ)
      → holds_at b s ≡ true
      → holds_at (vacate b s) q ≡ (holds_at b q && not (q == s))
  unfolding vacate holds_at free_at slot_for
  vacate-keeps b s q h = elim (Option-cases (get_elem? b.slots (s % length b.slots))) [
    | inl e ↦ absurd (ground (arith, h, ap (λ (o : Option (Slot A)). holds o s) e))
    | inr (slot, e) ↦
        subst
          (λ (o : Option (Slot A)).
            holds_at (free_at b (s % length b.slots) o) q ≡ (holds_at b q && not (q == s)))
          (sym e)
          (ap
              (λ (n : ℕ).
                holds
                  (get_elem? (set b.slots (s % length b.slots) (slot_sequence_none slot)) (q % n))
                  q)
              (length-set b.slots (s % length b.slots) (slot_sequence_none slot))
            ∙ freed_holds b.slots s q slot e
                (subst (λ (o : Option (Slot A)). holds o s ≡ true) e h))
  ]

  discard_at-Discards : (b : PlayoutBuffer A P) (s : ℕ) → Discards b (discard_at b (some s)) s
  unfolding discard_at ready_frames vacate
  discard_at-Discards b s = elim (Bool-cases (holds_at b s)) [
    | inr e ↦ rw e (record {
      no_more = omega arith;
      one_less = omega arith;
      same_target = refl;
      keeps = λ q. missing_keeps b s q e;
      moves = refl;
    })
    | inl e ↦ rw e (record {
      no_more = omega (arith, vacated b s e);
      one_less = omega (arith, vacated b s e);
      same_target = vacate-target b (slot_for b s) (get_elem? b.slots (slot_for b s));
      keeps = λ q. vacate-keeps b s q e;
      moves = refl;
    })
  ]

  discard_due-Discards :
      (b : PlayoutBuffer A P) (s : ℕ) → b.play_sequence ≡ some s → Discards b (discard_due b) s
  unfolding discard_due
  discard_due-Discards b s e =
      subst (λ (o : Option ℕ). Discards b (discard_at b o) s) (sym e) (discard_at-Discards b s)

  -- What a request of `n` frames comes to.
  pub record Trimmed (b b' : PlayoutBuffer A P) (s n : ℕ) : Type 0 where
    pub no_more : ready b' ≤ ready b
    pub enough_left : min (ready b) (b.target_delay_frames + 1) ≤ ready b'
    pub same_target : b'.target_delay_frames ≡ b.target_delay_frames
    pub passed : ℕ
    pub at_most : passed ≤ n
    pub moves : b'.play_sequence ≡ some ((s + passed) % 2 ^ 32)
    pub keeps : (q : ℕ) → holds_at b' q ≡ (holds_at b q && not (is_passed s passed q))
    pub done : (ready b' ≤ b.target_delay_frames + 1) ⊎ (passed ≡ n)

  trim-Trimmed :
      (n : ℕ) (b : PlayoutBuffer A P) (s : ℕ)
      → s < 2 ^ 32
      → b.play_sequence ≡ some s
      → Trimmed b (trim n b) s n
  unfolding trim
  trim-Trimmed zero b s small e = record {
    no_more = omega arith;
    enough_left = omega arith;
    same_target = refl;
    passed = 0;
    at_most = omega arith;
    moves = e ∙ ap some (omega arith);
    keeps = λ q. and_true (holds_at b q);
    done = inr refl;
  }
  trim-Trimmed (suc n) b s small e =
      by_if (λ b'. Trimmed b b' s (suc n)) (ltb (b.target_delay_frames + 1) (ready b)) _ _
        (λ deep.
          let d = discard_due-Discards b s e in
          let b1 = discard_due b in
          let t = trim-Trimmed n b1 ((s + 1) % 2 ^ 32) (omega arith) d.moves in
          record {
            no_more = omega (arith, d.no_more, t.no_more);
            enough_left = ground (arith, deep, d.one_less, t.enough_left, d.same_target);
            same_target = t.same_target ∙ d.same_target;
            passed = suc t.passed;
            at_most = omega (arith, t.at_most);
            moves = t.moves ∙ ap some (omega arith);
            keeps = λ q. t.keeps q ∙ ground (arith, d.keeps q);
            done = elim t.done [
              | inl few ↦ inl (omega (arith, few, d.same_target))
              | inr all ↦ inr (ap suc all)
            ];
          })
        (λ shallow. record {
          no_more = omega arith;
          enough_left = omega arith;
          same_target = refl;
          passed = 0;
          at_most = omega arith;
          moves = e ∙ ap some (omega arith);
          keeps = λ q. and_true (holds_at b q);
          done = inl (ground (arith, shallow));
        })

  -- While playing at position `s`, with the delay lowered by `n + 1` frames: trimming passes at most
  -- `n + 1` positions from `s` on, and the frames held afterwards are those held before but for the
  -- ones of the positions passed. It leaves the target's frames and the one about to play, if there
  -- were as many, and stops when no more than these are left or `n + 1` positions have been passed.
  -- Nothing of the request is left over.
  pub trim_excess-Trimmed :
      (b : PlayoutBuffer A P) (s n : ℕ)
      → s < 2 ^ 32
      → b.play_sequence ≡ some s
      → b.pending_shift ≡ negsuc n
      → Trimmed b (trim_excess b) s (n + 1) × ((trim_excess b).pending_shift ≡ pos 0)
  unfolding trim_excess trim_by ready_frames
  trim_excess-Trimmed b s n small e shift =
      subst (λ (z : ℤ). Trimmed b (trim_by b z) s (n + 1) × ((trim_by b z).pending_shift ≡ pos 0))
        (sym shift)
        (let t = trim-Trimmed (n + 1) b s small e in
          (
            record {
              no_more = t.no_more;
              enough_left = t.enough_left;
              same_target = t.same_target;
              passed = t.passed;
              at_most = t.at_most;
              moves = t.moves;
              keeps = t.keeps;
              done = t.done;
            },
            refl,
          ))
