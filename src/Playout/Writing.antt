-- ===== src/Playout/Writing.antt =====
-- What becomes of a frame handed to a buffer that plays.
use native.Mathlib.Nat.{mod-lt}
use jamjam_client.Prelude.{
  ℕ, ◌%◌, ◌≤◌, ◌<◌, ◌≡◌, refl, sym, subst, ap, ◌⊎◌, true, false, ◌||◌, Option, some, List, [], ◌∷◌,
  suc, map, arith, ltb, leb, ◌==◌, by_if, length, get_elem?-set_self, length-set, get_elem?, set,
  leb→le,
}
use jamjam_client.Prelude.Int.{wrapping_diff}
use jamjam_client.Playout.Types.{Slot, Plc, PlayoutBuffer, WriteOutcome}
use jamjam_client.Playout.Delay.{slot_samples, restart_depth_window}
use jamjam_client.Playout.Ring.{holds_at, slot_for, slot_sequence_none, store}
use jamjam_client.Playout.{
  keep_frame, resync_write, write_at, write, unsigned_abs, is_negative, resync_to,
}

wrong_length_cases : (n most : ℕ) → ((n == 0) || ltb most n) ≡ true → (n ≡ 0) ⊎ (most < n)
wrong_length_cases n most h = ground (arith, h)

right_length : (n most : ℕ) → ((n == 0) || ltb most n) ≡ false → (0 < n) × (n ≤ most)
right_length n most h = (ground (arith, h), ground (arith, h))

length-map : {A B : Type 0} (f : A → B) (xs : List A) → length (map f xs) ≡ length xs
length-map f [] = refl
length-map f (x ∷ xs) = ap suc (length-map f xs)

module _ {A P : Type 0} where
  -- Storing a frame puts it where it is looked for.
  store-holds_at :
      (b : PlayoutBuffer A P) (sequence : ℕ) (samples : List A)
      → 0 < length b.slots
      → holds_at (store b sequence samples) sequence ≡ true
  unfolding store holds_at slot_for
  store-holds_at b sequence samples h =
      let slot : Slot A = record { sequence = some sequence; samples = samples } in
      let i = sequence % length b.slots in
      rw (length-set b.slots i slot, get_elem?-set_self b.slots i slot (mod-lt sequence h))
        (ground arith)

  -- The slot of the frame holds it with its samples, and the other slots are those of `slots`.
  pub record Holds (slots : List (Slot A)) (b' : PlayoutBuffer A P) (sequence : ℕ)
      (samples : List A) : Type 0 where
    pub found : holds_at b' sequence ≡ true
    pub stored :
        get_elem? b'.slots (slot_for b' sequence)
        ≡ some (record { sequence = some sequence; samples = samples })
    pub others :
        b'.slots
        ≡ set slots
            (sequence % length slots)
            (record { sequence = some sequence; samples = samples })

  store-Holds :
      (b : PlayoutBuffer A P) (sequence : ℕ) (samples : List A)
      → 0 < length b.slots
      → Holds b.slots (store b sequence samples) sequence samples
  unfolding store slot_for
  store-Holds b sequence samples h =
      let slot : Slot A = record { sequence = some sequence; samples = samples } in
      record {
        found = store-holds_at b sequence samples h;
        stored =
            rw (length-set b.slots (sequence % length b.slots) slot)
              (get_elem?-set_self b.slots (sequence % length b.slots) slot (mod-lt sequence h));
        others = refl;
      }

  -- The frame has samples, and no more than a slot takes.
  abbrev pub Fits : PlayoutBuffer A P → List A → Type 0
  Fits b samples = (0 < length samples) × (length samples ≤ slot_samples b.config)

  -- The frame is nearer than the ring is long.
  abbrev pub IsNear : PlayoutBuffer A P → ℕ → ℕ → Type 0
  IsNear b next sequence = unsigned_abs (wrapping_diff sequence next) < length b.slots

  -- What writing to a buffer that plays at position `next` gives.
  pub data Written (b : PlayoutBuffer A P) (next sequence : ℕ) (samples : List A)
      : PlayoutBuffer A P × WriteOutcome → Type 0 where
    -- No samples, or more than a slot takes: nothing changes.
    wrong :
        (length samples ≡ 0) ⊎ (slot_samples b.config < length samples)
        → Written b next sequence samples (b, WriteOutcome.wrong_length)
    -- Held already: nothing changes.
    again :
        Fits b samples
        → IsNear b next sequence
        → is_negative (wrapping_diff sequence next) ≡ false
        → holds_at b sequence ≡ true
        → Written b next sequence samples (b, WriteOutcome.duplicate)
    -- Its turn has passed: no slot changes and the position stays.
    passed :
        (b' : PlayoutBuffer A P)
        → Fits b samples
        → IsNear b next sequence
        → is_negative (wrapping_diff sequence next) ≡ true
        → b'.slots ≡ b.slots
        → b'.play_sequence ≡ b.play_sequence
        → Written b next sequence samples (b', WriteOutcome.late)
    -- Not held yet: stored, no other slot changes and the position stays.
    kept :
        (b' : PlayoutBuffer A P)
        → Fits b samples
        → IsNear b next sequence
        → is_negative (wrapping_diff sequence next) ≡ false
        → holds_at b sequence ≡ false
        → Holds b.slots b' sequence samples
        → b'.play_sequence ≡ b.play_sequence
        → Written b next sequence samples (b', WriteOutcome.accepted)
    -- From as far as the ring is long or further: every other slot is freed, and the buffer starts
    -- again at that frame.
    restarted :
        (b' : PlayoutBuffer A P)
        → Fits b samples
        → length b.slots ≤ unsigned_abs (wrapping_diff sequence next)
        → Holds (map slot_sequence_none b.slots) b' sequence samples
        → b'.play_sequence ≡ some sequence
        → b'.playing ≡ false
        → Written b next sequence samples (b', WriteOutcome.resynced)

module _ {A P : Type 0} (silent : A) (plc : Plc A P) where
  keep_frame-Written :
      (b : PlayoutBuffer A P) (next sequence : ℕ) (samples : List A)
      → 0 < length b.slots
      → Fits b samples
      → IsNear b next sequence
      → is_negative (wrapping_diff sequence next) ≡ false
      → Written b next sequence samples (keep_frame silent plc b sequence samples)
  unfolding keep_frame holds_at store
  keep_frame-Written b next sequence samples h fits near ahead =
      by_if (Written b next sequence samples) (holds_at b sequence) _ _
        (λ held. again fits near ahead held)
        (λ free.
          kept _ fits near ahead free
            (record {
              found = (store-Holds b sequence samples h).found;
              stored = (store-Holds b sequence samples h).stored;
              others = refl;
            })
            refl)

  resync-Written :
      (b : PlayoutBuffer A P) (next sequence : ℕ) (samples : List A)
      → 0 < length b.slots
      → Fits b samples
      → length b.slots ≤ unsigned_abs (wrapping_diff sequence next)
      → Written b next sequence samples
          (resync_write silent plc b sequence samples (unsigned_abs (wrapping_diff sequence next)))
  unfolding resync_write resync_to store holds_at restart_depth_window
  resync-Written b next sequence samples h fits far =
      let holds_it =
        store-Holds (resync_to silent plc b sequence) sequence samples
          (subst (λ (n : ℕ). 0 < n) (sym (length-map slot_sequence_none b.slots)) h) in
      restarted _ fits far
        (record { found = holds_it.found; stored = holds_it.stored; others = refl }) refl refl

  write_at-Written :
      (b : PlayoutBuffer A P) (next sequence : ℕ) (samples : List A)
      → 0 < length b.slots
      → b.playing ≡ true
      → Fits b samples
      → Written b next sequence samples (write_at silent plc b sequence samples (some next))
  unfolding write_at
  write_at-Written b next sequence samples h plays fits =
      let distance = wrapping_diff sequence next in
      by_if (Written b next sequence samples) (leb (length b.slots) (unsigned_abs distance)) _ _
        (λ far.
          resync-Written b next sequence samples h fits
            (leb→le (length b.slots) (unsigned_abs distance) far))
        (λ within.
          let near : IsNear b next sequence = ground (arith, within) in
          by_if (Written b next sequence samples) (is_negative distance) _ _
            (λ back.
              by_if (Written b next sequence samples) b.playing _ _
                (λ _. passed _ fits near back refl refl)
                (λ stopped. absurd (ground (arith, plays, stopped))))
            (λ ahead. keep_frame-Written b next sequence samples h fits near ahead))

  -- A frame handed to a buffer that has slots and plays at position `next` is one of five. It is of a
  -- wrong length, and nothing changes. It is as far from `next` as the ring is long or further: every
  -- slot is freed but its own, which holds it, and the buffer starts again at that frame. Or it is
  -- nearer, and is late, before `next`, and no slot and no position changes; or is held already, and
  -- nothing changes; or else its slot holds it with its samples, and no other slot and no position
  -- changes.
  pub write-Written :
      (b : PlayoutBuffer A P) (next sequence : ℕ) (samples : List A)
      → 0 < length b.slots
      → b.playing ≡ true
      → b.play_sequence ≡ some next
      → Written b next sequence samples (write silent plc b sequence samples)
  unfolding write slot_samples
  write-Written b next sequence samples h plays e =
      by_if (Written b next sequence samples)
        ((length samples == 0) || ltb (slot_samples b.config) (length samples)) _ _
        (λ bad. wrong (wrong_length_cases (length samples) (slot_samples b.config) bad))
        (λ good.
          subst
            (λ (o : Option ℕ).
              Written b next sequence samples (write_at silent plc b sequence samples o))
            (sym e)
            (write_at-Written b next sequence samples h plays
              (right_length (length samples) (slot_samples b.config) good)))
