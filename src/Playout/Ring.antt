-- ===== src/Playout/Ring.antt =====
-- src/audio/playout.rs: the slots of the play-out buffer.
use jamjam_client.Prelude.{
  ℕ, ◌+◌, ◌%◌, Bool, true, false, Option, none, some, List, [], ◌∷◌, ◌==◌, if◌then◌else◌, length,
  get_elem?, set,
}
use jamjam_client.Playout.Types.{Slot, PlayoutBuffer}

-- `slot.sequence == Some(sequence)`
abbrev pub holds : {A : Type 0} → Option (Slot A) → ℕ → Bool
holds none sequence = false
holds (some slot) sequence = elim slot.sequence [ some s ↦ s == sequence | none ↦ false ]

abbrev pub occupied : {A : Type 0} → Slot A → Bool
occupied slot = elim slot.sequence [ some _ ↦ true | none ↦ false ]

-- The number of slots that hold a frame.
abbrev pub count_ready : {A : Type 0} → List (Slot A) → ℕ
count_ready [] = 0
count_ready (slot ∷ slots) = (if occupied slot then 1 else 0) + count_ready slots

abbrev pub slot_sequence_none : {A : Type 0} → Slot A → Slot A
slot_sequence_none slot = record slot { sequence = none }

module _ {A P : Type 0} where
  unfoldable pub ready_frames : PlayoutBuffer A P → ℕ
  ready_frames b = count_ready b.slots

  unfoldable pub slot_for : PlayoutBuffer A P → ℕ → ℕ
  slot_for b sequence = sequence % length b.slots

  -- Whether the slot of `sequence` holds it.
  unfoldable pub holds_at : PlayoutBuffer A P → ℕ → Bool
  unfolding slot_for
  holds_at b sequence = holds (get_elem? b.slots (slot_for b sequence)) sequence

  unfoldable pub free_at : PlayoutBuffer A P → ℕ → Option (Slot A) → PlayoutBuffer A P
  free_at b i none = b
  free_at b i (some slot) = record b { slots = set b.slots i (slot_sequence_none slot) }

  -- `slots[slot].sequence = None` for the slot of `sequence`.
  unfoldable pub vacate : PlayoutBuffer A P → ℕ → PlayoutBuffer A P
  unfolding slot_for free_at
  vacate b sequence = free_at b (slot_for b sequence) (get_elem? b.slots (slot_for b sequence))

  unfoldable pub store : PlayoutBuffer A P → ℕ → List A → PlayoutBuffer A P
  unfolding slot_for
  store b sequence samples = record b {
    slots =
        set b.slots (slot_for b sequence) (record { sequence = some sequence; samples = samples });
  }
