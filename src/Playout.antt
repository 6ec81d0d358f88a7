-- ===== src/Playout.antt =====
-- src/audio/playout.rs, `PlayoutBuffer`: where received audio waits for its turn. A sample is of any
-- type. The concealment of src/audio/plc.rs and the two tests of the loss rate, which are done in
-- floating point, are operations that the buffer is given.
pub mod Types
pub mod Delay
pub mod Ring
pub mod Trim
pub mod Bounds
pub mod Freeing
pub mod Depth
pub mod Position
pub mod Writing
mod Tests
use jamjam_client.Prelude.{
  ℕ, zero, suc, ◌+◌, ◌-◌, ◌*◌, ◌%◌, ◌^◌, min, max, Bool, true, false, not, ◌&&◌, ◌||◌, Option, none,
  some, List, [], ◌∷◌, map, ltb, leb, ◌==◌, if◌then◌else◌, length, get_elem?, set, take, replicate,
}
use jamjam_client.Prelude.Int.{ℤ, pos, negsuc, wrapping_diff}
use Types.{
  PlayoutConfig, PlayoutResult, WriteOutcome, PlayoutStats, Slot, Plc, PlayoutBuffer, free_slot,
  no_stats, bump,
}
use Delay.{
  slot_samples, capacity_frames, clean_windows_before_shrink, usize_max, restart_depth_window,
}
use Ring.{
  holds, occupied, count_ready, slot_sequence_none, ready_frames, slot_for, holds_at, free_at,
  vacate, store,
}
use Trim.{
  depth_window_reads_full, trim_when_excess_at_least, discard_at, discard_due, trim, trim_by,
  trim_excess, watch_depth,
}

-- `distance.unsigned_abs()`
abbrev pub unsigned_abs : ℤ → ℕ
unsigned_abs (pos n) = n
unsigned_abs (negsuc n) = n + 1

abbrev pub is_negative : ℤ → Bool
is_negative (pos n) = false
is_negative (negsuc n) = true

module _ {A P : Type 0} (silent : A) (plc : Plc A P) where
  unfoldable pub with_ring_for : PlayoutConfig → ℕ → PlayoutBuffer A P
  unfolding capacity_frames
  with_ring_for config ring_delay_frames =
      let ring = max ring_delay_frames config.max_delay_frames in
      record {
        slots = replicate (capacity_frames ring) free_slot;
        config = config;
        target_delay_frames = config.target_delay_frames;
        ring_delay_frames = ring;
        pending_shift = pos 0;
        adapt_seen = 0;
        adapt_missed = 0;
        clean_windows = 0;
        shrink_after_windows = clean_windows_before_shrink;
        windows_since_shrink = none;
        depth_window_min = usize_max;
        depth_window_reads = 0;
        play_sequence = none;
        playing = false;
        concealment = plc.fresh (max config.frame_samples 1);
        last_len = max config.frame_samples 1;
        stats = no_stats;
      }

  unfoldable pub resync_to : PlayoutBuffer A P → ℕ → PlayoutBuffer A P
  unfolding restart_depth_window
  resync_to b sequence = restart_depth_window (record b {
    slots = map slot_sequence_none b.slots;
    play_sequence = some sequence;
    playing = false;
    pending_shift = pos 0;
    concealment = plc.reset b.concealment;
  })

  unfoldable pub reset : PlayoutBuffer A P → PlayoutBuffer A P
  unfolding restart_depth_window
  reset b = restart_depth_window (record b {
    slots = map slot_sequence_none b.slots;
    play_sequence = none;
    playing = false;
    target_delay_frames = b.config.target_delay_frames;
    last_len = b.config.frame_samples;
    concealment = plc.reset b.concealment;
    stats = no_stats;
    pending_shift = pos 0;
    adapt_seen = 0;
    adapt_missed = 0;
    clean_windows = 0;
    shrink_after_windows = clean_windows_before_shrink;
    windows_since_shrink = none;
  })

  -- The end of `write`, once the position is known.
  unfoldable pub keep_frame : PlayoutBuffer A P → ℕ → List A → PlayoutBuffer A P × WriteOutcome
  unfolding holds_at store
  keep_frame b sequence samples = if holds_at b sequence then (b, WriteOutcome.duplicate) else (
    record (store b sequence samples) {
      stats = record b.stats { frames_written = bump b.stats.frames_written };
    },
    WriteOutcome.accepted,
  )

  -- A frame from too far away, to which the buffer moves.
  unfoldable pub resync_write :
      PlayoutBuffer A P → ℕ → List A → ℕ → PlayoutBuffer A P × WriteOutcome
  unfolding resync_to store
  resync_write b sequence samples distance =
      let b' = store (resync_to b sequence) sequence samples in
      (
        record b' {
          stats = record b'.stats {
            resyncs = bump b'.stats.resyncs;
            last_resync_distance = distance;
            frames_written = bump b'.stats.frames_written;
          };
        },
        WriteOutcome.resynced,
      )

  -- The match of `write` on the play position.
  unfoldable pub write_at :
      PlayoutBuffer A P → ℕ → List A → Option ℕ → PlayoutBuffer A P × WriteOutcome
  unfolding keep_frame resync_write
  write_at b sequence samples none =
      keep_frame (record b { play_sequence = some sequence }) sequence samples
  write_at b sequence samples (some next) =
      let distance = wrapping_diff sequence next in
      if leb (length b.slots) (unsigned_abs distance)
      then resync_write b sequence samples (unsigned_abs distance)
      else if is_negative distance
      then (if b.playing
          then (
            record b { stats = record b.stats { frames_late = bump b.stats.frames_late } },
            WriteOutcome.late,
          )
          else keep_frame (record b { play_sequence = some sequence }) sequence samples)
      else keep_frame b sequence samples

  unfoldable pub write : PlayoutBuffer A P → ℕ → List A → PlayoutBuffer A P × WriteOutcome
  unfolding write_at slot_samples
  write b sequence samples =
      if (length samples == 0) || ltb (slot_samples b.config) (length samples)
      then (b, WriteOutcome.wrong_length)
      else write_at b sequence samples b.play_sequence

  -- `silence`, and what goes with it.
  unfoldable pub quiet :
      PlayoutBuffer A P → ℕ → PlayoutResult → PlayoutBuffer A P × PlayoutResult × List A
  quiet b out result = (b, result, replicate (min b.last_len out) silent)

  unfoldable pub conceal_due :
      PlayoutBuffer A P → ℕ → ℕ → PlayoutBuffer A P × PlayoutResult × List A
  conceal_due b out sequence =
      let (concealment', samples) = plc.conceal_into b.concealment (min b.last_len out) in
      (
        record b {
          play_sequence = some ((sequence + 1) % 2 ^ 32);
          concealment = concealment';
          stats = record b.stats { frames_concealed = bump b.stats.frames_concealed };
        },
        PlayoutResult.concealed sequence,
        samples,
      )

  -- The frame that is due, by what its slot is.
  unfoldable pub play_slot :
      PlayoutBuffer A P → ℕ → ℕ → Option (Slot A) → PlayoutBuffer A P × PlayoutResult × List A
  unfolding slot_for conceal_due
  play_slot b out sequence none = conceal_due b out sequence
  play_slot b out sequence (some slot) =
      if holds (some slot) sequence
      then (
        record b {
          play_sequence = some ((sequence + 1) % 2 ^ 32);
          slots = set b.slots (slot_for b sequence) (slot_sequence_none slot);
          concealment = plc.store_frame b.concealment (take out slot.samples);
          last_len = length (take out slot.samples);
          stats = record b.stats { frames_played = bump b.stats.frames_played };
        },
        PlayoutResult.played sequence,
        take out slot.samples,
      )
      else conceal_due b out sequence

  unfoldable pub play_due : PlayoutBuffer A P → ℕ → ℕ → PlayoutBuffer A P × PlayoutResult × List A
  unfolding slot_for play_slot
  play_due b out sequence = play_slot b out sequence (get_elem? b.slots (slot_for b sequence))

  -- What `read_into` does once the delay is settled, by the play position.
  unfoldable pub read_at :
      PlayoutBuffer A P → ℕ → Option ℕ → PlayoutBuffer A P × PlayoutResult × List A
  unfolding holds_at ready_frames quiet play_due
  read_at b out none = quiet b out PlayoutResult.priming
  read_at b out (some sequence) =
      if not (holds_at b sequence) && (ready_frames b == 0)
      then quiet
          (record b { stats = record b.stats { frames_starved = bump b.stats.frames_starved } }) out
          PlayoutResult.starved
      else play_due b out sequence

  unfoldable pub read_due : PlayoutBuffer A P → ℕ → PlayoutBuffer A P × PlayoutResult × List A
  unfolding read_at
  read_due b out = read_at b out b.play_sequence

  -- What `read_into` does while playing, by what is left of the shift.
  unfoldable pub read_shifted : PlayoutBuffer A P → ℕ → PlayoutBuffer A P × PlayoutResult × List A
  unfolding quiet watch_depth ready_frames read_due
  read_shifted b out = elim b.pending_shift [
    | pos (suc n) ↦ quiet (record b { pending_shift = pos n }) out PlayoutResult.padded
    | _ ↦ read_due (watch_depth b (ready_frames b)) out
  ]

  unfoldable pub read_into : PlayoutBuffer A P → ℕ → PlayoutBuffer A P × PlayoutResult × List A
  unfolding quiet ready_frames trim_excess read_shifted
  read_into b out =
      if not b.playing && leb (ready_frames b) b.target_delay_frames
      then quiet b out PlayoutResult.priming
      else read_shifted (trim_excess (record b { playing = true })) out
