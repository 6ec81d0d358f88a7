-- ===== src/Playout/Trim.antt =====
-- src/audio/playout.rs: discarding what is held beyond the target.
use jamjam_client.Prelude.{
  ℕ, zero, suc, ◌+◌, ◌-◌, ◌%◌, ◌^◌, min, Option, none, some, ltb, leb, if◌then◌else◌,
}
use jamjam_client.Prelude.Int.{ℤ, pos, negsuc}
use jamjam_client.Playout.Types.{PlayoutBuffer, bump}
use jamjam_client.Playout.Delay.{restart_depth_window}
use jamjam_client.Playout.Ring.{ready_frames, holds_at, vacate}

abbrev pub depth_window_reads_full : ℕ
depth_window_reads_full = 500

abbrev pub trim_when_excess_at_least : ℕ
trim_when_excess_at_least = 2

module _ {A P : Type 0} where
  -- One turn of the loop of `trim_excess`, by the play position: the frame due is discarded, if it
  -- is held.
  unfoldable pub discard_at : PlayoutBuffer A P → Option ℕ → PlayoutBuffer A P
  unfolding holds_at vacate
  discard_at b none = b
  discard_at b (some sequence) =
      let b' =
        if holds_at b sequence
        then record (vacate b sequence) {
          stats = record b.stats { frames_trimmed = bump b.stats.frames_trimmed };
        }
        else b in
      record b' { play_sequence = some ((sequence + 1) % 2 ^ 32) }

  unfoldable pub discard_due : PlayoutBuffer A P → PlayoutBuffer A P
  unfolding discard_at
  discard_due b = discard_at b b.play_sequence

  -- The loop, for a request of `n` frames.
  unfoldable pub trim : ℕ → PlayoutBuffer A P → PlayoutBuffer A P
  unfolding ready_frames discard_due
  trim zero b = b
  trim (suc n) b =
      let rest = trim n (discard_due b) in
      if ltb (b.target_delay_frames + 1) (ready_frames b) then rest else b

  -- `trim_excess`, by the shift that is pending.
  unfoldable pub trim_by : PlayoutBuffer A P → ℤ → PlayoutBuffer A P
  unfolding trim
  trim_by b (pos n) = b
  trim_by b (negsuc n) = record (trim (n + 1) b) { pending_shift = pos 0 }

  unfoldable pub trim_excess : PlayoutBuffer A P → PlayoutBuffer A P
  unfolding trim_by
  trim_excess b = trim_by b b.pending_shift

  unfoldable pub watch_depth : PlayoutBuffer A P → ℕ → PlayoutBuffer A P
  unfolding trim restart_depth_window
  watch_depth b ready =
      let b' = record b {
        depth_window_min = min b.depth_window_min ready;
        depth_window_reads = b.depth_window_reads + 1;
      } in
      if ltb b'.depth_window_reads depth_window_reads_full
      then b'
      else (let excess = b'.depth_window_min - (b'.target_delay_frames + 1) in
          if leb trim_when_excess_at_least excess
          then record (trim excess (restart_depth_window b')) { pending_shift = pos 0 }
          else restart_depth_window b')
