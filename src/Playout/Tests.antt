-- ===== src/Playout/Tests.antt =====
-- Runs of the play-out buffer, with numbers for samples and concealment that repeats a zero.
use jamjam_client.Prelude.{ℕ, ◌+◌, ◌≡◌, refl, true, none, some, [], ◌∷◌, arith, ltb, replicate}
use jamjam_client.Prelude.Int.{pos, negsuc}
use jamjam_client.Playout.Types.{PlayoutConfig, Plc, PlayoutBuffer}
use jamjam_client.Playout.Delay.{Rates, adapt}
use jamjam_client.Playout.Bounds.{Answers, adapt-InBounds}
use jamjam_client.Playout.Depth.{Trimmed, trim_excess-Trimmed}
use jamjam_client.Playout.Writing.{Written, write-Written}
use jamjam_client.Playout.Position.{Turn, read_due-Turn}
use jamjam_client.Playout.Trim.{trim_excess}
use jamjam_client.Playout.{write, read_due}

abbrev toy : Plc ℕ ℕ
toy = record {
  fresh = λ n. 0;
  store_frame = λ p samples. p + 1;
  conceal_into = λ p n. (p, replicate n 0);
  reset = λ p. 0;
}

abbrev always : Rates
always = record { grows = λ missed window. ltb 0 missed; shrinks = λ missed window. true }

abbrev two_frames : PlayoutConfig
two_frames = record {
  frame_samples = 2;
  target_delay_frames = 2;
  min_delay_frames = 1;
  max_delay_frames = 6;
}

-- A buffer that plays at position 5, and holds the frames 5 and 7.
abbrev holding : PlayoutBuffer ℕ ℕ
holding = record {
  slots =
      record { sequence = none; samples = [] }
      ∷ record { sequence = some 5; samples = 8 ∷ 9 ∷ [] }
      ∷ record { sequence = none; samples = [] }
      ∷ record { sequence = some 7; samples = 1 ∷ 2 ∷ [] }
      ∷ [];
  config = two_frames;
  target_delay_frames = 0;
  ring_delay_frames = 1;
  pending_shift = negsuc 0;
  adapt_seen = 0;
  adapt_missed = 0;
  clean_windows = 0;
  shrink_after_windows = 10;
  windows_since_shrink = none;
  depth_window_min = 9;
  depth_window_reads = 0;
  play_sequence = some 5;
  playing = true;
  concealment = 0;
  last_len = 2;
  stats = record {
    frames_written = 30;
    frames_played = 30;
    frames_concealed = 3;
    frames_late = 0;
    frames_starved = 0;
    resyncs = 0;
    frames_trimmed = 0;
    last_resync_distance = 0;
  };
}

adapt-InBounds_example :
    Answers always
      (record holding { target_delay_frames = 2 })
      (adapt always (record holding { target_delay_frames = 2 }))
adapt-InBounds_example =
    adapt-InBounds always (record holding { target_delay_frames = 2 })
      (record {
        above = omega arith;
        below = omega arith;
        patient = omega arith;
        impatient = omega arith;
      })

trim_excess-Trimmed_example :
    Trimmed holding (trim_excess holding) 5 1 × ((trim_excess holding).pending_shift ≡ pos 0)
trim_excess-Trimmed_example = trim_excess-Trimmed holding 5 0 (omega arith) refl refl

read_due-Turn_example : Turn 0 toy holding 2 5 (read_due 0 toy holding 2)
read_due-Turn_example = read_due-Turn 0 toy holding 2 5 refl

write-Written_example : Written holding 5 8 (4 ∷ 4 ∷ []) (write 0 toy holding 8 (4 ∷ 4 ∷ []))
write-Written_example = write-Written 0 toy holding 5 8 (4 ∷ 4 ∷ []) (omega arith) refl refl
