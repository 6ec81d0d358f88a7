-- ===== src/Playout/Types.antt =====
-- src/audio/playout.rs: the types of the play-out buffer.
use jamjam_client.Prelude.{ℕ, ◌+◌, ◌%◌, ◌^◌, Bool, Option, none, List, []}
use jamjam_client.Prelude.Int.{ℤ}

pub record PlayoutConfig : Type 0 where
  pub frame_samples : ℕ
  pub target_delay_frames : ℕ
  pub min_delay_frames : ℕ
  pub max_delay_frames : ℕ

pub data PlayoutResult : Type 0 where
  played concealed : ℕ → PlayoutResult
  priming padded starved : PlayoutResult

pub data WriteOutcome : Type 0 where
  accepted late duplicate resynced wrong_length : WriteOutcome

pub record PlayoutStats : Type 0 where
  pub frames_written : ℕ
  pub frames_played : ℕ
  pub frames_concealed : ℕ
  pub frames_late : ℕ
  pub frames_starved : ℕ
  pub resyncs : ℕ
  pub frames_trimmed : ℕ
  pub last_resync_distance : ℕ

abbrev pub no_stats : PlayoutStats
no_stats = record {
  frames_written = 0;
  frames_played = 0;
  frames_concealed = 0;
  frames_late = 0;
  frames_starved = 0;
  resyncs = 0;
  frames_trimmed = 0;
  last_resync_distance = 0;
}

-- `+= 1` on a `u64`.
abbrev pub bump : ℕ → ℕ
bump x = (x + 1) % 2 ^ 64

-- The samples are those of the first `len` places; the room behind them is left out.
pub record Slot (A : Type 0) : Type 0 where
  pub sequence : Option ℕ
  pub samples : List A

abbrev pub free_slot : {A : Type 0} → Slot A
free_slot = record { sequence = none; samples = [] }

-- `PcmPlc`, of which the buffer uses these: `new`, `store_frame`, `conceal_into` for a number of
-- samples, and `reset`.
pub record Plc (A P : Type 0) : Type 0 where
  pub fresh : ℕ → P
  pub store_frame : P → List A → P
  pub conceal_into : P → ℕ → P × List A
  pub reset : P → P

-- `pending_shift` is an `i32` in the code, far above any delay, and an integer here.
pub record PlayoutBuffer (A P : Type 0) : Type 0 where
  pub slots : List (Slot A)
  pub config : PlayoutConfig
  pub target_delay_frames : ℕ
  pub ring_delay_frames : ℕ
  pub pending_shift : ℤ
  pub adapt_seen : ℕ
  pub adapt_missed : ℕ
  pub clean_windows : ℕ
  pub shrink_after_windows : ℕ
  pub windows_since_shrink : Option ℕ
  pub depth_window_min : ℕ
  pub depth_window_reads : ℕ
  pub play_sequence : Option ℕ
  pub playing : Bool
  pub concealment : P
  pub last_len : ℕ
  pub stats : PlayoutStats
