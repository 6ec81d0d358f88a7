-- ===== src/Playout/Delay.antt =====
-- src/audio/playout.rs: how long audio is held back, and how that follows the link.
use jamjam_client.Prelude.{
  ℕ, ◌+◌, ◌-◌, ◌*◌, ◌%◌, ◌^◌, min, max, Bool, false, not, Option, none, some, ltb, leb, ◌==◌,
  if◌then◌else◌, then_some,
}
use jamjam_client.Prelude.Int.{ℤ, pos, negsuc}
use jamjam_client.Playout.Types.{PlayoutConfig, PlayoutBuffer}

abbrev pub clean_windows_before_shrink : ℕ
clean_windows_before_shrink = 10

abbrev pub bounce_within_windows : ℕ
bounce_within_windows = 3

abbrev pub max_clean_windows_before_shrink : ℕ
max_clean_windows_before_shrink = 80

abbrev pub min_adapt_window_frames : ℕ
min_adapt_window_frames = 20

-- `usize::MAX`
abbrev pub usize_max : ℕ
usize_max = 2 ^ 64 - 1

unfoldable pub for_delay : ℕ → ℕ → PlayoutConfig
for_delay frame_samples target_delay_frames = record {
  frame_samples = frame_samples;
  target_delay_frames = target_delay_frames;
  min_delay_frames = if target_delay_frames == 0 then 0 else 1;
  max_delay_frames = if target_delay_frames == 0 then 0 else (target_delay_frames * 2 + 2) % 2 ^ 32;
}

unfoldable pub capacity_frames : ℕ → ℕ
capacity_frames ring_delay_frames = max (ring_delay_frames * 2 + 2) 4

unfoldable pub slot_samples : PlayoutConfig → ℕ
slot_samples config = max config.frame_samples 1 * 3

-- `f32::clamp`'s integer kin, `clamp`.
abbrev pub clamp : ℕ → ℕ → ℕ → ℕ
clamp x low high = if ltb x low then low else if ltb high x then high else x

-- `a - b`, and `shift + (a - b)`, as integers.
abbrev pub diff : ℕ → ℕ → ℤ
diff a b = if leb b a then pos (a - b) else negsuc (b - a - 1)

abbrev pub add_diff : ℤ → ℕ → ℕ → ℤ
add_diff (pos n) a b = diff (n + a) b
add_diff (negsuc n) a b = diff a (b + (n + 1))

module _ {A P : Type 0} where
  unfoldable pub restart_depth_window : PlayoutBuffer A P → PlayoutBuffer A P
  restart_depth_window b = record b { depth_window_min = usize_max; depth_window_reads = 0 }

  unfoldable pub set_target_delay_frames : PlayoutBuffer A P → ℕ → PlayoutBuffer A P
  unfolding restart_depth_window
  set_target_delay_frames b asked =
      let config = b.config in
      let frames =
        clamp asked config.min_delay_frames (max config.max_delay_frames config.min_delay_frames) in
      let b' =
        if b.playing
        then restart_depth_window
            (record b { pending_shift = add_diff b.pending_shift frames b.target_delay_frames })
        else b in
      record b' { target_delay_frames = frames }

  unfoldable pub set_delay : PlayoutBuffer A P → ℕ → PlayoutBuffer A P
  unfolding for_delay set_target_delay_frames
  set_delay b frames =
      let bounds = for_delay b.config.frame_samples frames in
      let most = min bounds.max_delay_frames b.ring_delay_frames in
      let config = record b.config {
        min_delay_frames = bounds.min_delay_frames;
        max_delay_frames = most;
        target_delay_frames = min frames most;
      } in
      set_target_delay_frames
        (record b {
          config = config;
          clean_windows = 0;
          shrink_after_windows = clean_windows_before_shrink;
          windows_since_shrink = none;
        })
        config.target_delay_frames

-- `is_some_and(|n| n <= BOUNCE_WITHIN_WINDOWS)`
abbrev pub has_bounced : Option ℕ → Bool
has_bounced none = false
has_bounced (some n) = leb n bounce_within_windows

-- `miss_rate > GROW_ABOVE_MISS_RATE` and `miss_rate < SHRINK_BELOW_MISS_RATE`, of the missing frames
-- and all frames of a window.
pub record Rates : Type 0 where
  pub grows : ℕ → ℕ → Bool
  pub shrinks : ℕ → ℕ → Bool

module _ {A P : Type 0} (rates : Rates) where
  unfoldable pub grow : PlayoutBuffer A P → PlayoutBuffer A P
  unfolding set_target_delay_frames
  grow b =
      set_target_delay_frames
        (record b {
          clean_windows = 0;
          shrink_after_windows =
              if has_bounced b.windows_since_shrink
              then min (b.shrink_after_windows * 2) max_clean_windows_before_shrink
              else b.shrink_after_windows;
          windows_since_shrink = none;
        })
        (b.target_delay_frames + 1)

  unfoldable pub clean : PlayoutBuffer A P → PlayoutBuffer A P
  unfolding set_target_delay_frames
  clean b =
      if leb b.shrink_after_windows (b.clean_windows + 1)
      then (let b' =
            set_target_delay_frames (record b { clean_windows = 0 }) (b.target_delay_frames - 1) in
          if not (b'.target_delay_frames == b.target_delay_frames)
          then record b' { windows_since_shrink = some 0 }
          else b')
      else record b { clean_windows = b.clean_windows + 1 }

  -- The window's totals, and the windows since the last shrink, taken down.
  unfoldable pub note_window : PlayoutBuffer A P → PlayoutBuffer A P
  note_window b = record b {
    adapt_seen =
        (b.stats.frames_played + b.stats.frames_concealed + b.stats.frames_starved) % 2 ^ 64;
    adapt_missed = (b.stats.frames_concealed + b.stats.frames_starved) % 2 ^ 64;
    windows_since_shrink = elim b.windows_since_shrink [ none ↦ none | some n ↦ some (n + 1) ];
  }

  unfoldable pub adapt : PlayoutBuffer A P → PlayoutBuffer A P × Option ℕ
  unfolding grow clean note_window
  adapt b =
      let b' = note_window b in
      let window = b'.adapt_seen - b.adapt_seen in
      let missed = b'.adapt_missed - b.adapt_missed in
      if ltb window min_adapt_window_frames
      then (b, none)
      else (let moved =
            if rates.grows missed window
            then grow b'
            else if rates.shrinks missed window
            then clean b'
            else record b' { clean_windows = 0 } in
          (
            moved,
            then_some (not (moved.target_delay_frames == b.target_delay_frames))
                moved.target_delay_frames,
          ))
