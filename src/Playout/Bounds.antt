-- ===== src/Playout/Bounds.antt =====
-- The delay stays within its bounds, however the link behaves.
use jamjam_client.Prelude.{
  ℕ, ◌+◌, ◌-◌, ◌*◌, ◌≤◌, min, max, ◌≡◌, refl, inl, inr, not, Option, none, some, arith, ltb, leb,
  ◌==◌, if◌then◌else◌, then_some, Bool-cases, by_if,
}
use jamjam_client.Playout.Types.{PlayoutBuffer}
use jamjam_client.Playout.Delay.{
  clamp, restart_depth_window, set_target_delay_frames, Rates, has_bounced, grow, clean,
  note_window, adapt,
}

module _ {A P : Type 0} where
  pub record InBounds (b : PlayoutBuffer A P) : Type 0 where
    pub above : b.config.min_delay_frames ≤ b.target_delay_frames
    pub below : b.target_delay_frames ≤ max b.config.max_delay_frames b.config.min_delay_frames
    pub patient : 10 ≤ b.shrink_after_windows
    pub impatient : b.shrink_after_windows ≤ 80

  -- What moving the delay leaves alone, and where the delay is then.
  pub record Moved (b b' : PlayoutBuffer A P) (asked : ℕ) : Type 0 where
    pub same_config : b'.config ≡ b.config
    pub same_patience : b'.shrink_after_windows ≡ b.shrink_after_windows
    pub target :
        b'.target_delay_frames
        ≡ clamp asked b.config.min_delay_frames
            (max b.config.max_delay_frames b.config.min_delay_frames)

  pub set_target-Moved :
      (b : PlayoutBuffer A P) (asked : ℕ) → Moved b (set_target_delay_frames b asked) asked
  unfolding set_target_delay_frames restart_depth_window
  set_target-Moved b asked = elim (Bool-cases b.playing) [
    | inl e ↦ record { same_config = rw e refl; same_patience = rw e refl; target = refl }
    | inr e ↦ record { same_config = rw e refl; same_patience = rw e refl; target = refl }
  ]

  -- At most one frame from `b` to `b'`, and still in bounds.
  abbrev pub Near : PlayoutBuffer A P → PlayoutBuffer A P → Type 0
  Near b b' =
      InBounds b'
      × (b'.target_delay_frames ≤ b.target_delay_frames + 1)
      × (b.target_delay_frames ≤ b'.target_delay_frames + 1)
      × (b'.config ≡ b.config)

  moved-Near :
      (b b' : PlayoutBuffer A P) (asked : ℕ)
      → InBounds b
      → b'.config ≡ b.config
      → 10 ≤ b'.shrink_after_windows
      → b'.shrink_after_windows ≤ 80
      → b'.target_delay_frames
        ≡ clamp asked b.config.min_delay_frames
            (max b.config.max_delay_frames b.config.min_delay_frames)
      → asked ≤ b.target_delay_frames + 1
      → b.target_delay_frames ≤ asked + 1
      → Near b b'
  moved-Near b b' asked h same patient impatient e up down = (
    record {
      above = rw same (ground (arith, h.above, h.below));
      below = rw same (ground (arith, h.above, h.below));
      patient = patient;
      impatient = impatient;
    },
    ground (arith, h.above, h.below),
    ground (arith, h.above, h.below),
    same,
  )

module _ {A P : Type 0} (rates : Rates) where
  grow-Near : (b : PlayoutBuffer A P) → InBounds b → Near b (grow rates b)
  unfolding grow
  grow-Near b h =
      let patience =
        if has_bounced b.windows_since_shrink
        then min (b.shrink_after_windows * 2) 80
        else b.shrink_after_windows in
      let b0 = record b {
        clean_windows = 0;
        shrink_after_windows = patience;
        windows_since_shrink = none;
      } in
      let m = set_target-Moved b0 (b.target_delay_frames + 1) in
      moved-Near b (grow rates b) (b.target_delay_frames + 1) h m.same_config
        (rw m.same_patience (ground (arith, h.patient, h.impatient)))
        (rw m.same_patience (ground (arith, h.patient, h.impatient))) m.target (omega arith)
        (omega arith)

  shrunk : PlayoutBuffer A P → PlayoutBuffer A P
  shrunk b = set_target_delay_frames (record b { clean_windows = 0 }) (b.target_delay_frames - 1)

  shrunk-Near : (b : PlayoutBuffer A P) → InBounds b → Near b (shrunk b)
  unfolding shrunk
  shrunk-Near b h =
      let m = set_target-Moved (record b { clean_windows = 0 }) (b.target_delay_frames - 1) in
      moved-Near b (shrunk b) (b.target_delay_frames - 1) h m.same_config
        (rw m.same_patience h.patient) (rw m.same_patience h.impatient) m.target (omega arith)
        (omega arith)

  -- Fields that the bounds do not look at.
  Near-fields :
      (b b' : PlayoutBuffer A P) (n : ℕ) (w : Option ℕ)
      → Near b b'
      → Near b (record b' { windows_since_shrink = w; clean_windows = n })
  Near-fields b b' n w (h, up, down, same) = (
    record { above = h.above; below = h.below; patient = h.patient; impatient = h.impatient },
    up,
    down,
    same,
  )

  clean-Near : (b : PlayoutBuffer A P) → InBounds b → Near b (clean rates b)
  unfolding clean shrunk
  clean-Near b h = elim (Bool-cases (leb b.shrink_after_windows (b.clean_windows + 1))) [
    | inr e ↦ rw e (
        Near-fields b b (b.clean_windows + 1) b.windows_since_shrink
          (h, omega arith, omega arith, refl))
    | inl e ↦ elim (Bool-cases (not ((shrunk b).target_delay_frames == b.target_delay_frames))) [
      | inl moved ↦
          rw (e, moved)
            (Near-fields b (shrunk b) (shrunk b).clean_windows (some 0) (shrunk-Near b h))
      | inr still ↦ rw (e, still) (shrunk-Near b h)
    ]
  ]

  -- What `adapt` gives: a buffer near the one before, and its delay if that moved.
  pub record Answers (b : PlayoutBuffer A P) (r : PlayoutBuffer A P × Option ℕ) : Type 0 where
    pub bounded : InBounds r.0
    pub rises : r.0.target_delay_frames ≤ b.target_delay_frames + 1
    pub falls : b.target_delay_frames ≤ r.0.target_delay_frames + 1
    pub answer :
        r.1
        ≡ then_some (not (r.0.target_delay_frames == b.target_delay_frames)) r.0.target_delay_frames

  Answers-still : (b : PlayoutBuffer A P) → InBounds b → Answers b (b, none)
  Answers-still b h = record {
    bounded = h;
    rises = omega arith;
    falls = omega arith;
    answer = ground arith;
  }

  Near-Answers :
      (b : PlayoutBuffer A P) {b' : PlayoutBuffer A P}
      → Near (note_window rates b) b'
      → Answers b (
        b',
        then_some (not (b'.target_delay_frames == b.target_delay_frames)) b'.target_delay_frames,
      )
  unfolding note_window
  Near-Answers b (h, up, down, _) = record { bounded = h; rises = up; falls = down; answer = refl }

  -- Within its bounds (the delay between the least and the most, the wait before a shrink between 10
  -- and 80 windows), the buffer stays within them whatever the loss rate is, its delay moves by at
  -- most one frame, and the new delay is returned exactly when it moved.
  pub adapt-InBounds : (b : PlayoutBuffer A P) → InBounds b → Answers b (adapt rates b)
  unfolding adapt note_window
  adapt-InBounds b h =
      let b' = note_window rates b in
      let h' : InBounds b' = record {
        above = h.above;
        below = h.below;
        patient = h.patient;
        impatient = h.impatient;
      } in
      let window = b'.adapt_seen - b.adapt_seen in
      let missed = b'.adapt_missed - b.adapt_missed in
      by_if (Answers b) (ltb window 20) _ _ (λ _. Answers-still b h)
        (λ _. Near-Answers b (
          by_if (Near b') (rates.grows missed window) _ _ (λ _. grow-Near b' h')
            (λ _.
              by_if (Near b') (rates.shrinks missed window) _ _ (λ _. clean-Near b' h')
                (λ _.
                  Near-fields b' b' 0 b'.windows_since_shrink
                    (h', omega arith, omega arith, refl)))))
