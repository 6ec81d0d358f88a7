-- ===== src/Link/Replay/Tests.antt =====
-- The replay window on a short history of counters.
use jamjam_client.Prelude.{◌≡◌, refl, true, [], ◌∷◌}
use jamjam_client.Link.Replay.{ReplayWindow, default, is_new, accept}
use jamjam_client.Link.Replay.History.{
  Tracks, default-Tracks, is_fresh, is_new-is_fresh, accept-Tracks,
}

-- The windows after 5, and after 5 and 9.
abbrev past_five : ReplayWindow
past_five = record { started = true; newest = 5; seen = 1 }

abbrev past_nine : ReplayWindow
past_nine = record { started = true; newest = 9; seen = 17 }

past_five-Tracks : Tracks past_five (5 ∷ [])
unfolding accept is_new
past_five-Tracks = accept-Tracks default [] 5 default-Tracks refl

past_nine-Tracks : Tracks past_nine (9 ∷ 5 ∷ [])
unfolding accept is_new
past_nine-Tracks = accept-Tracks past_five (5 ∷ []) 9 past_five-Tracks refl

is_new-is_fresh_example : is_new past_nine 5 ≡ is_fresh (9 ∷ 5 ∷ []) 5
is_new-is_fresh_example = is_new-is_fresh past_nine (9 ∷ 5 ∷ []) 5 past_nine-Tracks
