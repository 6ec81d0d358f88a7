-- ===== src/Channels/Tests.antt =====
-- Channels of a few devices.
use jamjam_client.Prelude.{◌≡◌, refl, some, [], ◌∷◌}
use jamjam_client.Channels.{capture_attempts, capture_picks, index, channels_needed, from_settings}

attempts_of_third_and_fourth :
    capture_attempts 3 (some 4) 2 ≡ (2 ∷ 3 ∷ []) ∷ (0 ∷ 1 ∷ []) ∷ (0 ∷ []) ∷ []
unfolding capture_attempts capture_picks index
attempts_of_third_and_fourth = refl

needed_for_third_and_fourth : channels_needed (from_settings 3 (some 4)) ≡ 4
unfolding channels_needed from_settings index
needed_for_third_and_fourth = refl
