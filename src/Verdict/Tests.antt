-- ===== src/Verdict/Tests.antt =====
-- Readings of a link, the latest first.
use jamjam_client.Prelude.{◌≡◌, none, some, List, [], ◌∷◌, arith}
use jamjam_client.Verdict.{BandwidthStatus, confirm_at}
use jamjam_client.Verdict.Streak.{Reading, after_all, told, confirm_at-bad_run}

abbrev earlier : List Reading
earlier =
    (some BandwidthStatus.marginal, 6000)
    ∷ (some BandwidthStatus.insufficient, 5000)
    ∷ (some BandwidthStatus.insufficient, 1000)
    ∷ (none, 0)
    ∷ []

confirm_at-bad_run_example :
    confirm_at (after_all earlier) (some BandwidthStatus.insufficient) 7000
    ≡ told 0 3 (some BandwidthStatus.insufficient)
confirm_at-bad_run_example =
    confirm_at-bad_run (some BandwidthStatus.insufficient, 7000) earlier (omega arith)
