-- ===== src/Verdict.antt =====
-- src/network/bandwidth.rs, `BandwidthVerdict`: when the narrowness of a link is reported. The moments
-- are milliseconds on one clock.
pub mod Streak
mod Tests
use jamjam_client.Prelude.{
  ℕ, ◌+◌, ◌-◌, ◌%◌, ◌^◌, Bool, true, false, Option, none, some, ltb, leb, if◌then◌else◌,
}

pub data BandwidthStatus : Type 0 where
  sufficient marginal insufficient : BandwidthStatus

abbrev pub confirm_intervals : ℕ
confirm_intervals = 3

abbrev pub startup_grace : ℕ
startup_grace = 4000

pub record BandwidthVerdict : Type 0 where
  pub connected_at : Option ℕ
  pub insufficient_streak : ℕ

abbrev pub default : BandwidthVerdict
default = record { connected_at = none; insufficient_streak = 0 }

abbrev pub is_sufficient : BandwidthStatus → Bool
is_sufficient BandwidthStatus.sufficient = true
is_sufficient _ = false

abbrev pub get_or_insert : Option ℕ → ℕ → ℕ
get_or_insert none now = now
get_or_insert (some at) now = at

-- `confirm_at`, of when the link was first seen, the streak and the reading.
unfoldable pub confirm_since :
    ℕ → ℕ → Option BandwidthStatus → ℕ → BandwidthVerdict × Option BandwidthStatus
confirm_since at streak none now =
    (record { connected_at = some at; insufficient_streak = 0 }, none)
confirm_since at streak (some raw) now =
    if ltb (now - at) startup_grace
    then (
      record { connected_at = some at; insufficient_streak = 0 },
      some BandwidthStatus.sufficient,
    )
    else if is_sufficient raw
    then (record { connected_at = some at; insufficient_streak = 0 }, some raw)
    else if leb confirm_intervals ((streak + 1) % 2 ^ 32)
    then (record { connected_at = some at; insufficient_streak = (streak + 1) % 2 ^ 32 }, some raw)
    else (
      record { connected_at = some at; insufficient_streak = (streak + 1) % 2 ^ 32 },
      some BandwidthStatus.sufficient,
    )

unfoldable pub confirm_at :
    BandwidthVerdict → Option BandwidthStatus → ℕ → BandwidthVerdict × Option BandwidthStatus
unfolding confirm_since
confirm_at v raw now =
    confirm_since (get_or_insert v.connected_at now) v.insufficient_streak raw now
