-- ===== src/Verdict/Streak.antt =====
-- The verdict against the readings so far.
use jamjam_client.Prelude.{
  ℕ, ◌%◌, ◌^◌, ◌≤◌, ◌<◌, length, ◌+◌, ◌-◌, ◌≡◌, refl, ap, ◌∙◌, inl, inr, Bool, true, false, not,
  ◌&&◌, Option, none, some, List, [], ◌∷◌, arith, ltb, leb, if◌then◌else◌, Bool-cases,
}
use jamjam_client.Verdict.{
  BandwidthStatus, BandwidthVerdict, default, is_sufficient, confirm_since, confirm_at,
}

-- A reading, and when it was made.
abbrev pub Reading : Type 0
Reading = Option BandwidthStatus × ℕ

-- The moment of the earliest reading, the last of the list.
abbrev pub first_moment : Reading → List Reading → ℕ
first_moment r [] = r.1
first_moment r (earlier ∷ rest) = first_moment earlier rest

-- Whether a reading, made on a link first seen at `at`, counts against the link.
abbrev pub counts_against : ℕ → Reading → Bool
counts_against at (none, now) = false
counts_against at (some raw, now) = not (ltb (now - at) 4000) && not (is_sufficient raw)

-- How many of the latest readings in a row do.
abbrev pub bad_run : ℕ → List Reading → ℕ
bad_run at [] = 0
bad_run at (r ∷ rs) = if counts_against at r then bad_run at rs + 1 else 0

-- The state after the readings, the latest first.
unfoldable pub after_all : List Reading → BandwidthVerdict
after_all [] = default
after_all (r ∷ rs) = (confirm_at (after_all rs) r.0 r.1).0

sufficient_only :
    (raw : BandwidthStatus) → is_sufficient raw ≡ true → raw ≡ BandwidthStatus.sufficient
sufficient_only BandwidthStatus.sufficient e = refl
sufficient_only BandwidthStatus.marginal e = absurd (ground (arith, e))
sufficient_only BandwidthStatus.insufficient e = absurd (ground (arith, e))

-- What should be reported for the latest reading.
abbrev pub reported : Option BandwidthStatus → ℕ → Option BandwidthStatus
reported none run = none
reported (some raw) run = if leb 3 run then some raw else some BandwidthStatus.sufficient

-- The pair that a reading gives, for the run of readings against the link.
abbrev pub told : ℕ → ℕ → Option BandwidthStatus → BandwidthVerdict × Option BandwidthStatus
told at run raw = (record { connected_at = some at; insufficient_streak = run }, reported raw run)

confirm-told :
    (at streak : ℕ) (raw : Option BandwidthStatus) (now : ℕ)
    → streak + 1 < 2 ^ 32
    → confirm_since at streak raw now
      ≡ told at (if counts_against at (raw, now) then streak + 1 else 0) raw
unfolding confirm_since
confirm-told at streak none now h = refl
confirm-told at streak (some raw) now h =
    let e : (streak + 1) % 2 ^ 32 ≡ streak + 1 = omega arith in
    elim (Bool-cases (ltb (now - at) 4000)) [
      | inl early ↦ rw (e, early) refl
      | inr late ↦ elim (Bool-cases (is_sufficient raw)) [
        | inl good ↦
            rw (e, late, good)
              (ap (λ s. (record { connected_at = some at; insufficient_streak = 0 }, some s))
                (sufficient_only raw good))
        | inr bad ↦ elim (Bool-cases (leb 3 (streak + 1))) [
          | inl long ↦ rw (e, late, bad, long) refl
          | inr short ↦ rw (e, late, bad, short) refl
        ]
      ]
    ]

bad_run-le : (at : ℕ) (rs : List Reading) → bad_run at rs ≤ length rs
bad_run-le at [] = omega arith
bad_run-le at (r ∷ rs) = elim (Bool-cases (counts_against at r)) [
  | inl e ↦ rw e (omega (arith, bad_run-le at rs))
  | inr e ↦ rw e (omega arith)
]

-- For any readings (fewer than 2 ^ 32, the latest first): what is reported is the latest reading if
-- the latest three or more in a row were made at least four seconds after the first and were not
-- sufficient; without a signal it is none, and otherwise that the link is sufficient.
pub confirm_at-bad_run :
    (r : Reading) (rs : List Reading)
    → length rs + 1 < 2 ^ 32
    → confirm_at (after_all rs) r.0 r.1
      ≡ told (first_moment r rs) (bad_run (first_moment r rs) (r ∷ rs)) r.0
unfolding confirm_at after_all
confirm_at-bad_run r [] h = confirm-told r.1 0 r.0 r.1 (omega arith)
confirm_at-bad_run r (q ∷ rs) h =
    let at = first_moment q rs in
    ap (λ (w : BandwidthVerdict × Option BandwidthStatus). confirm_at w.0 r.0 r.1)
      (confirm_at-bad_run q rs (omega arith))
    ∙ confirm-told at (bad_run at (q ∷ rs)) r.0 r.1 (omega (arith, bad_run-le at (q ∷ rs)))
