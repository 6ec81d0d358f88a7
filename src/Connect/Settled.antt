-- ===== src/Connect/Settled.antt =====
-- What the connectivity check settles on.
use jamjam_client.Prelude.{
  ℕ, ◌≡◌, refl, subst, sym, true, Option, none, some, List, [], ◌∷◌, arith, ltb, ltb→lt, Bool-cases,
  Option-cases, inl, inr,
}
use jamjam_client.Prelude.Members.{
  OneOf, keep, keep-OneOf, OneOf-keep, filter_map, filter_map-OneOf, OneOf-filter_map, minimum?,
  minimum?-OneOf, minimum?-none, AllOf, AllOf-OneOf, all_of,
}
use jamjam_client.Connect.Types.{Probing, Verdict}
use jamjam_client.Connect.Probes.{reply_count, median}
use jamjam_client.Connect.Assess.{
  pool, settled_at, score, near_best, preferred, choose, before, verdict_on, settle, wait_or_settle,
  assess_from, assess,
}
use jamjam_client.Connect.Pool.{
  median-pool, score-pool, pool_replied, pool-IsSteady, pool_empty, Prefers, preferred-OneOf,
  preferred-Prefers,
}
use jamjam_client.Connect.Verdicts.{
  NotBetter, IsChoice, Assessed, unanswered, waits, settles, least_of, awaited, PastAll, past_each,
  past_none, past_some,
}

chosen :
    (p : Probing) {j : ℕ} (ks : List ℕ)
    → OneOf j ks
    → (index : ℕ) × (choose p ks ≡ some index) × OneOf index ks × AllOf (Prefers p index) ks
unfolding choose
chosen p [] m = elim m [ ]
chosen p (k ∷ ks) m = (preferred p k ks, refl, preferred-OneOf p k ks, preferred-Prefers p k ks)

abbrev near_ones : Probing → ℕ → List ℕ
near_ones p best = keep (λ i. near_best best (score p i)) (pool p)

not_better :
    (p : Probing) (best index : ℕ)
    → AllOf (Prefers p index) (near_ones p best)
    → AllOf (NotBetter p best index) (pool p)
not_better p best index h = all_of (NotBetter p best index) (pool p) λ j m.
    elim (Bool-cases (near_best best (score p j))) [
      | inl t ↦
          rw t (AllOf-OneOf (Prefers p index) h (OneOf-keep (λ i. near_best best (score p i)) t m))
      | inr f ↦ rw f refl
    ]

near_itself : (best : ℕ) → near_best best (some best) ≡ true
near_itself best = ground arith

-- The choice, among the near ones of the pool.
abbrev Chosen : Probing → Type 0
Chosen p =
    (index : ℕ) × (rtt : ℕ) × (settle p ≡ some (Verdict.fastest index rtt (reply_count p index)))
    × IsChoice p index rtt

choose_near :
    (p : Probing) (best : ℕ) → minimum? (filter_map (score p) (pool p)) ≡ some best → Chosen p
unfolding settle verdict_on
choose_near p best e =
    let source =
      filter_map-OneOf (score p) (pool p) (minimum?-OneOf (filter_map (score p) (pool p)) best e) in
    let near_source =
      OneOf-keep (λ i. near_best best (score p i)) {a = source.0} (rw source.2 (near_itself best))
        source.1 in
    let pick = chosen p (near_ones p best) near_source in
    let among = keep-OneOf (λ i. near_best best (score p i)) (pool p) pick.2 in
    let time = median-pool p among.0 in
    (
      pick.0,
      time.0,
      rw (e, pick.1, time.1) refl,
      record {
        among = among.0;
        replied = pool_replied p among.0;
        steady = pool-IsSteady p among.0;
        timed = time.1;
        best = best;
        least = least_of p (score p) best (λ j m. score-pool p m) e;
        near = among.1;
        preferred = not_better p best pick.0 pick.3;
      },
    )

settle_chooses : (p : Probing) {i : ℕ} → OneOf i (pool p) → Chosen p
settle_chooses p {i} m = elim (Option-cases (minimum? (filter_map (score p) (pool p)))) [
  | inl e ↦
      let s = score-pool p m in
      absurd
        (minimum?-none (filter_map (score p) (pool p)) s.0 e (OneOf-filter_map (score p) s.1 m))
  | inr (best, e) ↦ choose_near p best e
]

settled-Assessed :
    (p : Probing) (now fastest : ℕ)
    → minimum? (filter_map (median p) (pool p)) ≡ some fastest
    → PastAll p fastest now
    → Assessed p now (settle p)
settled-Assessed p now fastest e past =
    let source =
      filter_map-OneOf (median p) (pool p)
        (minimum?-OneOf (filter_map (median p) (pool p)) fastest e) in
    let choice = settle_chooses p source.1 in
    subst (Assessed p now) (sym choice.2) (
      settles fastest choice.0 choice.1 (least_of p (median p) fastest (λ j m. median-pool p m) e)
        (past_each p fastest now past) choice.3)

waited-Assessed :
    (p : Probing) (now fastest : ℕ) (settled : Option ℕ)
    → minimum? (filter_map (median p) (pool p)) ≡ some fastest
    → settled_at p fastest ≡ settled
    → Assessed p now (wait_or_settle p (before now settled))
unfolding wait_or_settle
waited-Assessed p now fastest none e s =
    settled-Assessed p now fastest e (past_none p fastest now s)
waited-Assessed p now fastest (some until) e s = elim (Bool-cases (ltb now until)) [
  | inl t ↦ rw t (
      waits fastest until (least_of p (median p) fastest (λ j m. median-pool p m) e)
        (ltb→lt now until t) (awaited p fastest until s))
  | inr f ↦ rw f (settled-Assessed p now fastest e (past_some p fastest now until s (ground arith)))
]

nobody_timed :
    (p : Probing) → minimum? (filter_map (median p) (pool p)) ≡ none → (i : ℕ) → ¬ OneOf i (pool p)
nobody_timed p e i m =
    let found = median-pool p m in
    minimum?-none (filter_map (median p) (pool p)) found.0 e (OneOf-filter_map (median p) found.1 m)

assess_from-Assessed :
    (p : Probing) (now : ℕ) (o : Option ℕ)
    → minimum? (filter_map (median p) (pool p)) ≡ o
    → Assessed p now (assess_from now p o)
unfolding assess_from
assess_from-Assessed p now none e = unanswered (pool_empty p (nobody_timed p e))
assess_from-Assessed p now (some fastest) e =
    waited-Assessed p now fastest (settled_at p fastest) e refl

-- Whatever has been sent and heard, the check never panics. It reports no answer only when no candidate
-- has replied. It waits only while a probe is still out that went out less than the shortest median of
-- the pool and 2 ms ago, and until this holds of no probe. Otherwise it holds of none already, and it
-- settles on a candidate of the pool, with its median: one that has answered at least half of its
-- probes, unless no candidate that answered has; whose score is within 2 ms of the best of the pool;
-- and to which no other such candidate is preferred for its kind of route, or for a better score on an
-- equal kind.
pub assess-Assessed : (now : ℕ) (p : Probing) → Assessed p now (assess now p)
unfolding assess
assess-Assessed now p = assess_from-Assessed p now (minimum? (filter_map (median p) (pool p))) refl
