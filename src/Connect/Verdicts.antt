-- ===== src/Connect/Verdicts.antt =====
-- What the connectivity check may say, and when it waits.
use jamjam_client.Prelude.{
  ℕ, ◌+◌, ◌≤◌, ◌<◌, ◌≡◌, refl, Option-cases, sym, true, not, ◌||◌, Option, none, some, List, [],
  ◌∷◌, map, length, get_elem?, arith, inl, inr,
}
use jamjam_client.Prelude.Members.{
  OneOf, first, later, filter_map, filter_map-OneOf, OneOf-filter_map, minimum?, minimum?-le,
  minimum?-OneOf, maximum?-OneOf, le-maximum?, maximum?-none, AllOf, all_of, range_from,
  range_from-OneOf, OneOf-append, OneOf_before, OneOf_after, AllOf-OneOf, map-OneOf, OneOf-map,
}
use jamjam_client.Connect.Types.{Probing, Verdict}
use jamjam_client.Connect.Probes.{probe_rounds, cell, reply_count, median}
use jamjam_client.Connect.Pool.{IsSteady}
use jamjam_client.Connect.Assess.{
  near_enough, preference_of, all_candidates, pool, still_out, outstanding, settled_at, score,
  near_best, at_most,
}

-- A duration is known, and at least so long.
abbrev pub AtLeast : ℕ → Option ℕ → Type 0
AtLeast d none = ⊥
AtLeast d (some e) = d ≤ e

-- The shortest duration of the pool, which one of the pool has.
abbrev pub IsLeast : Probing → (ℕ → Option ℕ) → ℕ → Type 0
IsLeast p f d =
    AllOf (λ j. AtLeast d (f j)) (pool p) × ((j : ℕ) × OneOf j (pool p) × (f j ≡ some d))

-- Unless its score is far from the best, a candidate is not preferred to the one chosen.
abbrev pub NotBetter : Probing → ℕ → ℕ → ℕ → Type 0
NotBetter p best i j =
    (not (near_best best (score p j))
      || at_most (preference_of (get_elem? p.candidates j)) (score p j)
          (preference_of (get_elem? p.candidates i)) (score p i))
    ≡ true

-- What the check may say, and on what grounds. `fastest` is the shortest median of the pool, `best`
-- its best score.
pub record IsChoice (p : Probing) (index rtt : ℕ) : Type 0 where
  pub among : OneOf index (pool p)
  pub replied : 0 < reply_count p index
  pub steady : IsSteady p index
  pub timed : median p index ≡ some rtt
  pub best : ℕ
  pub least : IsLeast p (score p) best
  pub near : near_best best (score p index) ≡ true
  pub preferred : AllOf (NotBetter p best index) (pool p)

-- A probe that went out and is not answered could by `limit` no longer come back as fast as `fastest`,
-- and 2 ms.
abbrev pub PastOne : ℕ → ℕ → Option ℕ → Option ℕ → Type 0
PastOne fastest limit (some reply) sent = Unit
PastOne fastest limit none none = Unit
PastOne fastest limit none (some sent) = sent + fastest + near_enough ≤ limit

-- So for the probes of every candidate and every round.
abbrev pub PastEach : Probing → ℕ → ℕ → Type 0
PastEach p fastest limit =
    AllOf
      (λ i.
        AllOf (λ r. PastOne fastest limit (cell p.rtt i r) (cell p.sent_at i r))
          (range_from 0 probe_rounds))
      (all_candidates p)

pub record IsAwaited (p : Probing) (fastest until : ℕ) : Type 0 where
  pub index : ℕ
  pub round : ℕ
  pub sent : ℕ
  pub candidate : index < length p.candidates
  pub in_rounds : round < probe_rounds
  pub unanswered : cell p.rtt index round ≡ none
  pub went_out : cell p.sent_at index round ≡ some sent
  pub until_then : until ≡ sent + fastest + near_enough
  pub latest : PastEach p fastest until

pub data Assessed (p : Probing) (now : ℕ) : Option Verdict → Type 0 where
  unanswered :
      AllOf (λ i. reply_count p i ≡ 0) (all_candidates p) → Assessed p now (some Verdict.no_answer)
  waits :
      (fastest until : ℕ)
      → IsLeast p (median p) fastest
      → now < until
      → IsAwaited p fastest until
      → Assessed p now (some (Verdict.wait_until until))
  settles :
      (fastest index rtt : ℕ)
      → IsLeast p (median p) fastest
      → PastEach p fastest now
      → IsChoice p index rtt
      → Assessed p now (some (Verdict.fastest index rtt (reply_count p index)))

pub least_of :
    (p : Probing) (f : ℕ → Option ℕ) (d : ℕ)
    → ((j : ℕ) → OneOf j (pool p) → (e : ℕ) × (f j ≡ some e))
    → minimum? (filter_map f (pool p)) ≡ some d
    → IsLeast p f d
least_of p f d total e =
    let source = filter_map-OneOf f (pool p) (minimum?-OneOf (filter_map f (pool p)) d e) in
    (
      all_of (λ j. AtLeast d (f j)) (pool p)
          λ j h.
            let found = total j h in
            rw found.1
              (minimum?-le (filter_map f (pool p)) d found.0 e (OneOf-filter_map f found.1 h)),
      source,
    )

outstanding-OneOf :
    (p : Probing) {sent : ℕ} (is' : List ℕ)
    → OneOf sent (outstanding p is')
    → (i : ℕ) × (round : ℕ) × OneOf i is'
      × (round < probe_rounds)
      × (still_out p i round ≡ some sent)
unfolding outstanding
outstanding-OneOf p [] m = elim m [ ]
outstanding-OneOf p (i ∷ is') m =
    elim (OneOf-append (filter_map (still_out p i) (range_from 0 probe_rounds)) (outstanding p is')
      m) [
        | inl l ↦
            let found = filter_map-OneOf (still_out p i) (range_from 0 probe_rounds) l in
            (i, found.0, first, omega (arith, range_from-OneOf 0 probe_rounds found.1), found.2)
        | inr r ↦
            let found = outstanding-OneOf p is' r in
            (found.0, found.1, later found.2, found.3, found.4)
      ]

abbrev pub PastAll : Probing → ℕ → ℕ → Type 0
PastAll p fastest now =
    AllOf (λ sent. sent + fastest + near_enough ≤ now) (outstanding p (all_candidates p))

pub past_none :
    (p : Probing) (fastest now : ℕ) → settled_at p fastest ≡ none → PastAll p fastest now
unfolding settled_at
past_none p fastest now e =
    let probes = outstanding p (all_candidates p) in
    all_of (λ sent. sent + fastest + near_enough ≤ now) probes
      λ s m. absurd (
        maximum?-none (map (λ (t : ℕ). t + fastest + near_enough) probes)
          (s + fastest + near_enough) e (OneOf-map (λ (t : ℕ). t + fastest + near_enough) m))

pub past_some :
    (p : Probing) (fastest now until : ℕ)
    → settled_at p fastest ≡ some until
    → until ≤ now
    → PastAll p fastest now
unfolding settled_at
past_some p fastest now until e h =
    let probes = outstanding p (all_candidates p) in
    all_of (λ sent. sent + fastest + near_enough ≤ now) probes
      λ s m. omega (
        arith,
        le-maximum? (map (λ (t : ℕ). t + fastest + near_enough) probes) until
            (s + fastest + near_enough) e (OneOf-map (λ (t : ℕ). t + fastest + near_enough) m),
      )

was_out :
    (p : Probing) (i r : ℕ) {sent : ℕ}
    → still_out p i r ≡ some sent
    → (cell p.rtt i r ≡ none) × (cell p.sent_at i r ≡ some sent)
unfolding still_out
was_out p i r e = elim (Option-cases (cell p.rtt i r)) [
  | inl f ↦ (f, ground (arith, f, e))
  | inr (t, f) ↦ absurd (ground (arith, f, e))
]

OneOf-outstanding :
    (p : Probing) {i r sent : ℕ} (is' : List ℕ)
    → OneOf i is'
    → OneOf r (range_from 0 probe_rounds)
    → still_out p i r ≡ some sent
    → OneOf sent (outstanding p is')
unfolding outstanding
OneOf-outstanding p [] m k e = elim m [ ]
OneOf-outstanding p {i} (j ∷ is') first k e =
    OneOf_before (outstanding p is') (OneOf-filter_map (still_out p i) e k)
OneOf-outstanding p (j ∷ is') (later m) k e =
    OneOf_after (filter_map (still_out p j) (range_from 0 probe_rounds))
      (OneOf-outstanding p is' m k e)

past_one :
    (fastest limit : ℕ) (reply out : Option ℕ)
    → ((s : ℕ) → reply ≡ none → out ≡ some s → s + fastest + near_enough ≤ limit)
    → PastOne fastest limit reply out
past_one fastest limit (some t) out h = tt
past_one fastest limit none none h = tt
past_one fastest limit none (some s) h = h s refl refl

out_still :
    (p : Probing) (i r s : ℕ)
    → cell p.rtt i r ≡ none
    → cell p.sent_at i r ≡ some s
    → still_out p i r ≡ some s
unfolding still_out
out_still p i r s e f = rw e f

pub past_each :
    (p : Probing) (fastest limit : ℕ) → PastAll p fastest limit → PastEach p fastest limit
past_each p fastest limit h =
    all_of
      (λ i.
        AllOf (λ r. PastOne fastest limit (cell p.rtt i r) (cell p.sent_at i r))
          (range_from 0 probe_rounds))
      (all_candidates p)
      λ i m.
        all_of (λ r. PastOne fastest limit (cell p.rtt i r) (cell p.sent_at i r))
          (range_from 0 probe_rounds)
          λ r k. past_one fastest limit (cell p.rtt i r) (cell p.sent_at i r) λ s e f.
            AllOf-OneOf (λ sent. sent + fastest + near_enough ≤ limit) h
              (OneOf-outstanding p (all_candidates p) m k (out_still p i r s e f))

pub awaited :
    (p : Probing) (fastest until : ℕ)
    → settled_at p fastest ≡ some until
    → IsAwaited p fastest until
unfolding settled_at
awaited p fastest until e =
    let probes = outstanding p (all_candidates p) in
    let one =
      map-OneOf (λ (s : ℕ). s + fastest + near_enough) probes
        (maximum?-OneOf (map (λ (s : ℕ). s + fastest + near_enough) probes) until e) in
    let found = outstanding-OneOf p (all_candidates p) one.1 in
    record {
      index = found.0;
      round = found.1;
      sent = one.0;
      candidate = omega (arith, range_from-OneOf 0 (length p.candidates) found.2);
      in_rounds = found.3;
      unanswered = (was_out p found.0 found.1 found.4).0;
      went_out = (was_out p found.0 found.1 found.4).1;
      until_then = sym one.2;
      latest = past_each p fastest until (past_some p fastest until until e (omega arith));
    }
