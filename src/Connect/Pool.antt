-- ===== src/Connect/Pool.antt =====
-- The candidates that `assess` chooses from, and the one it prefers.
use jamjam_client.Prelude.{
  ℕ, ◌+◌, ◌*◌, ◌<◌, ◌≤◌, Bool, ◌&&◌, ◌⊎◌, leb, leb→le, ◌≡◌, refl, true, false, Option, none, some,
  List, [], ◌∷◌, length, get_elem?, arith, ltb, ltb→lt, if◌then◌else◌, Bool-cases, inl, inr, by_if,
}
use jamjam_client.Prelude.Members.{
  OneOf, first, later, keep, keep-OneOf, OneOf-keep, AllOf, all_of, range_from-OneOf,
}
use jamjam_client.Prelude.Counters.{is_empty}
use jamjam_client.Connect.Types.{Probing}
use jamjam_client.Connect.Probes.{reply_count, sent_count, median}
use jamjam_client.Connect.Assess.{
  preference_of, handicap_of, all_candidates, answered, is_reliable, pool, score, at_most,
  preferred,
}
use jamjam_client.Connect.Medians.{has_median}

pub pool-answered : (p : Probing) {i : ℕ} → OneOf i (pool p) → OneOf i (answered p)
unfolding pool
pool-answered p {i} =
    by_if (λ l. OneOf i l → OneOf i (answered p)) (is_empty (keep (is_reliable p) (answered p)))
      (answered p) (keep (is_reliable p) (answered p)) (λ t m. m)
      (λ f m. (keep-OneOf (is_reliable p) (answered p) m).0)

pub pool_replied : (p : Probing) {i : ℕ} → OneOf i (pool p) → 0 < reply_count p i
unfolding answered
pool_replied p {i} m =
    ltb→lt 0 (reply_count p i)
      (keep-OneOf (λ i. ltb 0 (reply_count p i)) (all_candidates p) (pool-answered p m)).1

-- Whether a candidate has answered, and at least half of its probes.
abbrev pub is_steady : Probing → ℕ → Bool
is_steady p i = ltb 0 (reply_count p i) && leb (sent_count p i) (reply_count p i * 2)

-- A candidate that is chosen from is steady, unless none is.
abbrev pub IsSteady : Probing → ℕ → Type 0
IsSteady p i =
    (sent_count p i ≤ reply_count p i * 2) ⊎ AllOf (λ j. is_steady p j ≡ false) (all_candidates p)

not_in_none : (xs : List ℕ) → is_empty xs ≡ true → (i : ℕ) → ¬ OneOf i xs
not_in_none [] e i m = elim m [ ]
not_in_none (x ∷ xs) e i m = cc

pub pool-IsSteady : (p : Probing) {i : ℕ} → OneOf i (pool p) → IsSteady p i
unfolding pool answered is_reliable
pool-IsSteady p {i} =
    by_if (λ l. OneOf i l → IsSteady p i) (is_empty (keep (is_reliable p) (answered p)))
      (answered p) (keep (is_reliable p) (answered p))
      (λ t m. inr (
        all_of (λ j. is_steady p j ≡ false) (all_candidates p)
          λ j k. elim (Bool-cases (ltb 0 (reply_count p j))) [
            | inr f ↦ rw f refl
            | inl a ↦ elim (Bool-cases (is_reliable p j)) [
              | inr g ↦ rw (a, g) refl
              | inl b ↦ absurd (
                  not_in_none (keep (is_reliable p) (answered p)) t j
                    (OneOf-keep (is_reliable p) b (OneOf-keep (λ i. ltb 0 (reply_count p i)) a k)))
            ]
          ]))
      (λ f m. inl (
        leb→le (sent_count p i) (reply_count p i * 2)
          (keep-OneOf (is_reliable p) (answered p) m).1))

pub pool_bounded : (p : Probing) {i : ℕ} → OneOf i (pool p) → i < length p.candidates
unfolding answered
pool_bounded p {i} m = omega (
  arith,
  range_from-OneOf 0 (length p.candidates)
      (keep-OneOf (λ i. ltb 0 (reply_count p i)) (all_candidates p) (pool-answered p m)).0,
)

pub median-pool : (p : Probing) {i : ℕ} → OneOf i (pool p) → (m : ℕ) × (median p i ≡ some m)
median-pool p {i} m = has_median p i (pool_replied p m)

pub score-pool : (p : Probing) {i : ℕ} → OneOf i (pool p) → (s : ℕ) × (score p i ≡ some s)
unfolding score
score-pool p {i} m =
    let found = median-pool p m in
    (found.0 + handicap_of (get_elem? p.candidates i), rw found.1 refl)

no_members : {A : Type 0} (xs : List A) → ((x : A) → ¬ OneOf x xs) → xs ≡ []
no_members [] h = refl
no_members (x ∷ xs) h = absurd (h x first)

nobody :
    (rel xs : List ℕ)
    → ((i : ℕ) → ¬ OneOf i (if is_empty rel then xs else rel))
    → (i : ℕ) → ¬ OneOf i xs
nobody [] xs h i m = h i m
nobody (x ∷ rel) xs h i m = h x first

-- With no one to choose from, no one has answered.
pub pool_empty :
    (p : Probing)
    → ((i : ℕ) → ¬ OneOf i (pool p))
    → AllOf (λ i. reply_count p i ≡ 0) (all_candidates p)
unfolding pool answered
pool_empty p h =
    all_of (λ i. reply_count p i ≡ 0) (all_candidates p)
      λ i m. elim (Bool-cases (ltb 0 (reply_count p i))) [
        | inl t ↦ absurd (
            nobody (keep (is_reliable p) (answered p)) (answered p) h i
              (OneOf-keep (λ i. ltb 0 (reply_count p i)) t m))
        | inr f ↦ ground arith
      ]

-- The keys that candidates are compared by.
abbrev pub Prefers : Probing → ℕ → ℕ → Type 0
Prefers p i j =
    at_most (preference_of (get_elem? p.candidates j)) (score p j)
      (preference_of (get_elem? p.candidates i)) (score p i)
    ≡ true

at_most_trans :
    (a : ℕ) (s : Option ℕ) (b : ℕ) (t : Option ℕ) (c : ℕ) (u : Option ℕ)
    → at_most a s b t ≡ true
    → at_most b t c u ≡ true
    → at_most a s c u ≡ true
at_most_trans a none b none c none g h = ground arith
at_most_trans a none b none c (some u) g h = ground arith
at_most_trans a none b (some t) c none g h = ground arith
at_most_trans a none b (some t) c (some u) g h = ground arith
at_most_trans a (some s) b none c none g h = ground arith
at_most_trans a (some s) b none c (some u) g h = ground arith
at_most_trans a (some s) b (some t) c none g h = ground arith
at_most_trans a (some s) b (some t) c (some u) g h = ground arith

at_most_refl : (a : ℕ) (s : Option ℕ) → at_most a s a s ≡ true
at_most_refl a none = ground arith
at_most_refl a (some s) = ground arith

at_most_total :
    (a : ℕ) (s : Option ℕ) (b : ℕ) (t : Option ℕ) → at_most a s b t ≡ false → at_most b t a s ≡ true
at_most_total a none b none g = ground arith
at_most_total a none b (some t) g = ground arith
at_most_total a (some s) b none g = ground arith
at_most_total a (some s) b (some t) g = ground arith

Prefers-trans : (p : Probing) (i j k : ℕ) → Prefers p i j → Prefers p j k → Prefers p i k
Prefers-trans p i j k g h =
    at_most_trans (preference_of (get_elem? p.candidates k)) (score p k)
      (preference_of (get_elem? p.candidates j)) (score p j)
      (preference_of (get_elem? p.candidates i)) (score p i) h g

skip_second : {k i j : ℕ} {js : List ℕ} → OneOf k (i ∷ js) → OneOf k (i ∷ j ∷ js)
skip_second first = first
skip_second (later m) = later (later m)

pub preferred-OneOf : (p : Probing) (i : ℕ) (js : List ℕ) → OneOf (preferred p i js) (i ∷ js)
unfolding preferred
preferred-OneOf p i [] = first
preferred-OneOf p i (j ∷ js) =
    by_if (λ k. OneOf (preferred p k js) (i ∷ j ∷ js)) _ j i (λ t. later (preferred-OneOf p j js))
      (λ f. skip_second (preferred-OneOf p i js))

pub preferred-Prefers :
    (p : Probing) (i : ℕ) (js : List ℕ) → AllOf (Prefers p (preferred p i js)) (i ∷ js)
unfolding preferred
preferred-Prefers p i [] = (at_most_refl (preference_of (get_elem? p.candidates i)) (score p i), tt)
preferred-Prefers p i (j ∷ js) =
    by_if (λ k. AllOf (Prefers p (preferred p k js)) (i ∷ j ∷ js)) _ j i
      (λ t.
        let rest = preferred-Prefers p j js in
        (Prefers-trans p (preferred p j js) j i rest.0 t, rest))
      (λ f.
        let rest = preferred-Prefers p i js in
        (
          rest.0,
          (
            Prefers-trans p (preferred p i js) i j rest.0 (
                at_most_total (preference_of (get_elem? p.candidates i)) (score p i)
                  (preference_of (get_elem? p.candidates j)) (score p j) f),
            rest.1,
          ),
        ))
