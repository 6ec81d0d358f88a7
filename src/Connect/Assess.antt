-- ===== src/Connect/Assess.antt =====
-- src/network/connection.rs: `Probing::assess`, the route that the connectivity check settles on.
use jamjam_client.Prelude.{
  ℕ, ◌+◌, ◌*◌, Bool, false, ◌&&◌, ◌||◌, Option, none, some, List, [], ◌∷◌, ◌++◌, map, length,
  get_elem?, ltb, leb, ◌==◌, if◌then◌else◌, ◌>>=◌,
}
use jamjam_client.Prelude.Members.{keep, filter_map, minimum?, maximum?, range_from}
use jamjam_client.Prelude.Counters.{is_empty}
use jamjam_client.Route.{route_preference, route_handicap}
use jamjam_client.Peers.Types.{SocketAddr}
use jamjam_client.Connect.Types.{Probing, Verdict}
use jamjam_client.Connect.Probes.{probe_rounds, is_some, cell, sent_count, reply_count, median}

-- 2 ms.
abbrev pub near_enough : ℕ
near_enough = 2000000

-- The handicap is in milliseconds there.
abbrev pub handicap_of : Option SocketAddr → ℕ
handicap_of none = 0
handicap_of (some a) = route_handicap a.ip * 1000000

abbrev pub preference_of : Option SocketAddr → ℕ
preference_of none = 0
preference_of (some a) = route_preference a.ip

-- The candidates by number, `0..candidates.len()`.
abbrev pub all_candidates : Probing → List ℕ
all_candidates p = range_from 0 (length p.candidates)

unfoldable pub answered : Probing → List ℕ
unfolding reply_count
answered p = keep (λ i. ltb 0 (reply_count p i)) (all_candidates p)

unfoldable pub is_reliable : Probing → ℕ → Bool
unfolding reply_count sent_count
is_reliable p i = leb (sent_count p i) (reply_count p i * 2)

unfoldable pub pool : Probing → List ℕ
unfolding answered is_reliable
pool p =
    let reliable = keep (is_reliable p) (answered p) in
    if is_empty reliable then answered p else reliable

-- When the probe of a round went out, if no reply to it has come.
unfoldable pub still_out : Probing → ℕ → ℕ → Option ℕ
still_out p i round = if is_some (cell p.rtt i round) then none else cell p.sent_at i round

unfoldable pub outstanding : Probing → List ℕ → List ℕ
unfolding still_out
outstanding p [] = []
outstanding p (i ∷ is') =
    filter_map (still_out p i) (range_from 0 probe_rounds) ++ outstanding p is'

-- When no probe still out can come back faster.
unfoldable pub settled_at : Probing → ℕ → Option ℕ
unfolding outstanding
settled_at p fastest =
    maximum? (map (λ sent. sent + fastest + near_enough) (outstanding p (all_candidates p)))

unfoldable pub score : Probing → ℕ → Option ℕ
unfolding median
score p i = median p i >>= λ m. some (m + handicap_of (get_elem? p.candidates i))

abbrev pub near_best : ℕ → Option ℕ → Bool
near_best best none = false
near_best best (some s) = leb s (best + near_enough)

-- `(route_preference, Reverse(score))` of the second is at least that of the first. Without a score
-- the reverse is greatest.
abbrev pub at_most : ℕ → Option ℕ → ℕ → Option ℕ → Bool
at_most p s q none = leb p q
at_most p none q (some t) = ltb p q
at_most p (some s) q (some t) = ltb p q || ((p == q) && leb t s)

-- `max_by_key`: of equal keys the last is taken.
unfoldable pub preferred : Probing → ℕ → List ℕ → ℕ
unfolding score
preferred p i [] = i
preferred p i (j ∷ js) =
    preferred p
      (if at_most (preference_of (get_elem? p.candidates i)) (score p i)
          (preference_of (get_elem? p.candidates j)) (score p j)
        then j
        else i)
      js

unfoldable pub choose : Probing → List ℕ → Option ℕ
unfolding preferred
choose p [] = none
choose p (i ∷ is') = some (preferred p i is')

abbrev pub before : ℕ → Option ℕ → Option ℕ
before now none = none
before now (some settled) = if ltb now settled then some settled else none

-- The end of `assess`. `none` stands for a panic, here and in `settle`.
unfoldable pub verdict_on : Probing → ℕ → Option Verdict
unfolding median reply_count
verdict_on p index =
    median p index >>= λ rtt. some (Verdict.fastest index rtt (reply_count p index))

unfoldable pub settle : Probing → Option Verdict
unfolding pool score choose verdict_on
settle p = minimum? (filter_map (score p) (pool p)) >>= λ best.
    choose p (keep (λ i. near_best best (score p i)) (pool p)) >>= λ index. verdict_on p index

unfoldable pub wait_or_settle : Probing → Option ℕ → Option Verdict
unfolding settle
wait_or_settle p none = settle p
wait_or_settle p (some settled) = some (Verdict.wait_until settled)

unfoldable pub assess_from : ℕ → Probing → Option ℕ → Option Verdict
unfolding wait_or_settle settled_at
assess_from now p none = some Verdict.no_answer
assess_from now p (some fastest) = wait_or_settle p (before now (settled_at p fastest))

unfoldable pub assess : ℕ → Probing → Option Verdict
unfolding assess_from median pool
assess now p = assess_from now p (minimum? (filter_map (median p) (pool p)))
