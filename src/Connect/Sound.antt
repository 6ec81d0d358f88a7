-- ===== src/Connect/Sound.antt =====
-- Only an address that a probe went to, and that answered it, is settled on.
use jamjam_client.Prelude.{
  ℕ, zero, suc, ◌<◌, ◌≡◌, ◌≢◌, refl, subst, Option, none, some, List, [], ◌∷◌, length, get_or,
  replicate,
}
use jamjam_client.Peers.Types.{SocketAddr}
use jamjam_client.Prelude.Members.{OneOf}
use jamjam_client.Connect.Types.{Probing, Verdict}
use jamjam_client.Connect.Probes.{probe_rounds, cell, flatten, reply_count, new}
use jamjam_client.Connect.Heard.{ProbeEvent, probing_run, IsAnswer, IsSound, run_IsSound}
use jamjam_client.Connect.Assess.{pool, assess}
use jamjam_client.Connect.Pool.{pool_replied}
use jamjam_client.Connect.Verdicts.{Assessed, unanswered, waits, settles}
use jamjam_client.Connect.Settled.{assess-Assessed}

get_or-replicate {ℓ} : {A : Type ℓ} (n i : ℕ) (a : A) → get_or (replicate n a) i a ≡ a
get_or-replicate zero i a = refl
get_or-replicate (suc n) zero a = refl
get_or-replicate (suc n) (suc i) a = get_or-replicate n i a

blank_rows : (n i r : ℕ) → cell (replicate n (replicate probe_rounds none)) i r ≡ none
blank_rows zero i r = refl
blank_rows (suc n) zero r = get_or-replicate probe_rounds r none
blank_rows (suc n) (suc i) r = blank_rows n i r

no_cell : (n i r t : ℕ) → cell (replicate n (replicate probe_rounds none)) i r ≢ some t
no_cell n i r t h = let blank = blank_rows n i r in cc

new-IsSound : (candidates : List SocketAddr) → IsSound candidates [] (new candidates)
unfolding new
new-IsSound candidates = record {
  same_candidates = refl;
  sent_out = λ i r t h. absurd (no_cell (length candidates) i r t h);
  answered = λ i r t h. absurd (no_cell (length candidates) i r t h);
}

timed_round :
    (row : List (Option ℕ))
    → 0 < length (flatten row)
    → (r : ℕ) × (t : ℕ) × (get_or row r none ≡ some t)
unfolding flatten
timed_round [] h = elim h [ ]
timed_round (none ∷ row) h = let rest = timed_round row h in (suc rest.0, rest.1, rest.2)
timed_round (some t ∷ row) h = (0, t, refl)

-- A candidate that answered a probe, in the time that is written down for it.
pub record IsProven (candidates : List SocketAddr) (es : List ProbeEvent) (index : ℕ) : Type 0 where
  pub round : ℕ
  pub took : ℕ
  pub written : cell (probing_run (new candidates) es).rtt index round ≡ some took
  pub answer : IsAnswer candidates es index round took

settled_in_pool :
    {p : Probing} {now : ℕ} {o : Option Verdict} (index rtt replies : ℕ)
    → Assessed p now o
    → o ≡ some (Verdict.fastest index rtt replies)
    → OneOf index (pool p)
settled_in_pool index rtt replies (unanswered h) e = absurd (cc)
settled_in_pool index rtt replies (waits f u l n w) e = absurd (cc)
settled_in_pool {p} index rtt replies (settles f i t l past c) e =
    let same : i ≡ index = cc in subst (λ k. OneOf k (pool p)) same c.among

-- However many probes go out and whatever arrives from whomever, the check settles only on a candidate
-- that answered a probe: a probe of some round went out to it, and later a datagram came from its address
-- that is a reply with the token of that candidate and that round. The time written down for it is the
-- time from the one to the other, or 0 if the clock went back.
pub run-IsProven :
    (candidates : List SocketAddr) (es : List ProbeEvent) (now index rtt replies : ℕ)
    → assess now (probing_run (new candidates) es) ≡ some (Verdict.fastest index rtt replies)
    → IsProven candidates es index
unfolding reply_count
run-IsProven candidates es now index rtt replies e =
    let p = probing_run (new candidates) es in
    let found =
      timed_round (get_or p.rtt index [])
        (pool_replied p (settled_in_pool index rtt replies (assess-Assessed now p) e)) in
    let sound = run_IsSound candidates [] es (new candidates) (new-IsSound candidates) in
    record {
      round = found.0;
      took = found.1;
      written = found.2;
      answer = sound.answered index found.0 found.1 found.2;
    }
