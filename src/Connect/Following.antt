-- ===== src/Connect/Following.antt =====
-- Where packets may go.
use jamjam_client.Prelude.{
  ℕ, suc, ◌-◌, ◌≤◌, ◌≡◌, refl, ap, sym, subst, ◌∙◌, Bool, true, false, ◌&&◌, ◌||◌, Option, none,
  some, List, [], ◌∷◌, set, ltb, arith, if◌then◌else◌, by_if, Bool-cases, inl, inr, ◌>>=◌,
  Option-cases,
}
use jamjam_client.Prelude.Members.{OneOf, first, later}
use jamjam_client.Peers.Types.{SocketAddr}
use jamjam_client.Peers.{socket_eq}
use jamjam_client.Peers.Addresses.{socket_eq_path, socket_eq_refl, socket_eq_comm}
use jamjam_client.Connect.Types.{Route}
use jamjam_client.Connect.Routes.{
  among, knows, answered, sendable_at, move_to, follow, mark, note_send,
}

-- Moves of a route: it stays, or takes up an address in place of the one it leaves.
data Swapped (from old : SocketAddr)
    : List (SocketAddr × Bool) → List (SocketAddr × Bool) → Type 0 where
  here :
      {rest : List (SocketAddr × Bool)}
      → Swapped from old ((from, true) ∷ rest) ((old, true) ∷ rest)
  further :
      {other : SocketAddr × Bool} {xs ys : List (SocketAddr × Bool)}
      → Swapped from old xs ys
      → Swapped from old (other ∷ xs) (other ∷ ys)

swapped :
    (from old : SocketAddr) (xs : List (SocketAddr × Bool)) (i : ℕ)
    → sendable_at from xs ≡ some i
    → Swapped from old xs (set xs i (old, true))
unfolding sendable_at
swapped from old [] i e = absurd (cc)
swapped from old ((addr, sendable) ∷ rest) i e =
    elim (Bool-cases (socket_eq addr from && sendable)) [
      | inl t ↦
          let z : 0 ≡ i = ground arith in
          let same : from ≡ addr = sym (socket_eq_path addr from (ground arith)) in
          let goes : true ≡ sendable = ground arith in
          subst
            (λ k.
              Swapped from old ((addr, sendable) ∷ rest)
                (set ((addr, sendable) ∷ rest) k (old, true)))
            z
            (subst (λ x. Swapped from old ((x, sendable) ∷ rest) ((old, true) ∷ rest)) same
              (subst (λ x. Swapped from old ((from, x) ∷ rest) ((old, true) ∷ rest)) goes here))
      | inr f ↦ elim (Option-cases (sendable_at from rest)) [
        | inl n ↦ absurd (ground arith)
        | inr (j, n) ↦
            let z : suc j ≡ i = ground arith in
            subst
              (λ k.
                Swapped from old ((addr, sendable) ∷ rest)
                  (set ((addr, sendable) ∷ rest) k (old, true)))
              z (further (swapped from old rest j n))
      ]
    ]

or_swap : (p q r : Bool) → (p || (q || r)) ≡ (q || (p || r))
or_swap p q r = ground arith

or_false : (p q : Bool) → p ≡ false → q ≡ false → (p || q) ≡ false
or_false p q e f = ground arith

among-Swapped :
    (a from old : SocketAddr) {xs ys : List (SocketAddr × Bool)}
    → Swapped from old xs ys
    → (socket_eq a from || among a ys) ≡ (socket_eq a old || among a xs)
unfolding among
among-Swapped a from old (here {rest}) =
    ap (λ b. socket_eq a from || (b || among a rest)) (socket_eq_comm old a)
    ∙ or_swap (socket_eq a from) (socket_eq a old) (among a rest)
    ∙ ap (λ b. socket_eq a old || (b || among a rest)) (socket_eq_comm a from)
among-Swapped a from old (further {other} {xs} {ys} s) =
    or_swap (socket_eq a from) (socket_eq other.0 a) (among a ys)
    ∙ ap (λ b. socket_eq other.0 a || b) (among-Swapped a from old s)
    ∙ or_swap (socket_eq other.0 a) (socket_eq a old) (among a xs)

among-mark :
    (a addr : SocketAddr) (sent : Bool) (xs : List (SocketAddr × Bool))
    → among a (mark addr sent xs) ≡ among a xs
unfolding among mark
among-mark a addr sent [] = refl
among-mark a addr sent ((other, sendable) ∷ rest) = ground (arith, among-mark a addr sent rest)

knows-move_to :
    (a from : SocketAddr) (now : ℕ) (r : Route) (o : Option ℕ)
    → sendable_at from r.others ≡ o
    → knows (move_to from now r o).0 a ≡ knows r a
unfolding knows move_to
knows-move_to a from now r none e = refl
knows-move_to a from now r (some i) e =
    among-Swapped a from r.current (swapped from r.current r.others i e)

pub follow_knows :
    (a from : SocketAddr) (after now : ℕ) (r : Route)
    → knows (follow from after now r).0 a ≡ knows r a
unfolding follow
follow_knows a from after now r =
    by_if (λ (x : Route × Option SocketAddr). knows x.0 a ≡ knows r a)
      (socket_eq from r.current || ltb (now - r.answered_at) after) (r, none)
      (move_to from now r (sendable_at from r.others)) (λ t. refl)
      (λ f. knows-move_to a from now r (sendable_at from r.others) refl)

-- What the tasks of a connection do to its route.
pub data RouteEvent : Type 0 where
  answers : ℕ → RouteEvent
  follows : SocketAddr → ℕ → ℕ → RouteEvent
  notes : SocketAddr → Bool → RouteEvent

unfoldable pub route_step : Route → RouteEvent → Route
route_step r (answers now) = answered now r
route_step r (follows from after now) = (follow from after now r).0
route_step r (notes addr sent) = note_send addr sent r

step_knows : (a : SocketAddr) (r : Route) (e : RouteEvent) → knows (route_step r e) a ≡ knows r a
unfolding route_step knows answered note_send
step_knows a r (answers now) = refl
step_knows a r (follows from after now) = follow_knows a from after now r
step_knows a r (notes addr sent) =
    ap (λ b. socket_eq a r.current || b) (among-mark a addr sent r.others)

unfoldable pub route_run : Route → List RouteEvent → Route
unfolding route_step
route_run r [] = r
route_run r (e ∷ es) = route_run (route_step r e) es

current_known : (r : Route) → knows r r.current ≡ true
unfolding knows
current_known r = ap (λ b. b || among r.current r.others) (socket_eq_refl r.current)

-- Whatever answers, packets and failed sends a connection sees, the addresses it knows its peer by stay
-- those that the route was made with: packets go to one of them, and to no other address.
pub route_run-knows :
    (r : Route) (es : List RouteEvent) (a : SocketAddr)
    → (knows (route_run r es) a ≡ knows r a) × (knows r (route_run r es).current ≡ true)
unfolding route_run
route_run-knows r [] a = (refl, current_known r)
route_run-knows r (e ∷ es) a =
    let rest = route_run-knows (route_step r e) es in
    (
      (rest a).0 ∙ step_knows a r e,
      sym (step_knows (route_run (route_step r e) es).current r e) ∙ (rest a).1,
    )

finds_sendable :
    (from : SocketAddr) {xs : List (SocketAddr × Bool)}
    → OneOf (from, true) xs
    → (i : ℕ) × (sendable_at from xs ≡ some i)
unfolding sendable_at
finds_sendable from (first {xs}) = (
  0,
  ap (λ b. if b && true then some 0 else (sendable_at from xs >>= λ i. some (suc i)))
      (socket_eq_refl from),
)
finds_sendable from (later {x} {xs} m) =
    let rest = finds_sendable from m in
    elim (Bool-cases (socket_eq x.0 from && x.1)) [
      | inl t ↦ (0, ap (λ b. if b then some 0 else (sendable_at from xs >>= λ i. some (suc i))) t)
      | inr f ↦ (
        suc rest.0,
        ap (λ b. if b then some 0 else (sendable_at from xs >>= λ i. some (suc i))) f
            ∙ ap (λ o. o >>= λ i. some (suc i)) rest.1,
      )
    ]

follow_go :
    (from : SocketAddr) (after now : ℕ) (r : Route)
    → socket_eq from r.current ≡ false
    → after ≤ now - r.answered_at
    → follow from after now r ≡ move_to from now r (sendable_at from r.others)
unfolding follow
follow_go from after now r ne late =
    ap (λ b. if b then (r, none) else move_to from now r (sendable_at from r.others))
      (or_false (socket_eq from r.current) (ltb (now - r.answered_at) after) ne (ground arith))

-- When a packet from one of the peer's other addresses, which the last packet could be sent to, finds
-- the peer silent for `after`, the route moves there, names the address it leaves, and waits anew.
pub follow_moves :
    (from : SocketAddr) (after now : ℕ) (r : Route)
    → socket_eq from r.current ≡ false
    → after ≤ now - r.answered_at
    → OneOf (from, true) r.others
    → ((follow from after now r).0.current ≡ from)
      × ((follow from after now r).0.answered_at ≡ now)
      × ((follow from after now r).1 ≡ some r.current)
unfolding move_to
follow_moves from after now r ne late m =
    let found = finds_sendable from m in
    rw (follow_go from after now r ne late, found.1) (refl, refl, refl)
