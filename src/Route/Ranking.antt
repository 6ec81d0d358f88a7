-- ===== src/Route/Ranking.antt =====
-- The kinds of address that a route may be pinned to.
use jamjam_client.Prelude.{ℕ, ◌+◌, ◌≡◌, refl, inl, inr, Bool-cases, arith, ◌==◌, if◌then◌else◌}
use jamjam_client.Route.Types.{IpAddr, LinkRoute, RouteOverride}
use jamjam_client.Route.{route_of, is_overlay, kind_preference, route_preference, allows}

-- One if the override allows the address.
abbrev pub counts : RouteOverride → IpAddr → ℕ
counts pinned ip = if allows pinned ip then 1 else 0

kind_counts :
    (kind : LinkRoute)
    → (if kind_preference kind == 3 then 1 else 0) + (if kind_preference kind == 2 then 1 else 0)
      ≡ 1
unfolding kind_preference
kind_counts LinkRoute.lan = refl
kind_counts LinkRoute.public = refl
kind_counts LinkRoute.loopback = refl

-- Of the overrides for a local network, a public address and an overlay, exactly one allows any
-- address.
pub allows_one :
    (ip : IpAddr)
    → counts RouteOverride.lan ip + counts RouteOverride.public ip + counts RouteOverride.overlay ip
      ≡ 1
unfolding allows route_preference
allows_one ip = elim (Bool-cases (is_overlay ip)) [
  | inl e ↦ rw e refl
  | inr e ↦ rw e (omega (arith, kind_counts (route_of ip)))
]
