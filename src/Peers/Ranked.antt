-- ===== src/Peers/Ranked.antt =====
-- How the priorities of candidates compare.
use jamjam_client.Prelude.{
  ℕ, ◌+◌, ◌*◌, ◌^◌, ◌<◌, ◌≡◌, refl, Bool, true, false, inl, inr, Bool-cases, arith, if◌then◌else◌,
}
use jamjam_client.Route.Types.{LinkRoute}
use jamjam_client.Route.{route_of, is_overlay, kind_preference, route_preference}
use jamjam_client.Peers.Types.{SocketAddr}
use jamjam_client.Peers.{priority_of, host, server_reflexive, is_ipv6}

data IsPreference (p : ℕ) : Type 0 where
  overlay : p ≡ 1 → IsPreference p
  public : p ≡ 2 → IsPreference p
  nearest : p ≡ 3 → IsPreference p

kind-IsPreference : (kind : LinkRoute) → IsPreference (kind_preference kind)
unfolding kind_preference
kind-IsPreference LinkRoute.lan = nearest refl
kind-IsPreference LinkRoute.public = public refl
kind-IsPreference LinkRoute.loopback = nearest refl

preference-IsPreference : (a : SocketAddr) → IsPreference (route_preference a.ip)
unfolding route_preference
preference-IsPreference a = elim (Bool-cases (is_overlay a.ip)) [
  | inl e ↦ rw e (overlay refl)
  | inr e ↦ rw e (kind-IsPreference (route_of a.ip))
]

abbrev host_priority : ℕ → ℕ → ℕ
host_priority p v = 126 * 2 ^ 24 + (p * 0x2000 + v) * 2 ^ 8 + 255

host_priority_of :
    (p : ℕ) (b : Bool)
    → IsPreference p
    → priority_of 126 (p * 0x2000 + (if b then 1 else 0)) ≡ host_priority p (if b then 1 else 0)
unfolding priority_of
host_priority_of p true (overlay e) = rw e refl
host_priority_of p true (public e) = rw e refl
host_priority_of p true (nearest e) = rw e refl
host_priority_of p false (overlay e) = rw e refl
host_priority_of p false (public e) = rw e refl
host_priority_of p false (nearest e) = rw e refl

host_lem :
    (a : SocketAddr)
    → (host a).priority ≡ host_priority (route_preference a.ip) (if is_ipv6 a.ip then 1 else 0)
unfolding host
host_lem a = host_priority_of (route_preference a.ip) (is_ipv6 a.ip) (preference-IsPreference a)

reflexive_below : (b : Bool) → priority_of 100 (if b then 65535 else 65534) < 101 * 2 ^ 24
unfolding priority_of
reflexive_below true = omega arith
reflexive_below false = omega arith

bounds_of : (p : ℕ) → IsPreference p → p < 4
bounds_of p (overlay e) = omega arith
bounds_of p (public e) = omega arith
bounds_of p (nearest e) = omega arith

bit_of : (b : Bool) → (if b then 1 else 0) < 2
bit_of true = omega arith
bit_of false = omega arith

-- Of two addresses of an interface, the one on the nearer kind of route has the higher priority,
-- whether they are IPv4 or IPv6. It fits in 32 bits, and both lie above that of any address that a
-- STUN server has seen.
pub host_order :
    (near far seen : SocketAddr)
    → route_preference far.ip < route_preference near.ip
    → ((server_reflexive seen).priority < (host far).priority)
      × ((host far).priority < (host near).priority)
      × ((host near).priority < 2 ^ 32)
unfolding server_reflexive
host_order near far seen h = omega (
  arith,
  host_lem near,
  host_lem far,
  reflexive_below (is_ipv6 seen.ip),
  bounds_of (route_preference near.ip) (preference-IsPreference near),
  bit_of (is_ipv6 near.ip),
  bit_of (is_ipv6 far.ip),
)
