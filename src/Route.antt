-- ===== src/Route.antt =====
-- src/network/link_facts.rs: which kind of route an address is, how routes are ranked, and what is
-- written down of a link. An IPv4 address is its four octets, an IPv6 address its eight segments.
pub mod Types
pub mod Named
pub mod Ranking
pub mod Recorded
mod Tests
use jamjam_client.Prelude.{
  ℕ, zero, suc, ◌+◌, ◌-◌, ◌^◌, min, bit_and, Bool, true, false, not, ◌&&◌, ◌||◌, Option, none, some,
  ltb, leb, ◌==◌, if◌then◌else◌,
}
use Types.{IpAddr, LinkRoute, RouteOverride, LinkSnapshot, LinkFacts}

-- `u64::MAX`
abbrev pub not_measured : ℕ
not_measured = 2 ^ 64 - 1

-- The standard library's tests of an address.
abbrev pub v4_is_loopback : ℕ → Bool
v4_is_loopback a = a == 127

abbrev pub v4_is_private : ℕ → ℕ → Bool
v4_is_private a b =
    (a == 10) || (((a == 172) && (bit_and b 0xf0 == 16)) || ((a == 192) && (b == 168)))

abbrev pub v4_is_link_local : ℕ → ℕ → Bool
v4_is_link_local a b = (a == 169) && (b == 254)

abbrev pub v6_is_loopback : ℕ → ℕ → ℕ → ℕ → ℕ → ℕ → ℕ → ℕ → Bool
v6_is_loopback a b c d e f g h =
    (a == 0)
    && ((b == 0) && ((c == 0) && ((d == 0) && ((e == 0) && ((f == 0) && ((g == 0) && (h == 1)))))))

-- `LinkRoute::of`
unfoldable pub route_of : IpAddr → LinkRoute
route_of (IpAddr.v4 a b c d) =
    if v4_is_loopback a
    then LinkRoute.loopback
    else if v4_is_private a b || v4_is_link_local a b
    then LinkRoute.lan
    else LinkRoute.public
route_of (IpAddr.v6 a b c d e f g h) =
    if v6_is_loopback a b c d e f g h
    then LinkRoute.loopback
    else if bit_and a 0xffc0 == 0xfe80
    then LinkRoute.lan
    else if bit_and a 0xfe00 == 0xfc00
    then LinkRoute.lan
    else LinkRoute.public

unfoldable pub to_u8 : LinkRoute → ℕ
to_u8 LinkRoute.lan = 1
to_u8 LinkRoute.public = 2
to_u8 LinkRoute.loopback = 3

unfoldable pub from_u8 : ℕ → Option LinkRoute
from_u8 value =
    if value == 1
    then some LinkRoute.lan
    else if value == 2
    then some LinkRoute.public
    else if value == 3
    then some LinkRoute.loopback
    else none

abbrev pub nearest_route_preference : ℕ
nearest_route_preference = 3

unfoldable pub is_overlay : IpAddr → Bool
is_overlay (IpAddr.v4 a b c d) = (a == 100) && (bit_and b 0xc0 == 0x40)
is_overlay (IpAddr.v6 a b c d e f g h) = (a == 0xfd7a) && ((b == 0x115c) && (c == 0xa1e0))

unfoldable pub kind_preference : LinkRoute → ℕ
kind_preference LinkRoute.lan = nearest_route_preference
kind_preference LinkRoute.loopback = nearest_route_preference
kind_preference LinkRoute.public = 2

unfoldable pub route_preference : IpAddr → ℕ
unfolding is_overlay route_of kind_preference
route_preference ip = if is_overlay ip then 1 else kind_preference (route_of ip)

-- Milliseconds.
abbrev pub overlay_handicap : ℕ
overlay_handicap = 10

unfoldable pub route_handicap : IpAddr → ℕ
unfolding is_overlay
route_handicap ip = if is_overlay ip then overlay_handicap else 0

-- `==` of addresses.
unfoldable pub ip_eq : IpAddr → IpAddr → Bool
ip_eq (IpAddr.v4 a b c d) (IpAddr.v4 a' b' c' d') =
    (a == a') && ((b == b') && ((c == c') && (d == d')))
ip_eq (IpAddr.v6 a b c d e f g h) (IpAddr.v6 a' b' c' d' e' f' g' h') =
    (a == a')
    && ((b == b')
        && ((c == c') && ((d == d') && ((e == e') && ((f == f') && ((g == g') && (h == h')))))))
ip_eq _ _ = false

unfoldable pub allows : RouteOverride → IpAddr → Bool
unfolding route_preference is_overlay ip_eq
allows RouteOverride.lan ip = route_preference ip == nearest_route_preference
allows RouteOverride.public ip = route_preference ip == 2
allows RouteOverride.overlay ip = is_overlay ip
allows (RouteOverride.host ip') ip = ip_eq ip ip'

abbrev pub new : LinkFacts
new = record {
  route = 0;
  route_confirmed = false;
  connect_ms = not_measured;
  first_audio_ms = not_measured;
  up_at = none;
}

-- A duration in a millisecond slot; one too long for it is cut below the mark.
abbrev pub millis : ℕ → ℕ
millis d = if ltb d (2 ^ 64) then d else not_measured - 1

-- `now` and `started` are milliseconds on one clock.
unfoldable pub link_up : LinkFacts → IpAddr → Bool → ℕ → ℕ → LinkFacts
unfolding route_of to_u8
link_up facts ip confirmed started now = record {
  route = to_u8 (route_of ip);
  route_confirmed = confirmed;
  connect_ms = millis (now - started);
  first_audio_ms = not_measured;
  up_at = some now;
}

unfoldable pub route_moved : LinkFacts → IpAddr → LinkFacts
unfolding route_of to_u8
route_moved facts ip = record facts { route = to_u8 (route_of ip); route_confirmed = false }

-- The milliseconds in a slot, if it has been measured.
abbrev pub measured : ℕ → Option ℕ
measured ms = if ms == not_measured then none else some ms

-- `audio_received`, by when the link went up.
unfoldable pub first_audio : LinkFacts → ℕ → Option ℕ → LinkFacts
first_audio facts now none = facts
first_audio facts now (some up_at) =
    if facts.first_audio_ms == not_measured
    then record facts { first_audio_ms = millis (now - up_at) }
    else facts

unfoldable pub audio_received : LinkFacts → ℕ → LinkFacts
unfolding first_audio
audio_received facts now =
    if not (facts.first_audio_ms == not_measured) then facts else first_audio facts now facts.up_at

-- `route.map(…)`
abbrev pub confirmed_of : Bool → Option LinkRoute → Option Bool
confirmed_of confirmed none = none
confirmed_of confirmed (some _) = some confirmed

unfoldable pub snapshot : LinkFacts → LinkSnapshot
unfolding from_u8
snapshot facts = record {
  route = from_u8 facts.route;
  route_confirmed = confirmed_of facts.route_confirmed (from_u8 facts.route);
  connect_ms = measured facts.connect_ms;
  first_audio_ms = measured facts.first_audio_ms;
}
