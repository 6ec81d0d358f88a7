-- ===== src/Route/Recorded.antt =====
-- What is written down of a link that goes up and then carries audio.
use jamjam_client.Prelude.{ℕ, ◌-◌, ◌≡◌, ◌^◌, ◌<◌, refl, Bool, false, some, arith, ◌==◌}
use jamjam_client.Route.Types.{IpAddr, LinkRoute, LinkFacts}
use jamjam_client.Route.{
  not_measured, millis, route_of, to_u8, from_u8, link_up, first_audio, audio_received, snapshot,
}

from_u8-to_u8 : (route : LinkRoute) → from_u8 (to_u8 route) ≡ some route
unfolding from_u8 to_u8
from_u8-to_u8 LinkRoute.lan = refl
from_u8-to_u8 LinkRoute.public = refl
from_u8-to_u8 LinkRoute.loopback = refl

-- A duration below the mark counts as measured.
millis_measured : (d : ℕ) → d < 2 ^ 64 - 1 → (millis d == not_measured) ≡ false
millis_measured d h = ground arith

-- A link that goes up on an address, and then carries audio at two moments: what is read of it is
-- the kind of the address, whether it was confirmed, how long it took to go up, and how long after
-- that the first of the two came (the moments being below 2 ^ 64 - 1 milliseconds).
pub snapshot-audio_received :
    (facts : LinkFacts) (ip : IpAddr) (confirmed : Bool) (started up now later : ℕ)
    → up < 2 ^ 64 - 1
    → now < 2 ^ 64 - 1
    → snapshot (audio_received (audio_received (link_up facts ip confirmed started up) now) later)
      ≡ record {
        route = some (route_of ip);
        route_confirmed = some confirmed;
        connect_ms = some (millis (up - started));
        first_audio_ms = some (millis (now - up));
      }
unfolding snapshot audio_received first_audio link_up
snapshot-audio_received facts ip confirmed started up now later hu hn =
    rw
      (
        millis_measured (now - up) (omega arith),
        from_u8-to_u8 (route_of ip),
        millis_measured (now - up) (omega arith),
        millis_measured (up - started) (omega arith),
      )
      refl
