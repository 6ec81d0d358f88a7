-- ===== src/Route/Types.antt =====
-- src/network/link_facts.rs: the types.
use jamjam_client.Prelude.{ℕ, Bool, Option}

pub data IpAddr : Type 0 where
  v4 : ℕ → ℕ → ℕ → ℕ → IpAddr
  v6 : ℕ → ℕ → ℕ → ℕ → ℕ → ℕ → ℕ → ℕ → IpAddr

pub data LinkRoute : Type 0 where
  lan public loopback : LinkRoute

pub data RouteOverride : Type 0 where
  lan public overlay : RouteOverride
  host : IpAddr → RouteOverride

pub record LinkSnapshot : Type 0 where
  pub route : Option LinkRoute
  pub route_confirmed : Option Bool
  pub connect_ms : Option ℕ
  pub first_audio_ms : Option ℕ

-- `up_at` is in milliseconds.
pub record LinkFacts : Type 0 where
  pub route : ℕ
  pub route_confirmed : Bool
  pub connect_ms : ℕ
  pub first_audio_ms : ℕ
  pub up_at : Option ℕ
