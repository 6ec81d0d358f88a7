-- ===== src/Route/Tests.antt =====
-- Addresses of each kind, and a link that went up.
use jamjam_client.Prelude.{ℕ, ◌≡◌, refl, inl, inr, none, some, List, [], ◌∷◌}
use jamjam_client.Route.Types.{IpAddr, RouteOverride}
use jamjam_client.Route.Named.{NoRoute, parse, from_env}
use jamjam_client.Route.{route_handicap}

abbrev home : IpAddr
home = IpAddr.v4 192 168 1 20

abbrev overlay : IpAddr
overlay = IpAddr.v4 100 101 102 103

overlay_is_held_back : route_handicap overlay ≡ 10
unfolding route_handicap
overlay_is_held_back = refl

abbrev lan_typed : List ℕ
lan_typed = 76 ∷ 97 ∷ 78 ∷ []

named_in_any_case : from_env (λ v. v) (λ _. none) (some lan_typed) ≡ inr (some RouteOverride.lan)
unfolding from_env parse
named_in_any_case = refl

misspelt :
    from_env (λ v. v) (λ _. none) (some (108 ∷ 97 ∷ 109 ∷ []))
    ≡ inl (NoRoute.names_nothing (108 ∷ 97 ∷ 109 ∷ []))
unfolding from_env parse
misspelt = refl
