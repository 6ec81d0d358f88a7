-- ===== src/Route/Named.antt =====
-- src/network/link_facts.rs: the route that the variable JAMJAM_ROUTE names. `str::trim` and the parser
-- of IP addresses are the standard library's, and parameters.
use jamjam_client.Prelude.{
  ℕ, ◌+◌, ◌≡◌, refl, ◌↔◌, ◌⊎◌, inl, inr, Bool, true, false, ◌&&◌, ◌||◌, Option, none, some, List,
  [], ◌∷◌, map, arith, leb, if◌then◌else◌,
}
use jamjam_client.Link.Exchange.{bytes_eq}
use jamjam_client.Route.Types.{IpAddr, RouteOverride}

-- `to_ascii_lowercase` of a byte.
abbrev pub lower : ℕ → ℕ
lower b = if leb 65 b && leb b 90 then b + 32 else b

abbrev pub lan_name : List ℕ
lan_name = 108 ∷ 97 ∷ 110 ∷ []

abbrev pub public_name : List ℕ
public_name = 112 ∷ 117 ∷ 98 ∷ 108 ∷ 105 ∷ 99 ∷ []

abbrev pub tailscale_name : List ℕ
tailscale_name = 116 ∷ 97 ∷ 105 ∷ 108 ∷ 115 ∷ 99 ∷ 97 ∷ 108 ∷ 101 ∷ []

abbrev pub overlay_name : List ℕ
overlay_name = 111 ∷ 118 ∷ 101 ∷ 114 ∷ 108 ∷ 97 ∷ 121 ∷ []

-- The error, with the value that names nothing.
pub data NoRoute : Type 0 where
  names_nothing : List ℕ → NoRoute

module _ (trim : List ℕ → List ℕ) (parse_ip : List ℕ → Option IpAddr) where
  abbrev as_host : List ℕ → Option IpAddr → NoRoute ⊎ RouteOverride
  as_host value none = inl (NoRoute.names_nothing value)
  as_host value (some ip) = inr (RouteOverride.host ip)

  abbrev named : List ℕ → List ℕ → NoRoute ⊎ RouteOverride
  named value small =
      if bytes_eq small lan_name
      then inr RouteOverride.lan
      else if bytes_eq small public_name
      then inr RouteOverride.public
      else if bytes_eq small tailscale_name || bytes_eq small overlay_name
      then inr RouteOverride.overlay
      else as_host value (parse_ip value)

  unfoldable pub parse : List ℕ → NoRoute ⊎ RouteOverride
  parse value = named (trim value) (map lower (trim value))

  abbrev pinned : NoRoute ⊎ RouteOverride → NoRoute ⊎ Option RouteOverride
  pinned (inl e) = inl e
  pinned (inr r) = inr (some r)

  abbrev is_empty : List ℕ → Bool
  is_empty [] = true
  is_empty (b ∷ bs) = false

  unfoldable pub from_env : Option (List ℕ) → NoRoute ⊎ Option RouteOverride
  from_env none = inr none
  from_env (some value) = if is_empty (trim value) then inr none else pinned (parse value)

  unpinned_iff :
      (xs : List ℕ) (r : NoRoute ⊎ RouteOverride)
      → ((if is_empty xs then inr none else pinned r) ≡ inr none) ↔ (xs ≡ [])
  unpinned_iff [] r = (λ e. refl, λ e. refl)
  unpinned_iff (b ∷ bs) (inl e) = (λ h. absurd (ground arith), λ h. absurd (ground arith))
  unpinned_iff (b ∷ bs) (inr r) = (λ h. absurd (ground arith), λ h. absurd (ground arith))

  -- The route is left unpinned exactly when the variable is not set or its value is blank: a value
  -- that names nothing is an error.
  pub from_env-none : (value : List ℕ) → (from_env (some value) ≡ inr none) ↔ (trim value ≡ [])
  unfolding from_env
  from_env-none value = unpinned_iff (trim value) (parse value)
