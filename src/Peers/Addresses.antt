-- ===== src/Peers/Addresses.antt =====
-- Equality of addresses is decided by the code's test.
use jamjam_client.Prelude.{
  ◌≡◌, refl, sym, subst, ◌∙◌, true, List, [], ◌∷◌, ◌++◌, arith, ◌||◌, Bool-cases, inl, inr,
}
use jamjam_client.Route.Types.{IpAddr}
use jamjam_client.Route.{ip_eq}
use jamjam_client.Peers.Types.{SocketAddr}
use jamjam_client.Peers.{socket_eq, has}

ip_eq_path : (a b : IpAddr) → ip_eq a b ≡ true → a ≡ b
unfolding ip_eq
ip_eq_path (IpAddr.v4 a b c d) (IpAddr.v4 a' b' c' d') h = ground arith
ip_eq_path (IpAddr.v4 a b c d) (IpAddr.v6 a' b' c' d' e' f' g' h') h = cc
ip_eq_path (IpAddr.v6 a b c d e f g h) (IpAddr.v4 a' b' c' d') h' = cc
ip_eq_path (IpAddr.v6 a b c d e f g h) (IpAddr.v6 a' b' c' d' e' f' g' h') k = ground arith

ip_eq_refl : (a : IpAddr) → ip_eq a a ≡ true
unfolding ip_eq
ip_eq_refl (IpAddr.v4 a b c d) = ground arith
ip_eq_refl (IpAddr.v6 a b c d e f g h) = ground arith

pub socket_eq_path : (a b : SocketAddr) → socket_eq a b ≡ true → a ≡ b
unfolding socket_eq
socket_eq_path a b h = ground (arith, ip_eq_path a.ip b.ip)

pub socket_eq_refl : (a : SocketAddr) → socket_eq a a ≡ true
unfolding socket_eq
socket_eq_refl a = ground (arith, ip_eq_refl a.ip)

pub has-append :
    (a : SocketAddr) (xs ys : List SocketAddr) → has a (xs ++ ys) ≡ (has a xs || has a ys)
unfolding has
has-append a [] ys = refl
has-append a (x ∷ xs) ys = ground (arith, has-append a xs ys)

pub socket_eq_comm : (a b : SocketAddr) → socket_eq a b ≡ socket_eq b a
socket_eq_comm a b = elim (Bool-cases (socket_eq a b)) [
  | inl e ↦ subst (λ x. socket_eq a x ≡ socket_eq x a) (socket_eq_path a b e) refl
  | inr e ↦ elim (Bool-cases (socket_eq b a)) [
    | inl f ↦ subst (λ x. socket_eq x b ≡ socket_eq b x) (socket_eq_path b a f) refl
    | inr f ↦ e ∙ sym f
  ]
]
