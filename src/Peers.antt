-- ===== src/Peers.antt =====
-- src/network/signaling.rs: the addresses a participant may be reached on, and how they are ranked.
pub mod Types
pub mod Addresses
pub mod Ranked
pub mod Offered
mod Tests
use jamjam_client.Prelude.{
  ℕ, zero, suc, ◌+◌, ◌*◌, ◌^◌, ◌%◌, bit_or, Bool, true, false, not, ◌&&◌, ◌||◌, Option, none, some,
  List, [], ◌∷◌, ◌++◌, map, leb, ◌==◌, if◌then◌else◌,
}
use jamjam_client.Route.Types.{IpAddr}
use jamjam_client.Route.{ip_eq, route_preference}
use Types.{SocketAddr, CandidateType, AddressCandidate, PeerInfo}

-- `==` of socket addresses and of texts.
unfoldable pub socket_eq : SocketAddr → SocketAddr → Bool
unfolding ip_eq
socket_eq a b =
    ip_eq a.ip b.ip
    && ((a.port == b.port) && ((a.flowinfo == b.flowinfo) && (a.scope_id == b.scope_id)))

unfoldable pub text_eq : List ℕ → List ℕ → Bool
text_eq [] [] = true
text_eq [] (y ∷ ys) = false
text_eq (x ∷ xs) [] = false
text_eq (x ∷ xs) (y ∷ ys) = (x == y) && text_eq xs ys

-- `addrs.contains`
unfoldable pub has : SocketAddr → List SocketAddr → Bool
unfolding socket_eq
has a [] = false
has a (x ∷ xs) = socket_eq a x || has a xs

abbrev pub is_ipv6 : IpAddr → Bool
is_ipv6 (IpAddr.v4 a b c d) = false
is_ipv6 (IpAddr.v6 a b c d e f g h) = true

abbrev pub is_unspecified : IpAddr → Bool
is_unspecified (IpAddr.v4 a b c d) = (a == 0) && ((b == 0) && ((c == 0) && (d == 0)))
is_unspecified (IpAddr.v6 a b c d e f g h) =
    (a == 0)
    && ((b == 0) && ((c == 0) && ((d == 0) && ((e == 0) && ((f == 0) && ((g == 0) && (h == 0)))))))

-- The priority of a candidate, in 32 bits.
unfoldable pub priority_of : ℕ → ℕ → ℕ
priority_of type_pref local_pref =
    bit_or (bit_or (type_pref * 2 ^ 24 % 2 ^ 32) (local_pref * 2 ^ 8 % 2 ^ 32)) 255

-- `AddressCandidate::host`
unfoldable pub host : SocketAddr → AddressCandidate
unfolding route_preference priority_of
host address = record {
  address = address;
  candidate_type = CandidateType.host;
  priority =
      priority_of 126
        (route_preference address.ip * 0x2000 + (if is_ipv6 address.ip then 1 else 0));
}

-- `AddressCandidate::server_reflexive`
unfoldable pub server_reflexive : SocketAddr → AddressCandidate
unfolding priority_of
server_reflexive address = record {
  address = address;
  candidate_type = CandidateType.server_reflexive;
  priority = priority_of 100 (if is_ipv6 address.ip then 65535 else 65534);
}

-- `sort_by_key(|c| Reverse(c.priority))`, which is stable.
unfoldable pub insert_by_priority : AddressCandidate → List AddressCandidate → List AddressCandidate
insert_by_priority c [] = c ∷ []
insert_by_priority c (d ∷ ds) =
    if leb d.priority c.priority then c ∷ d ∷ ds else d ∷ insert_by_priority c ds

unfoldable pub sort_by_priority : List AddressCandidate → List AddressCandidate
unfolding insert_by_priority
sort_by_priority [] = []
sort_by_priority (c ∷ cs) = insert_by_priority c (sort_by_priority cs)

abbrev pub addresses : List AddressCandidate → List SocketAddr
addresses = map (λ c. c.address)

-- A legacy address, if it is not already present.
unfoldable pub push_new : Option SocketAddr → List SocketAddr → List SocketAddr
unfolding has
push_new none addrs = addrs
push_new (some addr) addrs = if has addr addrs then addrs else addrs ++ addr ∷ []

-- `addrs.retain(|addr| !addr.ip().is_unspecified())`
unfoldable pub retain_specified : List SocketAddr → List SocketAddr
retain_specified [] = []
retain_specified (a ∷ as') =
    let rest = retain_specified as' in if is_unspecified a.ip then rest else a ∷ rest

unfoldable pub get_sorted_candidates : PeerInfo → List SocketAddr
unfolding sort_by_priority push_new retain_specified
get_sorted_candidates peer = retain_specified (
    push_new peer.local_addr
      (push_new peer.public_addr (addresses (sort_by_priority peer.candidates))))

-- "peer_message"
abbrev pub peer_message_feature : List ℕ
peer_message_feature = 112 ∷ 101 ∷ 101 ∷ 114 ∷ 95 ∷ 109 ∷ 101 ∷ 115 ∷ 115 ∷ 97 ∷ 103 ∷ 101 ∷ []

-- `any(|f| f == PEER_MESSAGE_FEATURE)`
unfoldable pub takes_peer_messages : PeerInfo → Bool
unfolding text_eq
takes_peer_messages peer = any_eq peer.features
  where
    any_eq : List (List ℕ) → Bool
    any_eq [] = false
    any_eq (f ∷ fs) = text_eq f peer_message_feature || any_eq fs
