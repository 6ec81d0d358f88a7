-- ===== src/Stun/Discover.antt =====
-- src/network/stun.rs: the query of one server, and the list of servers.
-- Of the socket, the name lookup and the random number each query takes what they gave.
use jamjam_client.Prelude.{
  ℕ, Bool, true, false, not, ◌&&◌, ◌||◌, ◌⊎◌, inl, inr, Option, none, some, List, [], ◌∷◌,
  if◌then◌else◌, take,
}
use jamjam_client.Peers.Types.{SocketAddr}
use jamjam_client.Peers.{is_ipv6}
use jamjam_client.Stun.{StunFailed, build_binding_request, parse_binding_response}

-- What `recv_from` gives before the deadline: a datagram, cut at the 576 bytes of the buffer, or an
-- error.
pub data Received : Type 0 where
  datagram : List ℕ → Received
  receive_error : Received

-- One run of `binding_request`: the local address, what the lookup of the server gave, the
-- transaction id drawn, whether the request could be sent, and what came before the deadline.
pub record Query : Type 0 where
  pub server : List ℕ
  pub local_addr : Option SocketAddr
  pub looked_up : Option (List SocketAddr)
  pub transaction_id : List ℕ
  pub can_send : Bool
  pub received : List Received

pub record StunResult : Type 0 where
  pub mapped_address : SocketAddr
  pub server : List ℕ

abbrev same_bool : Bool → Bool → Bool
same_bool a b = (a && b) || (not a && not b)

-- `find(|addr| addr.is_ipv4() == local_is_ipv4)`
abbrev pub find_family : Bool → List SocketAddr → Option SocketAddr
find_family local_is_ipv4 [] = none
find_family local_is_ipv4 (a ∷ addrs) =
    if same_bool (not (is_ipv6 a.ip)) local_is_ipv4 then some a else find_family local_is_ipv4 addrs

abbrev next_answer : StunFailed ⊎ SocketAddr → StunFailed ⊎ SocketAddr → StunFailed ⊎ SocketAddr
next_answer (inl e) rest = rest
next_answer (inr a) rest = inr a

-- The loop until the deadline.
unfoldable pub await_answer : List ℕ → List Received → StunFailed ⊎ SocketAddr
await_answer id [] = inl StunFailed.timeout
await_answer id (Received.receive_error ∷ rest) = inl StunFailed.receive_failed
await_answer id (Received.datagram bytes ∷ rest) =
    next_answer (parse_binding_response (take 576 bytes) id) (await_answer id rest)

abbrev send_to : Bool → List ℕ → List Received → StunFailed ⊎ SocketAddr
send_to true id received = await_answer id received
send_to false id received = inl StunFailed.send_failed

abbrev pub ask : Option SocketAddr → Bool → List ℕ → List Received → StunFailed ⊎ SocketAddr
ask none can_send id received = inl StunFailed.no_address_found
ask (some a) can_send id received = send_to can_send id received

abbrev look_up :
    Option (List SocketAddr) → Bool → Bool → List ℕ → List Received → StunFailed ⊎ SocketAddr
look_up none is_ipv4 can_send id received = inl StunFailed.dns_lookup_failed
look_up (some addrs) is_ipv4 can_send id received =
    ask (find_family is_ipv4 addrs) can_send id received

abbrev pub mapped :
    Option SocketAddr
    → Option (List SocketAddr)
    → Bool
    → List ℕ
    → List Received
    → StunFailed ⊎ SocketAddr
mapped none looked_up can_send id received = inl StunFailed.local_address_unavailable
mapped (some local) looked_up can_send id received =
    look_up looked_up (not (is_ipv6 local.ip)) can_send id received

abbrev as_result : List ℕ → StunFailed ⊎ SocketAddr → StunFailed ⊎ StunResult
as_result server (inl e) = inl e
as_result server (inr a) = inr (record { mapped_address = a; server = server })

-- The bytes sent to the server, and how the query ends.
unfoldable pub request : Query → List ℕ
request q = build_binding_request q.transaction_id

unfoldable pub binding_request : Query → StunFailed ⊎ StunResult
binding_request q =
    as_result q.server (mapped q.local_addr q.looked_up q.can_send q.transaction_id q.received)

abbrev first_of : StunFailed ⊎ StunResult → StunFailed ⊎ StunResult → StunFailed ⊎ StunResult
first_of (inl e) rest = rest
first_of (inr r) rest = inr r

-- `discover_public_address_from`, the servers in order.
unfoldable pub discover_public_address_from : List Query → StunFailed ⊎ StunResult
discover_public_address_from [] = inl StunFailed.all_servers_failed
discover_public_address_from (q ∷ qs) =
    first_of (binding_request q) (discover_public_address_from qs)
