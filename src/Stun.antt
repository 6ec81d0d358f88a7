-- ===== src/Stun.antt =====
-- src/network/stun.rs: the binding request, and what is read from a server's answer.
-- A transaction id is the list of its twelve bytes.
pub mod Discover
pub mod Loop
pub mod Addresses
pub mod Attributes
pub mod Answers
pub mod Asked
mod Tests
use jamjam_client.Prelude.{
  ℕ, zero, suc, ◌+◌, ◌*◌, ◌/◌, ◌%◌, ◌^◌, bit_xor, Bool, not, ◌⊎◌, inl, inr, List, [], ◌∷◌, ◌++◌,
  ltb, leb, ◌==◌, if◌then◌else◌, length, get_or, take, drop,
}
use jamjam_client.Prelude.Bytes.{be16, be32, from_be16, from_be32}
use jamjam_client.Route.Types.{IpAddr}
use jamjam_client.Peers.Types.{SocketAddr}
use jamjam_client.Link.Exchange.{bytes_eq}

-- What each `NetworkError::StunFailed` says.
pub data StunFailed : Type 0 where
  response_too_short invalid_magic_cookie transaction_id_mismatch message_truncated : StunFailed
  no_mapped_address xor_mapped_address_too_short xor_mapped_address_v6_too_short : StunFailed
  mapped_address_too_short mapped_address_v6_too_short : StunFailed
  unexpected_message_type unknown_address_family : ℕ → StunFailed
  local_address_unavailable dns_lookup_failed no_address_found send_failed : StunFailed
  timeout receive_failed all_servers_failed : StunFailed

abbrev pub binding_request_type : ℕ
binding_request_type = 1

abbrev pub binding_response_type : ℕ
binding_response_type = 257

abbrev pub mapped_address_type : ℕ
mapped_address_type = 1

abbrev pub xor_mapped_address_type : ℕ
xor_mapped_address_type = 32

abbrev pub magic_cookie : ℕ
magic_cookie = 554869826

pub build_binding_request : List ℕ → List ℕ
build_binding_request transaction_id =
    be16 binding_request_type ++ be16 0 ++ be32 magic_cookie ++ transaction_id

-- `u16::from_be_bytes` and `u32::from_be_bytes` of the bytes from index `i` on.
abbrev pub read16 : List ℕ → ℕ → ℕ
read16 bytes i = from_be16 (get_or bytes i 0) (get_or bytes (i + 1) 0)

abbrev pub read_u32 : List ℕ → ℕ → ℕ
read_u32 bytes i =
    from_be32 (get_or bytes i 0) (get_or bytes (i + 1) 0) (get_or bytes (i + 2) 0)
      (get_or bytes (i + 3) 0)

-- `Ipv4Addr::from` a `u32`, `Ipv6Addr::from` sixteen bytes, and `SocketAddr::new`.
abbrev pub ipv4_from : ℕ → IpAddr
ipv4_from a = IpAddr.v4 (a / 2 ^ 24 % 2 ^ 8) (a / 2 ^ 16 % 2 ^ 8) (a / 2 ^ 8 % 2 ^ 8) (a % 2 ^ 8)

abbrev pub ipv6_from : List ℕ → IpAddr
ipv6_from b =
    IpAddr.v6 (read16 b 0) (read16 b 2) (read16 b 4) (read16 b 6) (read16 b 8) (read16 b 10)
      (read16 b 12) (read16 b 14)

abbrev pub socket_addr : IpAddr → ℕ → SocketAddr
socket_addr ip port = record { ip = ip; port = port; flowinfo = 0; scope_id = 0 }

-- Byte `i` of the one `^` byte `i` of the other.
abbrev pub xor_bytes : List ℕ → List ℕ → List ℕ
xor_bytes [] mask = []
xor_bytes (b ∷ bs) [] = []
xor_bytes (b ∷ bs) (m ∷ mask) = bit_xor b m ∷ xor_bytes bs mask

abbrev pub xor_mask : List ℕ → List ℕ
xor_mask transaction_id = be32 magic_cookie ++ transaction_id

pub parse_xor_mapped_address : List ℕ → List ℕ → StunFailed ⊎ SocketAddr
parse_xor_mapped_address bytes transaction_id =
    if ltb (length bytes) 8
    then inl StunFailed.xor_mapped_address_too_short
    else (let family = get_or bytes 1 0 in
        let port = bit_xor (read16 bytes 2) (magic_cookie / 2 ^ 16 % 2 ^ 16) in
        if family == 1
        then inr (socket_addr (ipv4_from (bit_xor (read_u32 bytes 4) magic_cookie)) port)
        else if family == 2
        then (if ltb (length bytes) 20
            then inl StunFailed.xor_mapped_address_v6_too_short
            else inr (
                socket_addr
                  (ipv6_from (xor_bytes (take 16 (drop 4 bytes)) (xor_mask transaction_id))) port))
        else inl (StunFailed.unknown_address_family family))

pub parse_mapped_address : List ℕ → StunFailed ⊎ SocketAddr
parse_mapped_address bytes =
    if ltb (length bytes) 8
    then inl StunFailed.mapped_address_too_short
    else (let family = get_or bytes 1 0 in
        let port = read16 bytes 2 in
        if family == 1
        then inr (
            socket_addr
              (IpAddr.v4 (get_or bytes 4 0) (get_or bytes 5 0) (get_or bytes 6 0)
                (get_or bytes 7 0))
              port)
        else if family == 2
        then (if ltb (length bytes) 20
            then inl StunFailed.mapped_address_v6_too_short
            else inr (socket_addr (ipv6_from (take 16 (drop 4 bytes))) port))
        else inl (StunFailed.unknown_address_family family))

-- `(n + 3) & !3`.
abbrev pub aligned : ℕ → ℕ
aligned n = (n + 3) / 4 * 4

-- The loop over the attributes, up to `end`, which is `20 + msg_len`.
pub parse_attributes : ℕ → List ℕ → List ℕ → ℕ → ℕ → StunFailed ⊎ SocketAddr
parse_attributes zero bytes id end offset = inl StunFailed.no_mapped_address
parse_attributes (suc fuel) bytes id end offset =
    let attr_type = read16 bytes offset in
    let attr_len = read16 bytes (offset + 2) in
    let attr_data = take attr_len (drop (offset + 4) bytes) in
    let next = parse_attributes fuel bytes id end (offset + (4 + aligned attr_len)) in
    if leb (offset + 4) end
    then (if ltb (length bytes) (offset + 4 + attr_len)
        then inl StunFailed.no_mapped_address
        else if attr_type == xor_mapped_address_type
        then parse_xor_mapped_address attr_data id
        else if attr_type == mapped_address_type
        then parse_mapped_address attr_data
        else next)
    else inl StunFailed.no_mapped_address

pub parse_binding_response : List ℕ → List ℕ → StunFailed ⊎ SocketAddr
parse_binding_response bytes expected_txn_id =
    let msg_len = read16 bytes 2 in
    if ltb (length bytes) 20
    then inl StunFailed.response_too_short
    else if not (read16 bytes 0 == binding_response_type)
    then inl (StunFailed.unexpected_message_type (read16 bytes 0))
    else if not (read_u32 bytes 4 == magic_cookie)
    then inl StunFailed.invalid_magic_cookie
    else if not (bytes_eq (take 12 (drop 8 bytes)) expected_txn_id)
    then inl StunFailed.transaction_id_mismatch
    else if ltb (length bytes) (20 + msg_len)
    then inl StunFailed.message_truncated
    else parse_attributes msg_len bytes expected_txn_id (20 + msg_len) 20
