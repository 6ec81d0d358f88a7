-- ===== src/Peers/Types.antt =====
-- src/network/signaling.rs: the types, and the standard library's `SocketAddr`. An IPv4 address has
-- zero for the last two fields. A text is the list of its bytes, and a `Uuid` a number.
use jamjam_client.Prelude.{ℕ, List, Option}
use jamjam_client.Route.Types.{IpAddr}

pub record SocketAddr : Type 0 where
  pub ip : IpAddr
  pub port : ℕ
  pub flowinfo : ℕ
  pub scope_id : ℕ

pub data CandidateType : Type 0 where
  host server_reflexive : CandidateType

pub record AddressCandidate : Type 0 where
  pub address : SocketAddr
  pub candidate_type : CandidateType
  pub priority : ℕ

pub record PeerInfo : Type 0 where
  pub id : ℕ
  pub name : List ℕ
  pub candidates : List AddressCandidate
  pub public_addr : Option SocketAddr
  pub local_addr : Option SocketAddr
  pub joined_at : ℕ
  pub features : List (List ℕ)
  pub link_key : Option (List ℕ)
