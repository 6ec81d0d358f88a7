-- ===== src/Peers/Tests.antt =====
-- Candidate addresses, and cases where the theorems' hypotheses hold.
use jamjam_client.Prelude.{ℕ, ◌^◌, ◌<◌, ◌≡◌, refl, none, some, [], ◌∷◌, arith}
use jamjam_client.Route.Types.{IpAddr}
use jamjam_client.Route.{route_preference}
use jamjam_client.Peers.Types.{SocketAddr, PeerInfo}
use jamjam_client.Peers.Ranked.{host_order}
use jamjam_client.Peers.Offered.{Offers, get_sorted_candidates-Offers}
use jamjam_client.Peers.{host, server_reflexive, get_sorted_candidates}

abbrev v4_at : ℕ → ℕ → SocketAddr
v4_at a d = record { ip = IpAddr.v4 a 168 0 d; port = 5000; flowinfo = 0; scope_id = 0 }

abbrev lan : SocketAddr
lan = v4_at 192 7

abbrev public : SocketAddr
public = v4_at 203 7

abbrev unspecified : SocketAddr
unspecified = record { ip = IpAddr.v4 0 0 0 0; port = 5000; flowinfo = 0; scope_id = 0 }

abbrev ana : PeerInfo
ana = record {
  id = 2;
  name = [];
  candidates = server_reflexive public ∷ host lan ∷ [];
  public_addr = some (v4_at 203 8);
  local_addr = some unspecified;
  joined_at = 0;
  features = [];
  link_key = none;
}

tried : get_sorted_candidates ana ≡ lan ∷ public ∷ v4_at 203 8 ∷ []
unfolding get_sorted_candidates host server_reflexive
tried = refl

host_order_example :
    ((server_reflexive public).priority < (host public).priority)
    × ((host public).priority < (host lan).priority)
    × ((host lan).priority < 2 ^ 32)
unfolding route_preference
host_order_example = host_order lan public public (omega arith)

get_sorted_candidates-Offers_example : Offers ana (get_sorted_candidates ana)
get_sorted_candidates-Offers_example = get_sorted_candidates-Offers ana
