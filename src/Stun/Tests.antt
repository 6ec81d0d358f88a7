-- ===== src/Stun/Tests.antt =====
-- Runs of the queries on concrete datagrams.
use jamjam_client.Prelude.{ℕ, ◌≡◌, refl, length, true, some, inr, List, [], ◌∷◌, ◌++◌, arith}
use jamjam_client.Prelude.Members.{OneOf}
use jamjam_client.Route.Types.{IpAddr}
use jamjam_client.Peers.Types.{SocketAddr}
use jamjam_client.Stun.{
  socket_addr, build_binding_request, parse_attributes, parse_binding_response,
  parse_xor_mapped_address,
}
use jamjam_client.Stun.Discover.{
  Received, Query, StunResult, await_answer, binding_request, discover_public_address_from, request,
}
use jamjam_client.Stun.Attributes.{attributes}
use jamjam_client.Stun.Answers.{reported, answer, await_answer-answer}
use jamjam_client.Stun.Asked.{IsAnswered, discover-IsAnswered}

abbrev id : List ℕ
id = 1 ∷ 2 ∷ 3 ∷ 4 ∷ 5 ∷ 6 ∷ 7 ∷ 8 ∷ 9 ∷ 10 ∷ 11 ∷ 12 ∷ []

abbrev home : IpAddr
home = IpAddr.v4 192 168 1 100

-- An attribute of type 0x8022 of five bytes, which three zeros follow.
abbrev software : List (ℕ × List ℕ)
software = (32802, 1 ∷ 2 ∷ 3 ∷ 4 ∷ 5 ∷ []) ∷ []

abbrev body : List ℕ
body = attributes software ++ (reported true id home 5000 ++ [])

await_answer-answer_example :
    await_answer id (Received.datagram (9 ∷ 9 ∷ 9 ∷ []) ∷ Received.datagram (answer id body) ∷ [])
    ≡ inr (socket_addr home 5000)
await_answer-answer_example =
    await_answer-answer true id software home 5000 [] ((9 ∷ 9 ∷ 9 ∷ []) ∷ []) [] refl
      ((omega arith, (λ e. absurd (omega arith)), (λ e. absurd (omega arith)), omega arith), tt)
      (omega arith, omega arith, omega arith, omega arith) (omega arith) (omega arith)
      ((λ r. absurd (omega (arith, r.of_type))), tt)

abbrev local : SocketAddr
local = socket_addr (IpAddr.v4 0 0 0 0) 6000

abbrev silent : Query
silent = record {
  server = 1 ∷ [];
  local_addr = some local;
  looked_up = some (socket_addr (IpAddr.v4 8 8 8 8) 3478 ∷ []);
  transaction_id = id;
  can_send = true;
  received = [];
}

abbrev answering : Query
answering = record silent { server = 2 ∷ []; received = Received.datagram (answer id body) ∷ [] }

abbrev found : StunResult
found = record { mapped_address = socket_addr home 5000; server = 2 ∷ [] }

discovers : discover_public_address_from (silent ∷ answering ∷ []) ≡ inr found
unfolding discover_public_address_from binding_request await_answer parse_binding_response
    parse_attributes parse_xor_mapped_address
discovers = refl

discover-IsAnswered_example : (q : Query) × OneOf q (silent ∷ answering ∷ []) × IsAnswered found q
discover-IsAnswered_example = discover-IsAnswered (silent ∷ answering ∷ []) found discovers

requests : length (request silent) ≡ 20
unfolding request build_binding_request
requests = refl
