-- ===== src/Stun/Asked.antt =====
-- What a discovered address rests on: an answer to the request that was sent.
use jamjam_client.Prelude.{
  ℕ, ◌+◌, ◌≤◌, ◌≡◌, refl, subst, Bool, true, false, not, ◌⊎◌, inl, inr, Option, none, some, List,
  [], ◌∷◌, arith, length, take, drop,
}
use jamjam_client.Prelude.Members.{OneOf, first, later}
use jamjam_client.Link.Exchange.{bytes_eq}
use jamjam_client.Peers.Types.{SocketAddr}
use jamjam_client.Peers.{is_ipv6}
use jamjam_client.Stun.{
  StunFailed, binding_response_type, magic_cookie, read16, read_u32, parse_binding_response,
}
use jamjam_client.Stun.Discover.{
  Received, Query, StunResult, find_family, ask, mapped, await_answer, binding_request,
  discover_public_address_from,
}

pub bytes_eq_refl : (xs : List ℕ) → bytes_eq xs xs ≡ true
bytes_eq_refl [] = refl
bytes_eq_refl (x ∷ xs) = ground (arith, bytes_eq_refl xs)

bytes_eq_sound : (xs ys : List ℕ) → bytes_eq xs ys ≡ true → xs ≡ ys
bytes_eq_sound [] [] h = refl
bytes_eq_sound [] (y ∷ ys) h = absurd (ground arith)
bytes_eq_sound (x ∷ xs) [] h = absurd (ground arith)
bytes_eq_sound (x ∷ xs) (y ∷ ys) h = grind (arith, bytes_eq_sound xs ys)

-- A whole binding response to the request with this transaction id.
pub record IsResponse (id bytes : List ℕ) : Type 0 where
  pub of_type : read16 bytes 0 ≡ binding_response_type
  pub of_cookie : read_u32 bytes 4 ≡ magic_cookie
  pub of_id : take 12 (drop 8 bytes) ≡ id
  pub whole : 20 + read16 bytes 2 ≤ length bytes

response :
    (bytes id : List ℕ) (a : SocketAddr)
    → parse_binding_response bytes id ≡ inr a
    → IsResponse id bytes
unfolding parse_binding_response
response bytes id a h = ground (arith, bytes_eq_sound (take 12 (drop 8 bytes)) id)

result_cases :
    {A : Type 0} (o : StunFailed ⊎ A) → ((e : StunFailed) × (o ≡ inl e)) ⊎ ((a : A) × (o ≡ inr a))
result_cases (inl e) = inl (e, refl)
result_cases (inr a) = inr (a, refl)

pub stranger_fails :
    (bytes id : List ℕ)
    → ¬ IsResponse id bytes
    → (e : StunFailed) × (parse_binding_response bytes id ≡ inl e)
stranger_fails bytes id h = elim (result_cases (parse_binding_response bytes id)) [
  | inl failed ↦ failed
  | inr (a, found) ↦ absurd (h (response bytes id a found))
]

-- The datagram that an address was read from.
pub record IsSource (id : List ℕ) (received : List Received) (a : SocketAddr) : Type 0 where
  pub bytes : List ℕ
  pub came : OneOf (Received.datagram bytes) received
  pub answers : IsResponse id (take 576 bytes)
  pub says : parse_binding_response (take 576 bytes) id ≡ inr a

IsSource-later :
    (id : List ℕ) (x : Received) (rest : List Received) (a : SocketAddr)
    → IsSource id rest a
    → IsSource id (x ∷ rest) a
IsSource-later id x rest a s = record {
  bytes = s.bytes;
  came = later s.came;
  answers = s.answers;
  says = s.says;
}

await-IsSource :
    (id : List ℕ) (received : List Received) (a : SocketAddr)
    → await_answer id received ≡ inr a
    → IsSource id received a
unfolding await_answer
await-IsSource id [] a h = absurd (ground arith)
await-IsSource id (Received.receive_error ∷ rest) a h = absurd (ground arith)
await-IsSource id (Received.datagram bytes ∷ rest) a h =
    elim (result_cases (parse_binding_response (take 576 bytes) id)) [
      | inl (e, failed) ↦
          IsSource-later id (Received.datagram bytes) rest a
            (await-IsSource id rest a (ground (arith, failed)))
      | inr (b, found) ↦
          let says : parse_binding_response (take 576 bytes) id ≡ inr a = ground (arith, found) in
          record {
            bytes = bytes;
            came = first;
            answers = response (take 576 bytes) id a says;
            says = says;
          }
    ]

-- What a result of the query of one server rests on.
pub record IsAnswered (r : StunResult) (q : Query) : Type 0 where
  pub by_server : r.server ≡ q.server
  pub could_send : q.can_send ≡ true
  pub source : IsSource q.transaction_id q.received r.mapped_address

ask_sent :
    (to : Option SocketAddr) (c : Bool) (id : List ℕ) (received : List Received) (a : SocketAddr)
    → ask to c id received ≡ inr a
    → (c ≡ true) × (await_answer id received ≡ inr a)
ask_sent none c id received a h = absurd (ground arith)
ask_sent (some to) true id received a h = (refl, h)
ask_sent (some to) false id received a h = absurd (ground arith)

mapped_sent :
    (l : Option SocketAddr) (u : Option (List SocketAddr)) (c : Bool) (id : List ℕ)
    (received : List Received) (a : SocketAddr)
    → mapped l u c id received ≡ inr a
    → (c ≡ true) × (await_answer id received ≡ inr a)
mapped_sent none u c id received a h = absurd (ground arith)
mapped_sent (some l) none c id received a h = absurd (ground arith)
mapped_sent (some l) (some u) c id received a h =
    ask_sent (find_family (not (is_ipv6 l.ip)) u) c id received a h

binding_request-IsAnswered :
    (q : Query) (r : StunResult) → binding_request q ≡ inr r → IsAnswered r q
unfolding binding_request
binding_request-IsAnswered q r h =
    elim (result_cases (mapped q.local_addr q.looked_up q.can_send q.transaction_id q.received)) [
      | inl (e, failed) ↦ absurd (ground (arith, failed))
      | inr (a, found) ↦
          let sent =
            mapped_sent q.local_addr q.looked_up q.can_send q.transaction_id q.received a found in
          let here : record { mapped_address = a; server = q.server } ≡ r = ground (arith, found) in
          subst (λ t. IsAnswered t q) here
            (record {
              by_server = refl;
              could_send = sent.0;
              source = await-IsSource q.transaction_id q.received a sent.1;
            })
    ]

-- When the discovery gives an address, one of the servers has it from a datagram, of which the
-- first 576 bytes are a whole binding response with the magic cookie and the transaction id of the
-- request that could be sent to that server, and say the address.
pub discover-IsAnswered :
    (qs : List Query) (r : StunResult)
    → discover_public_address_from qs ≡ inr r
    → (q : Query) × OneOf q qs × IsAnswered r q
unfolding discover_public_address_from
discover-IsAnswered [] r h = absurd (ground arith)
discover-IsAnswered (q ∷ qs) r h = elim (result_cases (binding_request q)) [
  | inl (e, failed) ↦
      let rest = discover-IsAnswered qs r (ground (arith, failed)) in (rest.0, later rest.1, rest.2)
  | inr (s, found) ↦ (q, first, binding_request-IsAnswered q r (ground (arith, found)))
]
