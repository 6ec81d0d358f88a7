-- ===== src/Stun/Answers.antt =====
-- A server's answer written the way RFC 5389 says, and what the client reads from it.
use jamjam_client.Prelude.{
  ℕ, ◌^◌, ◌<◌, ◌≤◌, ◌≡◌, refl, sym, ◌∙◌, ap, inl, inr, Bool, true, false, List, [], ◌∷◌, ◌++◌,
  arith, length, take, length-append, take-append_length, take_all, map,
}
use jamjam_client.Prelude.Bytes.{be16, be32, from_be16-be16}
use jamjam_client.Prelude.Members.{AllOf}
use jamjam_client.Route.Types.{IpAddr}
use jamjam_client.Stun.{
  magic_cookie, binding_response_type, mapped_address_type, xor_mapped_address_type, socket_addr,
  parse_attributes, parse_binding_response,
}
use jamjam_client.Stun.Attributes.{attribute, attributes, IsOther, walk}
use jamjam_client.Stun.Addresses.{
  IsIp, plain_value, xor_value, length-plain_value, length-xor_value, plain_read, xor_read,
}
use jamjam_client.Stun.Asked.{bytes_eq_refl, IsResponse, stranger_fails}
use jamjam_client.Stun.Discover.{Received, await_answer}

-- RFC 5389, 6: the header and the attributes of a binding success response.
abbrev pub header : List ℕ → ℕ → List ℕ
header id size = be16 binding_response_type ++ be16 size ++ be32 magic_cookie ++ id

abbrev pub answer : List ℕ → List ℕ → List ℕ
answer id body = header id (length body) ++ body

take_prefix : (xs ys : List ℕ) (n : ℕ) → length xs ≡ n → take n (xs ++ ys) ≡ xs
take_prefix xs ys n e = ap (λ k. take k (xs ++ ys)) (sym e) ∙ take-append_length xs ys

parse_header :
    (id body : List ℕ)
    → length id ≡ 12
    → length body < 2 ^ 16
    → let bytes = answer id body in
      parse_binding_response bytes id ≡ parse_attributes (length body) bytes id (length bytes) 20
unfolding parse_binding_response
parse_header id body l h = ground (
  arith,
  from_be16-be16 (length body) h,
  length-append id body,
  take_prefix id body 12 l,
  bytes_eq_refl id,
)

-- How a server reports an address: as it is, or with the port and the address masked.
abbrev pub reported : Bool → List ℕ → IpAddr → ℕ → List ℕ
reported false id ip port = attribute mapped_address_type (plain_value ip port)
reported true id ip port = attribute xor_mapped_address_type (xor_value id ip port)

parse-answer :
    (is_masked : Bool) (id : List ℕ) (others : List (ℕ × List ℕ)) (ip : IpAddr) (port : ℕ)
    (more : List ℕ)
    → length id ≡ 12
    → AllOf IsOther others
    → IsIp ip
    → port < 2 ^ 16
    → let body = attributes others ++ (reported is_masked id ip port ++ more) in
      length body < 2 ^ 16 → parse_binding_response (answer id body) id ≡ inr (socket_addr ip port)
parse-answer true id others ip port more n o v h b =
    let value : List ℕ = xor_value id ip port in
    let body : List ℕ = attributes others ++ (attribute xor_mapped_address_type value ++ more) in
    parse_header id body n b
    ∙ ap (parse_attributes (length body) (answer id body) id (length (answer id body)))
        (omega arith)
    ∙ walk (length body) (header id (length body)) others xor_mapped_address_type value more id o
        (inl refl) (omega (arith, length-xor_value id ip port n)) (omega arith)
    ∙ xor_read id ip port n v h
parse-answer false id others ip port more n o v h b =
    let value : List ℕ = plain_value ip port in
    let body : List ℕ = attributes others ++ (attribute mapped_address_type value ++ more) in
    parse_header id body n b
    ∙ ap (parse_attributes (length body) (answer id body) id (length (answer id body)))
        (omega arith)
    ∙ walk (length body) (header id (length body)) others mapped_address_type value more id o
        (inr refl) (omega (arith, length-plain_value ip port)) (omega arith)
    ∙ plain_read ip port v h

-- The query skips what is no binding response to its request, and reads the address from an answer
-- to it of at most 576 bytes that reports the address in either form, after any attributes of
-- other types and before any further bytes.
pub await_answer-answer :
    (is_masked : Bool) (id : List ℕ) (others : List (ℕ × List ℕ)) (ip : IpAddr) (port : ℕ)
    (more : List ℕ) (strangers : List (List ℕ)) (rest : List Received)
    → length id ≡ 12
    → AllOf IsOther others
    → IsIp ip
    → port < 2 ^ 16
    → length (attributes others ++ (reported is_masked id ip port ++ more)) ≤ 556
    → AllOf (λ b. ¬ IsResponse id (take 576 b)) strangers
    → let body = attributes others ++ (reported is_masked id ip port ++ more) in
      await_answer id
        (map Received.datagram strangers ++ (Received.datagram (answer id body) ∷ rest))
      ≡ inr (socket_addr ip port)
unfolding await_answer
await_answer-answer is_masked id others ip port more [] rest n o v h b s =
    let body : List ℕ = attributes others ++ (reported is_masked id ip port ++ more) in
    let read = parse-answer is_masked id others ip port more n o v h (omega arith) in
    rw (take_all (answer id body) 576 (omega (arith, length-append id body)), read) refl
await_answer-answer is_masked id others ip port more (x ∷ xs) rest n o v h b s =
    let (e, failed) = stranger_fails (take 576 x) id s.0 in
    rw failed (await_answer-answer is_masked id others ip port more xs rest n o v h b s.1)
