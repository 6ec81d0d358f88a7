-- ===== src/Stun/Addresses.antt =====
-- An address written the way a server writes it, and read back.
use jamjam_client.Bits.{bit_xor-lt, bit_xor_twice}
use jamjam_client.Prelude.{
  ℕ, suc, ◌/◌, ◌%◌, ◌^◌, ◌<◌, ◌≤◌, bit_xor, ◌≡◌, refl, ◌∙◌, ap, ap₂, inr, List, [], ◌∷◌, ◌++◌,
  arith, length, take_all, length-append,
}
use jamjam_client.Prelude.Bytes.{be16, be32, from_be16, from_be32, from_be16-be16, from_be32-be32}
use jamjam_client.Route.Types.{IpAddr}
use jamjam_client.Stun.{
  magic_cookie, socket_addr, ipv4_from, ipv6_from, xor_bytes, xor_mask, parse_xor_mapped_address,
  parse_mapped_address,
}

-- The parts of an address fit their fields.
abbrev pub IsIp : IpAddr → Type 0
IsIp (IpAddr.v4 a b c d) = (a < 2 ^ 8) × (b < 2 ^ 8) × (c < 2 ^ 8) × (d < 2 ^ 8)
IsIp (IpAddr.v6 a b c d e f g h) =
    (a < 2 ^ 16)
    × (b < 2 ^ 16)
    × (c < 2 ^ 16)
    × (d < 2 ^ 16)
    × (e < 2 ^ 16)
    × (f < 2 ^ 16)
    × (g < 2 ^ 16)
    × (h < 2 ^ 16)

abbrev pub octets : IpAddr → List ℕ
octets (IpAddr.v4 a b c d) = a ∷ b ∷ c ∷ d ∷ []
octets (IpAddr.v6 a b c d e f g h) =
    be16 a ++ be16 b ++ be16 c ++ be16 d ++ be16 e ++ be16 f ++ be16 g ++ be16 h

abbrev family_of : IpAddr → ℕ
family_of (IpAddr.v4 a b c d) = 1
family_of (IpAddr.v6 a b c d e f g h) = 2

-- RFC 5389, 15.1: MAPPED-ADDRESS, the address as it is.
abbrev pub plain_value : IpAddr → ℕ → List ℕ
plain_value ip port = 0 ∷ family_of ip ∷ be16 port ++ octets ip

-- RFC 5389, 15.2: XOR-MAPPED-ADDRESS, the port with the upper half of the cookie, an IPv4 address with
-- the cookie, and an IPv6 address with the cookie and the transaction id.
abbrev masked : List ℕ → IpAddr → List ℕ
masked id (IpAddr.v4 a b c d) = be32 (bit_xor (from_be32 a b c d) magic_cookie)
masked id (IpAddr.v6 a b c d e f g h) =
    xor_bytes (octets (IpAddr.v6 a b c d e f g h)) (be32 magic_cookie ++ id)

abbrev pub xor_value : List ℕ → IpAddr → ℕ → List ℕ
xor_value id ip port = 0 ∷ family_of ip ∷ be16 (bit_xor port 8466) ++ masked id ip

xor_bytes_twice :
    (xs mask : List ℕ) → length xs ≤ length mask → xor_bytes (xor_bytes xs mask) mask ≡ xs
xor_bytes_twice [] mask h = refl
xor_bytes_twice (x ∷ xs) [] h = absurd (omega arith)
xor_bytes_twice (x ∷ xs) (m ∷ mask) h =
    ap₂ (λ y ys. y ∷ ys) (bit_xor_twice x m) (xor_bytes_twice xs mask (omega arith))

length-xor_bytes :
    (xs mask : List ℕ) → length xs ≤ length mask → length (xor_bytes xs mask) ≡ length xs
length-xor_bytes [] mask h = refl
length-xor_bytes (x ∷ xs) [] h = absurd (omega arith)
length-xor_bytes (x ∷ xs) (m ∷ mask) h = ap suc (length-xor_bytes xs mask (omega arith))

pub length-plain_value : (ip : IpAddr) (port : ℕ) → length (plain_value ip port) ≤ 20
length-plain_value (IpAddr.v4 a b c d) port = omega arith
length-plain_value (IpAddr.v6 a b c d e f g h) port = omega arith

pub length-xor_value :
    (id : List ℕ) (ip : IpAddr) (port : ℕ) → length id ≡ 12 → length (xor_value id ip port) ≤ 20
length-xor_value id (IpAddr.v4 a b c d) port n = omega arith
length-xor_value id (IpAddr.v6 a b c d e f g h) port n =
    let plain : List ℕ = octets (IpAddr.v6 a b c d e f g h) in
    omega (
      arith,
      length-xor_bytes plain (xor_mask id) (omega (arith, length-append (be32 magic_cookie) id)),
    )

octets6 :
    (a b c d e f g h : ℕ)
    → IsIp (IpAddr.v6 a b c d e f g h)
    → ipv6_from (octets (IpAddr.v6 a b c d e f g h)) ≡ IpAddr.v6 a b c d e f g h
octets6 a b c d e f g h v = ground (
  arith,
  from_be16-be16 a,
  from_be16-be16 b,
  from_be16-be16 c,
  from_be16-be16 d,
  from_be16-be16 e,
  from_be16-be16 f,
  from_be16-be16 g,
  from_be16-be16 h,
)

octets4 :
    (a b c d : ℕ) → IsIp (IpAddr.v4 a b c d) → ipv4_from (from_be32 a b c d) ≡ IpAddr.v4 a b c d
octets4 a b c d v = ground arith

pub plain_read :
    (ip : IpAddr) (port : ℕ)
    → IsIp ip
    → port < 2 ^ 16
    → parse_mapped_address (plain_value ip port) ≡ inr (socket_addr ip port)
unfolding parse_mapped_address
plain_read (IpAddr.v4 a b c d) port v h = ground (arith, from_be16-be16 port h)
plain_read (IpAddr.v6 a b c d e f g k) port v h =
    ap₂ (λ (i : IpAddr) (p : ℕ). inr (socket_addr i p)) (octets6 a b c d e f g k v)
      (from_be16-be16 port h)

port_back :
    (port : ℕ)
    → port < 2 ^ 16
    → bit_xor (from_be16 (bit_xor port 8466 / 2 ^ 8 % 2 ^ 8) (bit_xor port 8466 % 2 ^ 8)) 8466
      ≡ port
port_back port h =
    ap (λ t. bit_xor t 8466)
      (from_be16-be16 (bit_xor port 8466) (bit_xor-lt 16 port 8466 h (omega arith)))
    ∙ bit_xor_twice port 8466

address_back :
    (x : ℕ)
    → x < 2 ^ 32
    → bit_xor
        (from_be32
          (bit_xor x magic_cookie / 2 ^ 24 % 2 ^ 8)
          (bit_xor x magic_cookie / 2 ^ 16 % 2 ^ 8)
          (bit_xor x magic_cookie / 2 ^ 8 % 2 ^ 8)
          (bit_xor x magic_cookie % 2 ^ 8))
        magic_cookie
      ≡ x
address_back x h =
    ap (λ t. bit_xor t magic_cookie)
      (from_be32-be32 (bit_xor x magic_cookie) (bit_xor-lt 32 x magic_cookie h (omega arith)))
    ∙ bit_xor_twice x magic_cookie

xor_read6 :
    (id bytes : List ℕ) (port : ℕ)
    → length bytes ≡ 16
    → port < 2 ^ 16
    → parse_xor_mapped_address (0 ∷ 2 ∷ be16 (bit_xor port 8466) ++ bytes) id
      ≡ inr (socket_addr (ipv6_from (xor_bytes bytes (xor_mask id))) port)
unfolding parse_xor_mapped_address
xor_read6 id bytes port l h = ground (arith, port_back port h, take_all bytes 16)

pub xor_read :
    (id : List ℕ) (ip : IpAddr) (port : ℕ)
    → length id ≡ 12
    → IsIp ip
    → port < 2 ^ 16
    → parse_xor_mapped_address (xor_value id ip port) id ≡ inr (socket_addr ip port)
unfolding parse_xor_mapped_address
xor_read id (IpAddr.v4 a b c d) port l v h =
    ap₂ (λ (i : IpAddr) (p : ℕ). inr (socket_addr i p))
      (ap ipv4_from (address_back (from_be32 a b c d) (omega arith)) ∙ octets4 a b c d v)
      (port_back port h)
xor_read id (IpAddr.v6 a b c d e f g k) port l v h =
    let plain : List ℕ = octets (IpAddr.v6 a b c d e f g k) in
    let fits : 16 ≤ length (xor_mask id) = omega (arith, length-append (be32 magic_cookie) id) in
    xor_read6 id (xor_bytes plain (xor_mask id)) port (length-xor_bytes plain (xor_mask id) fits) h
    ∙ ap (λ (t : List ℕ). inr (socket_addr (ipv6_from t) port))
        (xor_bytes_twice plain (xor_mask id) fits)
    ∙ ap (λ (i : IpAddr). inr (socket_addr i port)) (octets6 a b c d e f g k v)
