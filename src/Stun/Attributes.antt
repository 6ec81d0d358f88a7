-- ===== src/Stun/Attributes.antt =====
-- The loop over the attributes, at an answer whose attributes are written the way RFC 5389 says.
use mathlib.Core.List.{append_assoc}
use jamjam_client.Prelude.{
  ℕ, zero, suc, ◌+◌, ◌-◌, ◌^◌, ◌<◌, ◌≤◌, ◌≡◌, ◌≢◌, refl, sym, ◌∙◌, ap, ◌⊎◌, inl, inr, List, [], ◌∷◌,
  ◌++◌, arith, if◌then◌else◌, ◌==◌, length, get_or, drop, replicate, length-replicate,
  length-append, take-append_length,
}
use jamjam_client.Prelude.Bytes.{be16, from_be16-be16}
use jamjam_client.Prelude.Members.{AllOf}
use jamjam_client.Peers.Types.{SocketAddr}
use jamjam_client.Stun.{
  StunFailed, mapped_address_type, xor_mapped_address_type, aligned, parse_attributes,
  parse_xor_mapped_address, parse_mapped_address,
}

-- RFC 5389, 15: type, length, value, and zeros up to a multiple of four bytes.
abbrev pub attribute : ℕ → List ℕ → List ℕ
attribute kind value =
    be16 kind ++ be16 (length value) ++ value ++ replicate (aligned (length value) - length value) 0

abbrev pub attributes : List (ℕ × List ℕ) → List ℕ
attributes [] = []
attributes (x ∷ xs) = attribute x.0 x.1 ++ attributes xs

-- An attribute that the client does not read.
abbrev pub IsOther : ℕ × List ℕ → Type 0
IsOther x =
    (x.0 < 2 ^ 16)
    × (x.0 ≢ mapped_address_type)
    × (x.0 ≢ xor_mapped_address_type)
    × (length x.1 < 2 ^ 16)

get_or-append_add :
    (xs ys : List ℕ) (n k : ℕ) → n ≡ length xs + k → get_or (xs ++ ys) n 0 ≡ get_or ys k 0
get_or-append_add [] ys n k e = ap (λ i. get_or ys i 0) (omega arith)
get_or-append_add (x ∷ xs) ys zero k e = absurd (omega arith)
get_or-append_add (x ∷ xs) ys (suc n) k e = get_or-append_add xs ys n k (omega arith)

drop-append_add : (xs ys : List ℕ) (n k : ℕ) → n ≡ length xs + k → drop n (xs ++ ys) ≡ drop k ys
drop-append_add [] ys n k e = ap (λ i. drop i ys) (omega arith)
drop-append_add (x ∷ xs) ys zero k e = absurd (omega arith)
drop-append_add (x ∷ xs) ys (suc n) k e = drop-append_add xs ys n k (omega arith)

abbrev tail_of : List ℕ → List ℕ → List ℕ
tail_of value rest = value ++ (replicate (aligned (length value) - length value) 0 ++ rest)

attribute-append :
    (kind : ℕ) (value rest : List ℕ)
    → attribute kind value ++ rest ≡ be16 kind ++ (be16 (length value) ++ tail_of value rest)
attribute-append kind value rest =
    ap (λ (t : List ℕ). be16 kind ++ (be16 (length value) ++ t))
      (append_assoc value (replicate (aligned (length value) - length value) 0) rest)

-- The loop at an attribute.
at_attribute :
    (fuel : ℕ) (front : List ℕ) (kind : ℕ) (value rest id : List ℕ)
    → kind < 2 ^ 16
    → length value < 2 ^ 16
    → let bytes = front ++ (be16 kind ++ (be16 (length value) ++ tail_of value rest)) in
      parse_attributes (suc fuel) bytes id (length bytes) (length front) ≡ (
        if kind == xor_mapped_address_type
        then parse_xor_mapped_address value id
        else if kind == mapped_address_type
        then parse_mapped_address value
        else parse_attributes fuel bytes id
            (length bytes)
            (length front + (4 + aligned (length value))))
unfolding parse_attributes
at_attribute fuel front kind value rest id h l =
    let body : List ℕ = be16 kind ++ (be16 (length value) ++ tail_of value rest) in
    let bytes : List ℕ = front ++ body in
    let n : ℕ = length front in
    ground (
      arith,
      get_or-append_add front body n 0 (omega arith),
      get_or-append_add front body (n + 1) 1 refl,
      get_or-append_add front body (n + 2) 2 refl,
      get_or-append_add front body (n + 2 + 1) 3 (omega arith),
      drop-append_add front body (n + 4) 4 refl,
      from_be16-be16 kind h,
      from_be16-be16 (length value) l,
      length-append front body,
      length-append value (replicate (aligned (length value) - length value) 0 ++ rest),
      take-append_length value (replicate (aligned (length value) - length value) 0 ++ rest),
    )

at_attribute_of :
    (fuel : ℕ) (front : List ℕ) (kind : ℕ) (value rest id bytes : List ℕ)
    → kind < 2 ^ 16
    → length value < 2 ^ 16
    → bytes ≡ front ++ (attribute kind value ++ rest)
    → parse_attributes (suc fuel) bytes id (length bytes) (length front) ≡ (
        if kind == xor_mapped_address_type
        then parse_xor_mapped_address value id
        else if kind == mapped_address_type
        then parse_mapped_address value
        else parse_attributes fuel bytes id
            (length bytes)
            (length front + (4 + aligned (length value))))
at_attribute_of fuel front kind value rest id bytes h l e =
    rw (e, attribute-append kind value rest) (at_attribute fuel front kind value rest id h l)

length-attribute :
    (front : List ℕ) (kind : ℕ) (value : List ℕ)
    → length (front ++ attribute kind value) ≡ length front + (4 + aligned (length value))
length-attribute front kind value = omega (
  arith,
  length-append front (attribute kind value),
  length-append value (replicate (aligned (length value) - length value) 0),
  length-replicate {A = ℕ} (aligned (length value) - length value) 0,
)

at_other :
    (fuel : ℕ) (front : List ℕ) (x : ℕ × List ℕ) (rest id : List ℕ)
    → IsOther x
    → let bytes = (front ++ attribute x.0 x.1) ++ rest in
      parse_attributes (suc fuel) bytes id (length bytes) (length front)
      ≡ parse_attributes fuel bytes id (length bytes) (length (front ++ attribute x.0 x.1))
at_other fuel front x rest id o =
    let at =
      at_attribute_of fuel front x.0 x.1 rest id ((front ++ attribute x.0 x.1) ++ rest) o.0 o.3
        (append_assoc front (attribute x.0 x.1) rest) in
    rw (length-attribute front x.0 x.1) (ground (arith, at, o.1, o.2))

abbrev pub read_value : ℕ → List ℕ → List ℕ → StunFailed ⊎ SocketAddr
read_value kind value id =
    if kind == xor_mapped_address_type
    then parse_xor_mapped_address value id
    else parse_mapped_address value

pub walk :
    (fuel : ℕ) (front : List ℕ) (others : List (ℕ × List ℕ)) (kind : ℕ) (value more id : List ℕ)
    → AllOf IsOther others
    → (kind ≡ xor_mapped_address_type) ⊎ (kind ≡ mapped_address_type)
    → length value < 2 ^ 16
    → let body = attributes others ++ (attribute kind value ++ more) in
      length body ≤ fuel
      → parse_attributes fuel (front ++ body) id (length (front ++ body)) (length front)
        ≡ read_value kind value id
walk zero front others kind value more id o k l h =
    absurd (omega (arith, length-append (attributes others) (attribute kind value ++ more)))
walk (suc fuel) front [] kind value more id o k l h =
    at_attribute_of fuel front kind value more id (front ++ (attribute kind value ++ more))
      (elim k [ inl e ↦ omega arith | inr e ↦ omega arith ]) l refl
    ∙ elim k [ inl e ↦ ground arith | inr e ↦ ground arith ]
walk (suc fuel) front (x ∷ others) kind value more id o k l h =
    let here : List ℕ = attribute x.0 x.1 in
    let last : List ℕ = attribute kind value ++ more in
    let moved : front ++ ((here ++ attributes others) ++ last)
        ≡ (front ++ here) ++ (attributes others ++ last) =
      ap (λ (t : List ℕ). front ++ t) (append_assoc here (attributes others) last)
      ∙ sym (append_assoc front here (attributes others ++ last)) in
    ap (λ (b : List ℕ). parse_attributes (suc fuel) b id (length b) (length front)) moved
    ∙ at_other fuel front x (attributes others ++ last) id o.0
    ∙ walk fuel (front ++ here) others kind value more id o.1 k l (
        omega (
          arith,
          length-append (here ++ attributes others) last,
          length-append here (attributes others),
          length-append (attributes others) last,
        ))
