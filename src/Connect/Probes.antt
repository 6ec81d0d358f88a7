-- ===== src/Connect/Probes.antt =====
-- src/network/connection.rs: `Probing`, what the connectivity check has heard.
use jamjam_client.Prelude.{
  ℕ, suc, ◌-◌, ◌*◌, ◌/◌, ◌%◌, ◌^◌, bit_or, Bool, true, false, not, ◌&&◌, Option, none, some, List,
  [], ◌∷◌, length, get_elem?, get_or, set, replicate, ltb, leb, ◌==◌, if◌then◌else◌, ◌>>=◌,
}
use jamjam_client.Packet.{Packet, PacketType, type_eq, from_bytes, route_probe_token}
use jamjam_client.Peers.Types.{SocketAddr}
use jamjam_client.Peers.{socket_eq}
use jamjam_client.Connect.Types.{Probing}

abbrev pub probe_rounds : ℕ
probe_rounds = 5

abbrev pub is_some {ℓ} : {A : Type ℓ} → Option A → Bool
is_some none = false
is_some (some a) = true

-- `candidates.iter().position(|&addr| addr == from)`
unfoldable pub position : SocketAddr → List SocketAddr → Option ℕ
unfolding socket_eq
position from [] = none
position from (a ∷ rest) =
    let further = position from rest >>= λ i. some (suc i) in
    if socket_eq a from then some 0 else further

abbrev pub is_keep_alive : Option Packet → Bool
unfolding type_eq
is_keep_alive none = false
is_keep_alive (some packet) = type_eq packet.packet_type PacketType.keep_alive

abbrev pub answer_at : (ℕ → Bool) → Option Packet → Option ℕ → Bool
unfolding type_eq
answer_at sendable packet none = false
answer_at sendable packet (some index) = sendable index && is_keep_alive packet

-- `sendable` gives, for each candidate, whether a probe went out to it.
unfoldable pub is_probe_answer : List SocketAddr → (ℕ → Bool) → SocketAddr → List ℕ → Bool
unfolding position
is_probe_answer candidates sendable from bytes =
    answer_at sendable (from_bytes bytes) (position from candidates)

-- `((round as u32) << 16) | index as u32`
unfoldable pub probe_token : ℕ → ℕ → ℕ
probe_token round index = bit_or (round * 2 ^ 16 % 2 ^ 32) (index % 2 ^ 32)

unfoldable pub new : List SocketAddr → Probing
new candidates = record {
  candidates = candidates;
  sent_at = replicate (length candidates) (replicate probe_rounds none);
  rtt = replicate (length candidates) (replicate probe_rounds none);
}

-- `rows[index][round]`, and a write to it. The indices are in bounds where the code uses them.
abbrev pub cell : List (List (Option ℕ)) → ℕ → ℕ → Option ℕ
cell rows index round = get_or (get_or rows index []) round none

abbrev pub put : List (List (Option ℕ)) → ℕ → ℕ → Option ℕ → List (List (Option ℕ))
put rows index round v = set rows index (set (get_or rows index []) round v)

unfoldable pub sent : ℕ → ℕ → ℕ → Probing → Probing
sent index round at p = record p { sent_at = put p.sent_at index round (some at) }

-- `iter().flatten()` of a row.
unfoldable pub flatten : List (Option ℕ) → List ℕ
flatten [] = []
flatten (none ∷ row) = flatten row
flatten (some t ∷ row) = t ∷ flatten row

abbrev pub any_some : List (Option ℕ) → Bool
any_some [] = false
any_some (none ∷ row) = any_some row
any_some (some t ∷ row) = true

unfoldable pub sendable : Probing → ℕ → Bool
sendable p index = any_some (get_or p.sent_at index [])

unfoldable pub sent_count : Probing → ℕ → ℕ
unfolding flatten
sent_count p index = length (flatten (get_or p.sent_at index []))

unfoldable pub reply_count : Probing → ℕ → ℕ
unfolding flatten
reply_count p index = length (flatten (get_or p.rtt index []))

-- `sort` of numbers.
unfoldable pub insert_sorted : ℕ → List ℕ → List ℕ
insert_sorted x [] = x ∷ []
insert_sorted x (y ∷ ys) = if leb x y then x ∷ y ∷ ys else y ∷ insert_sorted x ys

unfoldable pub sort : List ℕ → List ℕ
unfolding insert_sorted
sort [] = []
sort (x ∷ xs) = insert_sorted x (sort xs)

unfoldable pub middle : List ℕ → Option ℕ
middle [] = none
middle (x ∷ xs) = get_elem? (x ∷ xs) ((length (x ∷ xs) - 1) / 2)

unfoldable pub median : Probing → ℕ → Option ℕ
unfolding flatten sort middle
median p index = middle (sort (flatten (get_or p.rtt index [])))

-- The time since a probe went out; `saturating_duration_since`.
abbrev pub since : ℕ → Option ℕ → Option ℕ
since now none = none
since now (some at) = some (now - at)

-- A reply that names a candidate and a round.
unfoldable pub count_reply : ℕ → ℕ → ℕ → Probing → Probing
count_reply index token now p =
    let round = token / 2 ^ 16 in
    if (token % 2 ^ 16 == index)
      && (ltb round probe_rounds && not (is_some (cell p.rtt index round)))
    then record p { rtt = put p.rtt index round (since now (cell p.sent_at index round)) }
    else p

unfoldable pub take_in : ℕ → Probing → Option ℕ → Option (Bool × ℕ) → Probing × Option ℕ
unfolding count_reply
take_in now p none token = (p, none)
take_in now p (some index) none = (p, none)
take_in now p (some index) (some (false, token)) = (p, some token)
take_in now p (some index) (some (true, token)) = (count_reply index token now p, none)

unfoldable pub hear : SocketAddr → List ℕ → ℕ → Probing → Probing × Option ℕ
unfolding is_probe_answer sendable take_in position
hear from bytes now p =
    if not (is_probe_answer p.candidates (sendable p) from bytes)
    then (p, none)
    else take_in now p (position from p.candidates)
        (from_bytes bytes >>= λ packet. route_probe_token packet)
