-- ===== src/Link.antt =====
-- src/network/encryption.rs: the encryption of the link to one peer. A link is a value, and each
-- operation gives the link as it is afterwards. The random secret is an argument.
pub mod Replay
pub mod Types
pub mod Libraries
pub mod Exchange
pub mod Sealing
pub mod Outcomes
pub mod Refusals
pub mod Steps
pub mod Once
pub mod Standing
pub mod Guard
pub mod Nonces
pub mod Delivery
pub mod Agreement
mod Tests
use jamjam_client.Prelude.{
  ℕ, zero, suc, ◌+◌, ◌-◌, ◌*◌, ◌%◌, ◌^◌, Bool, true, false, not, ◌&&◌, ◌||◌, Option, none, some,
  List, [], ◌∷◌, ◌++◌, ltb, leb, ◌==◌, if◌then◌else◌, then_some, ◌>>=◌, length, drop,
}
use jamjam_client.Packet.{Packet, PacketType, type_eq, control}
use Types.{LinkSecurity, Reason, Opened, Keys, State, Result, PeerCheck, Answering, SecureLink}
use Libraries.{Crypto}
use Exchange.{
  bytes_eq, key_exchange, suite, parse_link_key, parse_any_key_exchange, parse_key_exchange,
  answer_signed_text, signed_payload, new_check, open_check, derive_keys,
}
use Sealing.{seal_with, open_encrypted}

module _ (c : Crypto) where
  -- `with_secret`
  abbrev pub with_secret : List ℕ → Option PeerCheck → SecureLink
  with_secret secret peer = record {
    secret = secret;
    public = c.public_key secret;
    peer = peer;
    answering = none;
    state = State.negotiating;
    refused = 0;
  }

  unfoldable pub for_peer : List ℕ → Option (List ℕ) → Option (List ℕ) → SecureLink
  for_peer secret ours peer_key = with_secret secret (
      ours >>= λ ours. peer_key >>= λ peer_key.
      parse_link_key c peer_key >>= λ theirs. some (new_check c ours theirs (c.public_key secret)))

  unfoldable pub answering_link : List ℕ → List ℕ → SecureLink
  answering_link secret ours = record (with_secret secret none) {
    answering = some (record { ours = ours; answer = none });
  }

abbrev pub checks_peer : Option PeerCheck → Bool
checks_peer none = false
checks_peer (some _) = true

unfoldable pub security_of : State → LinkSecurity
security_of State.negotiating = LinkSecurity.negotiating
security_of (State.encrypted keys) =
    if keys.confirmed then LinkSecurity.encrypted else LinkSecurity.negotiating
security_of State.unencrypted = LinkSecurity.unencrypted

unfoldable pub can_send_media : State → Bool
unfolding security_of
can_send_media state = elim (security_of state) [ LinkSecurity.negotiating ↦ false | _ ↦ true ]

unfoldable pub wants_key_exchange : State → Bool
wants_key_exchange State.negotiating = true
wants_key_exchange (State.encrypted keys) = not keys.confirmed
wants_key_exchange State.unencrypted = false

unfoldable pub has_keys : State → Bool
has_keys (State.encrypted _) = true
has_keys _ = false

unfoldable pub is_decided : State → Bool
is_decided State.negotiating = false
is_decided _ = true

-- `key_exchange_packet`: the payload of the peer's check, else the answer, else one not signed.
unfoldable pub key_exchange_payload : Option PeerCheck → Option Answering → List ℕ → List ℕ
key_exchange_payload (some check) answering public = check.payload
key_exchange_payload none none public = key_exchange ∷ suite ∷ public
key_exchange_payload none (some a) public = elim a.answer [
  | some payload ↦ payload
  | none ↦ key_exchange ∷ suite ∷ public
]

unfoldable pub key_exchange_packet : SecureLink → Packet
unfolding control
key_exchange_packet link = control 0 (key_exchange_payload link.peer link.answering link.public)

module _ (c : Crypto) where
  unfoldable pub seal_in : State → Packet → State × Option Packet
  unfolding type_eq
  seal_in State.unencrypted packet = (State.unencrypted, some packet)
  seal_in State.negotiating packet =
      (State.negotiating, then_some (type_eq packet.packet_type PacketType.keep_alive) packet)
  seal_in (State.encrypted keys) packet =
      let (keys', out) = seal_with c keys packet in (State.encrypted keys', out)

  unfoldable pub seal : SecureLink → Packet → SecureLink × Option Packet
  seal link packet =
      let (state', out) = seal_in link.state packet in (record link { state = state' }, out)

  -- What the caller of `open_encrypted` makes of its result.
  unfoldable pub opened : Result Packet → Opened
  opened (Result.ok packet) = Opened.packet packet
  opened (Result.err reason) = Opened.dropped reason

  unfoldable pub receive_in : Bool → State → Packet → State × Opened
  unfolding type_eq
  receive_in checks State.unencrypted packet =
      if packet.flags.encrypted
      then (State.unencrypted, Opened.dropped Reason.encrypted_on_unencrypted)
      else (State.unencrypted, Opened.packet packet)
  receive_in checks State.negotiating packet =
      if packet.flags.encrypted
      then (State.negotiating, Opened.dropped Reason.encrypted_before_keys)
      else if type_eq packet.packet_type PacketType.keep_alive
      then (State.negotiating, Opened.packet packet)
      else if checks
      then (State.negotiating, Opened.dropped Reason.plain_from_encrypting_peer)
      else (State.unencrypted, Opened.packet packet)
  receive_in checks (State.encrypted keys) packet =
      let (keys', result) = open_encrypted c keys packet in (State.encrypted keys', opened result)

  unfoldable pub receive : SecureLink → Packet → SecureLink × Opened
  receive link packet =
      let (state', o) = receive_in (checks_peer link.peer) link.state packet in
      (record link { state = state' }, o)

  -- The peer's ephemeral key in a control packet, and whether its half is signed.
  unfoldable pub peer_half : Option PeerCheck → Option Answering → List ℕ → Result (List ℕ × Bool)
  peer_half (some check) _ payload = elim (open_check c check payload) [
    | some peer_public ↦ Result.ok (peer_public, true)
    | none ↦ Result.err Reason.not_signed_by_peer
  ]
  peer_half none (some _) payload = elim (parse_any_key_exchange payload) [
    | some half ↦ Result.ok half
    | none ↦ Result.err Reason.other_control
  ]
  peer_half none none payload = elim (parse_key_exchange payload) [
    | some peer_public ↦ Result.ok (peer_public, false)
    | none ↦ Result.err Reason.other_control
  ]

  -- Whether the keys are made (again) for this key of the peer.
  unfoldable pub answer_to : State → List ℕ → Result Bool
  answer_to State.unencrypted peer_public = Result.err Reason.exchange_on_unencrypted
  answer_to (State.encrypted keys) peer_public =
      if bytes_eq keys.peer_public peer_public
      then Result.ok false
      else if keys.confirmed
      then Result.err Reason.another_key
      else Result.ok true
  answer_to State.negotiating peer_public = Result.ok true

  -- The answer of a link that signs for any app.
  unfoldable pub make_answer : Answering → List ℕ → List ℕ → Bool → Answering
  make_answer a public peer_public signed = record a {
    answer = then_some signed (
        signed_payload c a.ours (answer_signed_text (c.verifying_key a.ours) peer_public public)
          public);
  }

  unfoldable pub make_keys : SecureLink → List ℕ → Bool → SecureLink × Opened
  make_keys link peer_public signed =
      let shared = c.diffie_hellman link.secret peer_public in
      if not (c.was_contributory shared) then (link, Opened.dropped Reason.weak_key) else (
        record link {
          state = State.encrypted (derive_keys c shared link.public peer_public);
          answering = link.answering >>= λ a. some (make_answer a link.public peer_public signed);
        },
        Opened.key_exchange true,
      )

  -- What follows once it is known whether to answer.
  unfoldable pub settle : SecureLink → List ℕ × Bool → Result Bool → SecureLink × Opened
  settle link half (Result.err reason) = (link, Opened.dropped reason)
  settle link half (Result.ok false) = (link, Opened.key_exchange false)
  settle link half (Result.ok true) = make_keys link half.0 half.1

  unfoldable pub exchange : SecureLink → Result (List ℕ × Bool) → SecureLink × Opened
  exchange link (Result.err reason) = (link, Opened.dropped reason)
  exchange link (Result.ok half) =
      if bytes_eq half.0 link.public
      then (link, Opened.dropped Reason.own_exchange)
      else settle link half (answer_to link.state half.0)

  unfoldable pub receive_control : SecureLink → Packet → SecureLink × Opened
  receive_control link packet = exchange link (peer_half link.peer link.answering packet.payload)

  -- `open`, which counts what is dropped.
  unfoldable pub count_refused : SecureLink × Opened → SecureLink × Opened
  count_refused (link, Opened.dropped reason) =
      (record link { refused = (link.refused + 1) % 2 ^ 64 }, Opened.dropped reason)
  count_refused (link, Opened.packet packet) = (link, Opened.packet packet)
  count_refused (link, Opened.key_exchange answer) = (link, Opened.key_exchange answer)

  unfoldable pub open_packet : SecureLink → Packet → SecureLink × Opened
  unfolding type_eq
  open_packet link packet = count_refused (
      if type_eq packet.packet_type PacketType.control
      then receive_control link packet
      else receive link packet)
