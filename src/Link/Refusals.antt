-- ===== src/Link/Refusals.antt =====
-- Why a packet that arrives is refused.
use jamjam_client.Prelude.{
  ◌≡◌, refl, subst, ◌⊎◌, inl, inr, Bool, true, false, some, List, ℕ, arith, Bool-cases,
}
use jamjam_client.Packet.{Packet, PacketType, type_eq}
use jamjam_client.Link.Types.{Reason, Keys, State, Result, PeerCheck, SecureLink}
use jamjam_client.Link.Libraries.{Crypto}
use jamjam_client.Link.Exchange.{bytes_eq}
use jamjam_client.Link.Outcomes.{Unreadable}
use jamjam_client.Link.{peer_half, answer_to}

abbrev pub IsControl : Packet → Bool → Type 0
IsControl packet is = type_eq packet.packet_type PacketType.control ≡ is

abbrev pub IsKeepAlive : Packet → Bool → Type 0
IsKeepAlive packet is = type_eq packet.packet_type PacketType.keep_alive ≡ is

module _ (c : Crypto) where
  -- A control packet with a half of this key, which is not the link's own.
  pub record Halves (link : SecureLink) (packet : Packet) (half : List ℕ × Bool) : Type 0 where
    pub control : IsControl packet true
    pub reads : peer_half c link.peer link.answering packet.payload ≡ Result.ok half
    pub other : bytes_eq half.0 link.public ≡ false

  -- A state in which keys are made from this key of the peer's: there are none yet, or those there are
  -- were made from another and nothing has been read under them.
  abbrev pub MayRekey : State → List ℕ → Type 0
  MayRekey state peer_public =
      (state ≡ State.negotiating)
      ⊎ ((keys : Keys) × (state ≡ State.encrypted keys)
          × (bytes_eq keys.peer_public peer_public ≡ false)
          × (keys.confirmed ≡ false))

  pub data Refused (link : SecureLink) (packet : Packet) : Reason → Type 0 where
    encrypted_here :
        IsControl packet false
        → packet.flags.encrypted ≡ true
        → link.state ≡ State.unencrypted
        → Refused link packet Reason.encrypted_on_unencrypted
    encrypted_early :
        IsControl packet false
        → packet.flags.encrypted ≡ true
        → link.state ≡ State.negotiating
        → Refused link packet Reason.encrypted_before_keys
    plain_checked :
        (check : PeerCheck)
        → IsControl packet false
        → packet.flags.encrypted ≡ false
        → link.state ≡ State.negotiating
        → IsKeepAlive packet false
        → link.peer ≡ some check
        → Refused link packet Reason.plain_from_encrypting_peer
    unreadable :
        (keys : Keys) {reason : Reason}
        → IsControl packet false
        → link.state ≡ State.encrypted keys
        → Unreadable c keys packet reason
        → Refused link packet reason
    no_half :
        {reason : Reason}
        → IsControl packet true
        → peer_half c link.peer link.answering packet.payload ≡ Result.err reason
        → Refused link packet reason
    own_half :
        (half : List ℕ × Bool)
        → IsControl packet true
        → peer_half c link.peer link.answering packet.payload ≡ Result.ok half
        → bytes_eq half.0 link.public ≡ true
        → Refused link packet Reason.own_exchange
    half_on_plain :
        (half : List ℕ × Bool)
        → Halves link packet half
        → link.state ≡ State.unencrypted
        → Refused link packet Reason.exchange_on_unencrypted
    other_half :
        (half : List ℕ × Bool) (keys : Keys)
        → Halves link packet half
        → link.state ≡ State.encrypted keys
        → bytes_eq keys.peer_public half.0 ≡ false
        → keys.confirmed ≡ true
        → Refused link packet Reason.another_key
    weak :
        (half : List ℕ × Bool)
        → Halves link packet half
        → MayRekey link.state half.0
        → c.was_contributory (c.diffie_hellman link.secret half.0) ≡ false
        → Refused link packet Reason.weak_key

  -- Only a link with keys from this half hears it again.
  pub heard_again :
      (s : State) (peer_public : List ℕ)
      → answer_to c s peer_public ≡ Result.ok false
      → (keys : Keys) × (s ≡ State.encrypted keys) × (bytes_eq keys.peer_public peer_public ≡ true)
  unfolding answer_to
  heard_again State.unencrypted peer_public e = absurd (ground arith)
  heard_again State.negotiating peer_public e = absurd (ground arith)
  heard_again (State.encrypted keys) peer_public e = (keys, refl, ground arith)

  pub may_rekey :
      (s : State) (peer_public : List ℕ)
      → answer_to c s peer_public ≡ Result.ok true
      → MayRekey s peer_public
  unfolding answer_to
  may_rekey State.unencrypted peer_public e = absurd (ground arith)
  may_rekey State.negotiating peer_public e = inl refl
  may_rekey (State.encrypted keys) peer_public e = inr (keys, refl, ground arith, ground arith)

  Refused-state :
      (link : SecureLink) (p : Packet) (half : List ℕ × Bool) (s : State) {reason : Reason}
      → Halves link p half
      → link.state ≡ s
      → answer_to c s half.0 ≡ Result.err reason
      → Refused link p reason
  unfolding answer_to
  Refused-state link p half State.unencrypted {reason} h s e =
      let same : Reason.exchange_on_unencrypted ≡ reason = cc in
      subst (Refused link p) same (half_on_plain half h s)
  Refused-state link p half State.negotiating h s e = absurd (ground arith)
  Refused-state link p half (State.encrypted keys) {reason} h s e =
      elim (Bool-cases (bytes_eq keys.peer_public half.0)) [
        | inl same ↦ absurd (ground (arith, same, e))
        | inr differ ↦ elim (Bool-cases keys.confirmed) [
          | inr young ↦ absurd (ground (arith, differ, young, e))
          | inl proven ↦
              let same : Reason.another_key ≡ reason = ground (arith, differ, proven, e) in
              subst (Refused link p) same (other_half half keys h s differ proven)
        ]
      ]

  -- A half that is not answered.
  pub not_answered :
      (link : SecureLink) (p : Packet) (half : List ℕ × Bool) {reason : Reason}
      → Halves link p half
      → answer_to c link.state half.0 ≡ Result.err reason
      → Refused link p reason
  not_answered link p half h e = Refused-state link p half link.state h refl e
