-- ===== src/Link/Steps.antt =====
-- The life of a link as a step relation: what a packet that arrives may do, and nothing else.
use jamjam_client.Prelude.{
  ℕ, ◌+◌, ◌%◌, ◌^◌, ◌≡◌, refl, sym, subst, inl, inr, Bool, true, false, not, Option, none, some,
  List, Bool-cases, Option-cases, by_if, if◌then◌else◌, ◌>>=◌,
}
use jamjam_client.Packet.{Packet, PacketType, type_eq}
use jamjam_client.Link.Types.{Reason, Opened, Keys, State, Result, PeerCheck, SecureLink}
use jamjam_client.Link.Libraries.{Crypto}
use jamjam_client.Link.Exchange.{bytes_eq, derive_keys}
use jamjam_client.Link.Sealing.{with_encrypted, open_encrypted}
use jamjam_client.Link.Outcomes.{Accepts, keys_after, open_encrypted-cases}
use jamjam_client.Link.Refusals.{
  IsControl, IsKeepAlive, Halves, MayRekey, Refused, encrypted_here, encrypted_early, plain_checked,
  unreadable, no_half, own_half, weak, heard_again, may_rekey, not_answered,
}
use jamjam_client.Link.{
  opened, checks_peer, peer_half, answer_to, make_answer, make_keys, settle, exchange,
  receive_control, receive_in, receive, open_packet, count_refused,
}

module _ (c : Crypto) where
  abbrev pub refusing : SecureLink → SecureLink
  refusing link = record link { refused = (link.refused + 1) % 2 ^ 64 }

  abbrev pub keys_with : SecureLink → List ℕ → Keys
  keys_with link peer_public =
      derive_keys c (c.diffie_hellman link.secret peer_public) link.public peer_public

  -- The link with the keys made from a half of the peer's.
  abbrev pub rekeyed : SecureLink → List ℕ → Bool → SecureLink
  rekeyed link peer_public signed = record link {
    state = State.encrypted (keys_with link peer_public);
    answering = link.answering >>= λ a. some (make_answer c a link.public peer_public signed);
  }

  pub data Step (link : SecureLink) (packet : Packet) : SecureLink → Opened → Type 0 where
    -- Refused, for its reason, and counted.
    refuses :
        (reason : Reason)
        → Refused c link packet reason
        → Step link packet (refusing link) (Opened.dropped reason)
    -- Decrypted under the link's keys.
    accepts :
        (keys : Keys) (plain : List ℕ)
        → link.state ≡ State.encrypted keys
        → Accepts c keys packet plain
        → IsControl packet false
        → Step link packet
            (record link { state = State.encrypted (keys_after c keys packet) })
            (Opened.packet (record (with_encrypted false packet) { payload = plain }))
    -- Taken plain, on a link that is not encrypted.
    passes :
        packet.flags.encrypted ≡ false
        → link.state ≡ State.unencrypted
        → IsControl packet false
        → Step link packet link (Opened.packet packet)
    -- A plain keep-alive, before there are keys.
    waits :
        packet.flags.encrypted ≡ false
        → link.state ≡ State.negotiating
        → type_eq packet.packet_type PacketType.keep_alive ≡ true
        → IsControl packet false
        → Step link packet link (Opened.packet packet)
    -- The first plain packet, but for keep-alives, of a peer that is not checked.
    falls_back :
        packet.flags.encrypted ≡ false
        → link.state ≡ State.negotiating
        → link.peer ≡ none
        → IsControl packet false
        → IsKeepAlive packet false
        → Step link packet (record link { state = State.unencrypted }) (Opened.packet packet)
    -- The half that the keys were made from, again.
    hears_again :
        (keys : Keys) (half : List ℕ × Bool)
        → link.state ≡ State.encrypted keys
        → Halves c link packet half
        → bytes_eq keys.peer_public half.0 ≡ true
        → Step link packet link (Opened.key_exchange false)
    -- A half of the peer's, not the link's own, from which the keys are made: there are none yet, or
    -- those there are were made from another half and are not confirmed.
    rekeys :
        (peer_public : List ℕ) (signed : Bool)
        → peer_half c link.peer link.answering packet.payload ≡ Result.ok (peer_public, signed)
        → answer_to c link.state peer_public ≡ Result.ok true
        → c.was_contributory (c.diffie_hellman link.secret peer_public) ≡ true
        → Halves c link packet (peer_public, signed)
        → MayRekey c link.state peer_public
        → Step link packet (rekeyed link peer_public signed) (Opened.key_exchange true)

  -- A step to what an operation gives, once refusals are counted.
  abbrev Takes : SecureLink → Packet → SecureLink × Opened → Type 0
  Takes link packet r = Step link packet (count_refused c r).0 (count_refused c r).1

  -- The same for what an operation makes of the state.
  abbrev Turns : SecureLink → Packet → State × Opened → Type 0
  Turns link packet r = Takes link packet (record link { state = r.0 }, r.1)

  keys-Turns :
      (link : SecureLink) (keys : Keys) (p : Packet)
      → link.state ≡ State.encrypted keys
      → IsControl p false
      → Turns link p
          (State.encrypted (open_encrypted c keys p).0, opened c (open_encrypted c keys p).1)
  unfolding opened count_refused
  keys-Turns link keys p e n = elim (open_encrypted-cases c keys p) [
    | inl (plain, a) ↦
        subst (λ (r : Keys × Result Packet). Turns link p (State.encrypted r.0, opened c r.1))
          (sym a.result) (accepts keys plain e a n)
    | inr (reason, why, r) ↦
        subst (λ (r : Keys × Result Packet). Turns link p (State.encrypted r.0, opened c r.1))
          (sym r)
          (subst (λ s. Step link p (refusing (record link { state = s })) (Opened.dropped reason)) e
            (refuses reason (unreadable keys n e why)))
  ]

  receive-Step :
      (link : SecureLink) (s : State) (p : Packet)
      → IsControl p false
      → Takes (record link { state = s }) p (receive c (record link { state = s }) p)
  unfolding receive receive_in count_refused
  receive-Step link State.unencrypted p n =
      by_if (Turns (record link { state = State.unencrypted }) p) p.flags.encrypted _ _
        (λ marked. refuses Reason.encrypted_on_unencrypted (encrypted_here n marked refl))
        (λ plain. passes plain refl n)
  receive-Step link State.negotiating p n =
      let link' = record link { state = State.negotiating } in
      by_if (Turns link' p) p.flags.encrypted _ _
        (λ marked. refuses Reason.encrypted_before_keys (encrypted_early n marked refl))
        (λ plain.
          by_if (Turns link' p) (type_eq p.packet_type PacketType.keep_alive) _ _
            (λ kept. waits plain refl kept n)
            (λ media. elim (Option-cases link.peer) [
              | inl alone ↦
                  subst
                    (λ (o : Option PeerCheck). Turns link' p (
                      if checks_peer o
                      then (State.negotiating, Opened.dropped Reason.plain_from_encrypting_peer)
                      else (State.unencrypted, Opened.packet p)))
                    (sym alone) (falls_back plain refl alone n media)
              | inr (check, known) ↦
                  subst
                    (λ (o : Option PeerCheck). Turns link' p (
                      if checks_peer o
                      then (State.negotiating, Opened.dropped Reason.plain_from_encrypting_peer)
                      else (State.unencrypted, Opened.packet p)))
                    (sym known)
                    (refuses Reason.plain_from_encrypting_peer
                      (plain_checked check n plain refl media known))
            ]))
  receive-Step link (State.encrypted keys) p n =
      keys-Turns (record link { state = State.encrypted keys }) keys p refl n

  make_keys-Step :
      (link : SecureLink) (p : Packet) (half : List ℕ × Bool)
      → Halves c link p half
      → answer_to c link.state half.0 ≡ Result.ok true
      → Takes link p (make_keys c link half.0 half.1)
  unfolding make_keys count_refused
  make_keys-Step link p half h a =
      elim (Bool-cases (c.was_contributory (c.diffie_hellman link.secret half.0))) [
        | inl strong ↦
            subst
              (λ b. Takes link p (
                if not b
                then (link, Opened.dropped Reason.weak_key)
                else (rekeyed link half.0 half.1, Opened.key_exchange true)))
              (sym strong)
              (rekeys half.0 half.1 h.reads a strong h (may_rekey c link.state half.0 a))
        | inr low ↦
            subst
              (λ b. Takes link p (
                if not b
                then (link, Opened.dropped Reason.weak_key)
                else (rekeyed link half.0 half.1, Opened.key_exchange true)))
              (sym low)
              (refuses Reason.weak_key (weak half h (may_rekey c link.state half.0 a) low))
      ]

  settle-Step :
      (link : SecureLink) (p : Packet) (half : List ℕ × Bool) (r : Result Bool)
      → Halves c link p half
      → answer_to c link.state half.0 ≡ r
      → Takes link p (settle c link half r)
  unfolding settle count_refused
  settle-Step link p half (Result.err reason) h a = refuses reason (not_answered c link p half h a)
  settle-Step link p half (Result.ok false) h a =
      let (keys, e, same) = heard_again c link.state half.0 a in hears_again keys half e h same
  settle-Step link p half (Result.ok true) h a = make_keys-Step link p half h a

  exchange-Step :
      (link : SecureLink) (p : Packet) (r : Result (List ℕ × Bool))
      → IsControl p true
      → peer_half c link.peer link.answering p.payload ≡ r
      → Takes link p (exchange c link r)
  unfolding exchange count_refused
  exchange-Step link p (Result.err reason) t h = refuses reason (no_half t h)
  exchange-Step link p (Result.ok half) t h =
      by_if (Takes link p) (bytes_eq half.0 link.public) _ _
        (λ own. refuses Reason.own_exchange (own_half half t h own))
        (λ other.
          settle-Step link p half (answer_to c link.state half.0)
            (record { control = t; reads = h; other = other }) refl)

  -- Whatever packet arrives, in whatever state, the link takes one of these steps, each under its own
  -- conditions. A packet other than control is accepted under the keys there are; or is taken plain, on
  -- an unencrypted link, as a keep-alive before there are keys, or, if it is no keep-alive and the peer
  -- is not checked, as the first of a link that is unencrypted from then on. A half of another key than
  -- the link's own is heard again, if the keys were made from it, or the keys are made from it, if there
  -- are none or those there are are not confirmed. Or the packet is refused, for a reason that holds of
  -- it, and counted, and the link is otherwise as before.
  pub open_packet-Step :
      (link : SecureLink) (p : Packet)
      → Step link p (open_packet c link p).0 (open_packet c link p).1
  unfolding open_packet receive_control
  open_packet-Step link p =
      by_if (Takes link p) (type_eq p.packet_type PacketType.control) _ _
        (λ t. exchange-Step link p (peer_half c link.peer link.answering p.payload) t refl)
        (λ n. receive-Step link link.state p n)
