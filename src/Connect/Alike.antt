-- ===== src/Connect/Alike.antt =====
-- Steps of a link that leave its keys as they are.
use jamjam_client.Prelude.{
  ◌≡◌, refl, sym, ap, subst, ◌∙◌, Bool, true, false, if◌then◌else◌, by_if, inl, inr,
}
use jamjam_client.Packet.{Packet, PacketType, type_eq}
use jamjam_client.Link.{
  checks_peer, is_decided, seal_in, seal, receive_in, receive, receive_control, count_refused,
  open_packet,
}
use jamjam_client.Link.Types.{Opened, Keys, State, SecureLink}
use jamjam_client.Link.Libraries.{Crypto}
use jamjam_client.Link.Sealing.{seal_with, open_encrypted}
use jamjam_client.Link.Outcomes.{open_encrypted-cases, seal_with-cases}

-- A link under the same keys, or as far from keys, as before.
abbrev pub Alike : State → State → Type 0
Alike State.negotiating State.negotiating = Unit
Alike State.unencrypted State.unencrypted = Unit
Alike (State.encrypted k) (State.encrypted k') =
    (k.send ≡ k'.send) × (k.receive ≡ k'.receive) × (k.peer_public ≡ k'.peer_public)
Alike _ _ = ⊥

pub Alike-refl : (s : State) → Alike s s
Alike-refl State.negotiating = tt
Alike-refl State.unencrypted = tt
Alike-refl (State.encrypted k) = (refl, refl, refl)

pub Alike-trans : (a b d : State) → Alike a b → Alike b d → Alike a d
Alike-trans State.negotiating State.negotiating d g h = h
Alike-trans State.unencrypted State.unencrypted d g h = h
Alike-trans (State.encrypted k) (State.encrypted k') (State.encrypted k'') g h =
    (g.0 ∙ h.0, g.1 ∙ h.1, g.2 ∙ h.2)
Alike-trans State.negotiating State.unencrypted d g h = absurd g
Alike-trans State.negotiating (State.encrypted k) d g h = absurd g
Alike-trans State.unencrypted State.negotiating d g h = absurd g
Alike-trans State.unencrypted (State.encrypted k) d g h = absurd g
Alike-trans (State.encrypted k) State.negotiating d g h = absurd g
Alike-trans (State.encrypted k) State.unencrypted d g h = absurd g
Alike-trans (State.encrypted k) (State.encrypted k') State.negotiating g h = absurd h
Alike-trans (State.encrypted k) (State.encrypted k') State.unencrypted g h = absurd h

module _ (c : Crypto) where
  seal_with-Alike :
      (k : Keys) (p : Packet) → Alike (State.encrypted k) (State.encrypted (seal_with c k p).0)
  seal_with-Alike k p = elim (seal_with-cases c k p) [
    | inl e ↦ rw e (refl, refl, refl)
    | inr (e, n, s) ↦ rw e (refl, refl, refl)
  ]

  seal_in-Alike : (s : State) (p : Packet) → Alike s (seal_in c s p).0
  unfolding seal_in
  seal_in-Alike State.negotiating p = tt
  seal_in-Alike State.unencrypted p = tt
  seal_in-Alike (State.encrypted k) p = seal_with-Alike k p

  pub seal-Alike : (l : SecureLink) (p : Packet) → Alike l.state (seal c l p).0.state
  unfolding seal
  seal-Alike l p = seal_in-Alike l.state p

  open_encrypted-Alike :
      (k : Keys) (p : Packet) → Alike (State.encrypted k) (State.encrypted (open_encrypted c k p).0)
  open_encrypted-Alike k p = elim (open_encrypted-cases c k p) [
    | inl (plain, a) ↦ rw a.result (refl, refl, refl)
    | inr (reason, why, e) ↦ rw e (refl, refl, refl)
  ]

  -- Once it is decided, no packet but a control one changes that.
  receive_in-Alike :
      (checks : Bool) (s : State) (p : Packet)
      → is_decided s ≡ true
      → Alike s (receive_in c checks s p).0
  unfolding receive_in is_decided
  receive_in-Alike checks State.negotiating p h = absurd (cc)
  receive_in-Alike checks State.unencrypted p h =
      by_if (λ (x : State × Opened). Alike State.unencrypted x.0) p.flags.encrypted _ _ (λ t. tt)
        (λ f. tt)
  receive_in-Alike checks (State.encrypted k) p h = open_encrypted-Alike k p

  counted_link : (x : SecureLink × Opened) → (count_refused c x).0.state ≡ x.0.state
  unfolding count_refused
  counted_link (l, Opened.dropped reason) = refl
  counted_link (l, Opened.packet p) = refl
  counted_link (l, Opened.key_exchange a) = refl

  not_control :
      (l : SecureLink) (p : Packet)
      → type_eq p.packet_type PacketType.control ≡ false
      → open_packet c l p ≡ count_refused c (receive c l p)
  unfolding open_packet
  not_control l p t =
      ap (λ b. count_refused c (if b then receive_control c l p else receive c l p)) t

  pub open_packet-Alike :
      (l : SecureLink) (p : Packet)
      → type_eq p.packet_type PacketType.control ≡ false
      → is_decided l.state ≡ true
      → Alike l.state (open_packet c l p).0.state
  unfolding receive
  open_packet-Alike l p t d =
      subst (Alike l.state)
        (sym (
          ap (λ (x : SecureLink × Opened). x.0.state) (not_control l p t)
          ∙ counted_link (receive c l p)))
        (receive_in-Alike (checks_peer l.peer) l.state p d)
