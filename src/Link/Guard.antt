-- ===== src/Link/Guard.antt =====
-- What a link that checks its peer never does, and what it acts on.
use jamjam_client.Prelude.{
  ℕ, ◌≡◌, ◌≢◌, subst, inl, inr, ◌⊎◌, Bool, true, false, Option, some, List, [], ◌∷◌, arith,
  Option-cases,
}
use jamjam_client.Packet.{Packet, PacketType, type_eq}
use jamjam_client.Link.Types.{Opened, Keys, State, Result, PeerCheck, Answering, SecureLink}
use jamjam_client.Link.Libraries.{Crypto}
use jamjam_client.Link.Exchange.{open_check}
use jamjam_client.Link.Outcomes.{Accepts}
use jamjam_client.Link.Steps.{Step, open_packet-Step}
use jamjam_client.Link.Once.{Event, run}
use jamjam_client.Link.{peer_half, seal_in, seal, open_packet}

-- A link that checks its peer by `check`, and has not gone plain.
abbrev pub Guarded : PeerCheck → SecureLink → Type 0
Guarded check link = (link.peer ≡ some check) × (link.state ≢ State.unencrypted)

module _ (c : Crypto) where
  not_plain : (keys : Keys) → State.encrypted keys ≢ State.unencrypted
  not_plain keys e = subst (λ s. elim s [ State.encrypted _ ↦ Unit | _ ↦ ⊥ ]) e tt

  Guarded-Step :
      (check : PeerCheck) (link : SecureLink) (p : Packet) (link' : SecureLink) (o : Opened)
      → Step c link p link' o
      → Guarded check link
      → Guarded check link'
  Guarded-Step check link p link' o (Step.refuses reason _) g = g
  Guarded-Step check link p link' o (Step.accepts keys plain e a _) (known, g) =
      (known, not_plain _)
  Guarded-Step check link p link' o (Step.passes plain e _) g = g
  Guarded-Step check link p link' o (Step.waits plain e w _) g = g
  Guarded-Step check link p link' o (Step.falls_back plain e alone _ _) (known, g) =
      absurd (ground arith)
  Guarded-Step check link p link' o (Step.hears_again keys _ e _ _) g = g
  Guarded-Step check link p link' o (Step.rekeys peer_public signed half a strong _ _) (known, g) =
      (known, not_plain _)

  Guarded-seal :
      (s : State) (p : Packet) → s ≢ State.unencrypted → (seal_in c s p).0 ≢ State.unencrypted
  unfolding seal_in
  Guarded-seal State.negotiating p g = g
  Guarded-seal State.unencrypted p g = g
  Guarded-seal (State.encrypted keys) p g = not_plain _

  Guarded-run :
      (check : PeerCheck) (link : SecureLink) (past : List ℕ) (events : List Event)
      → Guarded check link
      → Guarded check (run c link past events).0
  unfolding run seal
  Guarded-run check link past [] g = g
  Guarded-run check link past (Event.sends p ∷ es) (known, g) =
      Guarded-run check (seal c link p).0 past es (known, Guarded-seal link.state p g)
  Guarded-run check link past (Event.arrives p ∷ es) g =
      Guarded-run check (open_packet c link p).0 _ es (
        Guarded-Step check link p (open_packet c link p).0 (open_packet c link p).1
          (open_packet-Step c link p) g)

  -- What a guarded link may make of a packet that arrives: it acts only on what is decrypted under
  -- its keys and on keep-alives, and makes keys only for a half that the peer signed.
  abbrev pub Trusted : PeerCheck → SecureLink → Packet → Opened → Type 0
  Trusted check link p (Opened.packet _) =
      ((keys : Keys) × (plain : List ℕ) × (link.state ≡ State.encrypted keys)
        × Accepts c keys p plain)
      ⊎ (type_eq p.packet_type PacketType.keep_alive ≡ true)
  Trusted check link p (Opened.key_exchange true) =
      (peer_public : List ℕ) × (open_check c check p.payload ≡ some peer_public)
  Trusted check link p (Opened.key_exchange false) = Unit
  Trusted check link p (Opened.dropped _) = Unit

  signed_half :
      (check : PeerCheck) (answering : Option Answering) (payload : List ℕ) (half : List ℕ × Bool)
      → peer_half c (some check) answering payload ≡ Result.ok half
      → (peer_public : List ℕ) × (open_check c check payload ≡ some peer_public)
  unfolding peer_half
  signed_half check answering payload half e = elim (Option-cases (open_check c check payload)) [
    | inr known ↦ known
    | inl none_known ↦ absurd (ground (arith, none_known, e))
  ]

  Trusted-Step :
      (check : PeerCheck) (link : SecureLink) (p : Packet) (link' : SecureLink) (o : Opened)
      → Step c link p link' o
      → Guarded check link
      → Trusted check link p o
  Trusted-Step check link p link' o (Step.refuses reason _) g = tt
  Trusted-Step check link p link' o (Step.accepts keys plain e a _) g = inl (keys, plain, e, a)
  Trusted-Step check link p link' o (Step.passes plain e _) (known, g) = absurd (g e)
  Trusted-Step check link p link' o (Step.waits plain e w _) g = inr w
  Trusted-Step check link p link' o (Step.falls_back plain e alone _ _) (known, g) =
      absurd (ground arith)
  Trusted-Step check link p link' o (Step.hears_again keys _ e _ _) g = tt
  Trusted-Step check link p link' o (Step.rekeys peer_public signed half a strong _ _) (known, g) =
      signed_half check link.answering p.payload (peer_public, signed)
        (subst (λ peer. peer_half c peer link.answering p.payload ≡ Result.ok (peer_public, signed))
          known half)

  -- A link that checks its peer, and has not gone plain, never does, whatever is sent and whatever
  -- arrives; and of any packet that arrives after that it acts only on one decrypted under its keys
  -- or a keep-alive, and makes keys only for a half that the peer signed.
  pub run-Trusted :
      (check : PeerCheck) (link : SecureLink) (past : List ℕ) (events : List Event) (p : Packet)
      → Guarded check link
      → Guarded check (run c link past events).0
        × Trusted check (run c link past events).0 p (open_packet c (run c link past events).0 p).1
  run-Trusted check link past events p g =
      let g' = Guarded-run check link past events g in
      let link' = (run c link past events).0 in
      (
        g',
        Trusted-Step check link' p (open_packet c link' p).0 (open_packet c link' p).1
            (open_packet-Step c link' p) g',
      )
