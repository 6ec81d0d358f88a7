-- ===== src/Link/Once.antt =====
-- Over the whole life of a link, whatever is sent and whatever arrives.
use jamjam_client.Prelude.{
  ℕ, ◌≡◌, refl, sym, subst, ◌∙◌, inl, inr, true, false, not, Option, List, [], ◌∷◌, ◌++◌, arith,
  if◌then◌else◌,
}
use jamjam_client.Prelude.Counters.{contains, is_empty}
use jamjam_client.Packet.{Packet}
use jamjam_client.Link.Types.{Opened, Keys, State, Result, SecureLink}
use jamjam_client.Link.Libraries.{Crypto}
use jamjam_client.Link.Replay.History.{
  Tracks, default-Tracks, is_fresh, is_new-is_fresh, accept-Tracks,
}
use jamjam_client.Link.Exchange.{derive_keys}
use jamjam_client.Link.Sealing.{counter_of}
use jamjam_client.Link.Outcomes.{Accepts, keys_after, seal_with-cases}
use jamjam_client.Link.Steps.{Step, open_packet-Step, rekeyed}
use jamjam_client.Link.{answer_to, seal_in, seal, open_packet}

pub data Event : Type 0 where
  sends arrives : Packet → Event

-- No number twice.
abbrev pub Distinct : List ℕ → Type 0
Distinct [] = Unit
Distinct (x ∷ xs) = (contains xs x ≡ false) × Distinct xs

-- The counter of an encrypted packet that was acted on.
abbrev pub taken : Packet → Opened → List ℕ
taken p (Opened.packet _) = if p.flags.encrypted then counter_of p.payload ∷ [] else []
taken p _ = []

module _ (c : Crypto) where
  -- The link after `events`, and the counters of all encrypted packets acted on.
  unfoldable pub run : SecureLink → List ℕ → List Event → SecureLink × List ℕ
  run link past [] = (link, past)
  run link past (Event.sends p ∷ es) = run (seal c link p).0 past es
  run link past (Event.arrives p ∷ es) =
      run (open_packet c link p).0 (taken p (open_packet c link p).1 ++ past) es

-- What the state knows of the counters taken so far.
abbrev pub Kept : State → List ℕ → Type 0
Kept (State.encrypted keys) past = Tracks keys.window past × (keys.confirmed ≡ not (is_empty past))
Kept _ past = past ≡ []

-- A link that takes new keys has taken no counter yet.
none_before :
    (c : Crypto) (s : State) (peer_public : List ℕ) (past : List ℕ)
    → Kept s past
    → answer_to c s peer_public ≡ Result.ok true
    → past ≡ []
unfolding answer_to
none_before c State.negotiating peer_public past k a = k
none_before c State.unencrypted peer_public past k a = k
none_before c (State.encrypted keys) peer_public [] k a = refl
none_before c (State.encrypted keys) peer_public (x ∷ xs) k a = absurd (ground (arith, k.1))

Kept-plain : (s : State) (past : List ℕ) → Kept s past → s ≡ State.negotiating → past ≡ []
Kept-plain s past k e = subst (λ s. Kept s past) e k

plain-Kept :
    (link : SecureLink) (p : Packet) (past : List ℕ)
    → p.flags.encrypted ≡ false
    → Kept link.state past
    → Distinct past
    → Kept link.state (taken p (Opened.packet p) ++ past)
      × Distinct (taken p (Opened.packet p) ++ past)
plain-Kept link p past plain k d =
    subst
      (λ marked.
        Kept link.state ((if marked then counter_of p.payload ∷ [] else []) ++ past)
        × Distinct ((if marked then counter_of p.payload ∷ [] else []) ++ past))
      (sym plain) (k, d)

module _ (c : Crypto) where
  Kept-Accepts :
      (keys : Keys) (p : Packet) (plain past : List ℕ)
      → Accepts c keys p plain
      → Kept (State.encrypted keys) past
      → Distinct past
      → Kept (State.encrypted (keys_after c keys p)) (counter_of p.payload ∷ past)
        × Distinct (counter_of p.payload ∷ past)
  Kept-Accepts keys p plain past a (tracks, _) d =
      let counter = counter_of p.payload in
      let new : is_fresh past counter ≡ true =
        sym (is_new-is_fresh keys.window past counter tracks) ∙ a.fresh in
      ((accept-Tracks keys.window past counter tracks a.fresh, refl), (ground (arith, new), d))

  Kept-Step :
      (link : SecureLink) (p : Packet) (link' : SecureLink) (o : Opened) (past : List ℕ)
      → Step c link p link' o
      → Kept link.state past
      → Distinct past
      → Kept link'.state (taken p o ++ past) × Distinct (taken p o ++ past)
  unfolding derive_keys
  Kept-Step link p link' o past (Step.refuses reason _) k d = (k, d)
  Kept-Step link p link' o past (Step.accepts keys plain e a _) k d =
      subst
        (λ marked.
          Kept (State.encrypted (keys_after c keys p))
            ((if marked then counter_of p.payload ∷ [] else []) ++ past)
          × Distinct ((if marked then counter_of p.payload ∷ [] else []) ++ past))
        (sym a.marked) (Kept-Accepts keys p plain past a (subst (λ s. Kept s past) e k) d)
  Kept-Step link p link' o past (Step.passes plain e _) k d = plain-Kept link p past plain k d
  Kept-Step link p link' o past (Step.waits plain e w _) k d = plain-Kept link p past plain k d
  Kept-Step link p link' o past (Step.falls_back plain e alone _ _) k d =
      plain-Kept (record link { state = State.unencrypted }) p past plain
        (Kept-plain link.state past k e) d
  Kept-Step link p link' o past (Step.hears_again keys _ e _ _) k d = (k, d)
  Kept-Step link p link' o past (Step.rekeys peer_public signed h a strong _ _) k d =
      let e : past ≡ [] = none_before c link.state peer_public past k a in
      (
        subst (λ past. Kept (rekeyed c link peer_public signed).state past) (sym e)
            (default-Tracks, refl),
        d,
      )

  Kept-seal : (s : State) (p : Packet) (past : List ℕ) → Kept s past → Kept (seal_in c s p).0 past
  unfolding seal_in
  Kept-seal State.negotiating p past k = k
  Kept-seal State.unencrypted p past k = k
  Kept-seal (State.encrypted keys) p past k = elim (seal_with-cases c keys p) [
    | inl e ↦ subst (λ (r : Keys × Option Packet). Kept (State.encrypted r.0) past) (sym e) k
    | inr (e, _, _) ↦
        subst (λ (r : Keys × Option Packet). Kept (State.encrypted r.0) past) (sym e) k
  ]

  Kept-run :
      (link : SecureLink) (past : List ℕ) (events : List Event)
      → Kept link.state past
      → Distinct past
      → Distinct (run c link past events).1
  unfolding run seal
  Kept-run link past [] k d = d
  Kept-run link past (Event.sends p ∷ es) k d =
      Kept-run (seal c link p).0 past es (Kept-seal link.state p past k) d
  Kept-run link past (Event.arrives p ∷ es) k d =
      let (link', o) = open_packet c link p in
      let (k', d') = Kept-Step link p link' o past (open_packet-Step c link p) k d in
      Kept-run link' (taken p o ++ past) es k' d'

  -- Over the whole life of a link that has no keys yet, whatever is sent, whatever arrives and
  -- however often the keys are made again, no two encrypted packets with the same counter are acted
  -- on.
  pub run-Distinct :
      (link : SecureLink) (events : List Event)
      → link.state ≡ State.negotiating
      → Distinct (run c link [] events).1
  run-Distinct link events e = Kept-run link [] events (subst (λ s. Kept s []) (sym e) refl) tt
