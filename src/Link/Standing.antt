-- ===== src/Link/Standing.antt =====
-- What stands once it is settled: agreed keys, and the refusal to go plain with a known peer.
use jamjam_client.Prelude.{
  ℕ, ◌≡◌, ◌≢◌, refl, sym, subst, inl, inr, true, Option, List, [], ◌∷◌, arith,
}
use jamjam_client.Packet.{Packet}
use jamjam_client.Link.Types.{Opened, Keys, State, Result, SecureLink}
use jamjam_client.Link.Libraries.{Crypto}
use jamjam_client.Link.Outcomes.{seal_with-cases}
use jamjam_client.Link.Steps.{Step, open_packet-Step}
use jamjam_client.Link.Once.{Event, run}
use jamjam_client.Link.{answer_to, seal_in, seal, open_packet}

-- Confirmed keys that are the same as `keys`, but for the counters.
pub record Standing (keys : Keys) (keys' : Keys) : Type 0 where
  pub same_send : keys'.send ≡ keys.send
  pub same_receive : keys'.receive ≡ keys.receive
  pub same_peer : keys'.peer_public ≡ keys.peer_public
  pub confirmed : keys'.confirmed ≡ true

-- The state holds the same confirmed keys.
abbrev pub Holds : Keys → State → Type 0
Holds keys State.negotiating = ⊥
Holds keys (State.encrypted keys') = Standing keys keys'
Holds keys State.unencrypted = ⊥

module _ (c : Crypto) where
  pub refuses_rekey :
      (keys : Keys) (s : State) (peer_public : List ℕ)
      → Holds keys s
      → answer_to c s peer_public ≢ Result.ok true
  unfolding answer_to
  refuses_rekey keys State.negotiating peer_public h a = absurd h
  refuses_rekey keys State.unencrypted peer_public h a = absurd h
  refuses_rekey keys (State.encrypted keys') peer_public h a = absurd (ground (arith, h.confirmed))

  pub Holds-Step :
      (keys : Keys) (link : SecureLink) (p : Packet) (link' : SecureLink) (o : Opened)
      → Step c link p link' o
      → Holds keys link.state
      → Holds keys link'.state
  Holds-Step keys link p link' o (Step.refuses reason _) h = h
  Holds-Step keys link p link' o (Step.accepts keys' plain e a _) h =
      let h' : Standing keys keys' = subst (Holds keys) e h in
      record {
        same_send = h'.same_send;
        same_receive = h'.same_receive;
        same_peer = h'.same_peer;
        confirmed = refl;
      }
  Holds-Step keys link p link' o (Step.passes plain e _) h = h
  Holds-Step keys link p link' o (Step.waits plain e w _) h = h
  Holds-Step keys link p link' o (Step.falls_back plain e alone _ _) h =
      absurd (subst (Holds keys) e h)
  Holds-Step keys link p link' o (Step.hears_again keys' _ e _ _) h = h
  Holds-Step keys link p link' o (Step.rekeys peer_public signed half a strong _ _) h =
      absurd (refuses_rekey keys link.state peer_public h a)

  pub Holds-seal :
      (keys : Keys) (s : State) (p : Packet) → Holds keys s → Holds keys (seal_in c s p).0
  unfolding seal_in
  Holds-seal keys State.negotiating p h = absurd h
  Holds-seal keys State.unencrypted p h = absurd h
  Holds-seal keys (State.encrypted keys') p h = elim (seal_with-cases c keys' p) [
    | inl e ↦ subst (λ (r : Keys × Option Packet). Standing keys r.0) (sym e) h
    | inr (e, _, _) ↦
        subst (λ (r : Keys × Option Packet). Standing keys r.0) (sym e)
          (record {
            same_send = h.same_send;
            same_receive = h.same_receive;
            same_peer = h.same_peer;
            confirmed = h.confirmed;
          })
  ]

  -- Once the link holds confirmed keys, whatever is sent and whatever arrives, it still holds them:
  -- the same two keys, for the same peer, confirmed.
  pub run-Holds :
      (keys : Keys) (link : SecureLink) (past : List ℕ) (events : List Event)
      → Holds keys link.state
      → Holds keys (run c link past events).0.state
  unfolding run seal
  run-Holds keys link past [] h = h
  run-Holds keys link past (Event.sends p ∷ es) h =
      run-Holds keys (seal c link p).0 past es (Holds-seal keys link.state p h)
  run-Holds keys link past (Event.arrives p ∷ es) h = run-Holds keys (open_packet c link p).0 _ es (
      Holds-Step keys link p (open_packet c link p).0 (open_packet c link p).1
        (open_packet-Step c link p) h)
