-- ===== src/Link/Nonces.antt =====
-- The counters that a link seals its packets under: each is a nonce.
use jamjam_client.Prelude.{
  ℕ, ◌+◌, ◌/◌, ◌%◌, ◌^◌, ◌<◌, ◌≡◌, ◌≢◌, refl, sym, subst, ap, inl, inr, ◌⊎◌, Bool, true, false,
  Option, none, some, List, [], ◌∷◌, ◌++◌, arith, if◌then◌else◌, Option-cases,
}
use jamjam_client.Prelude.Bytes.{be64, from_be32-be32}
use jamjam_client.Prelude.Counters.{contains}
use jamjam_client.Packet.{Packet, header_bytes}
use jamjam_client.Link.Types.{Opened, Keys, State, Result, SecureLink}
use jamjam_client.Link.Libraries.{Crypto}
use jamjam_client.Link.Exchange.{bytes_eq, derive_keys}
use jamjam_client.Link.Sealing.{counter_of, nonce, with_encrypted, sealed_packet}
use jamjam_client.Link.Outcomes.{seal_with-cases}
use jamjam_client.Link.Steps.{Step, open_packet-Step, keys_with}
use jamjam_client.Link.Once.{Event, Distinct}
use jamjam_client.Link.Standing.{refuses_rekey}
use jamjam_client.Link.{answer_to, settle, make_keys, exchange, seal_in, seal, open_packet}

pub counter_of-be64 : (n : ℕ) (bytes : List ℕ) → n < 2 ^ 64 → counter_of (be64 n ++ bytes) ≡ n
unfolding counter_of
counter_of-be64 n bytes h =
    rw (from_be32-be32 (n / 2 ^ 32) (omega arith), from_be32-be32 (n % 2 ^ 32) (omega arith))
      (omega arith)

-- The counter of an encrypted packet that goes out.
abbrev pub used : Option Packet → List ℕ
used none = []
used (some q) = if q.flags.encrypted then counter_of q.payload ∷ [] else []

module _ (c : Crypto) where
  -- The counters of all encrypted packets that went out, the latest first.
  unfoldable pub run_used : SecureLink → List ℕ → List Event → List ℕ
  run_used link past [] = past
  run_used link past (Event.sends p ∷ es) =
      run_used (seal c link p).0 (used (seal c link p).1 ++ past) es
  run_used link past (Event.arrives p ∷ es) = run_used (open_packet c link p).0 past es

  used-sealed_packet :
      (send : List ℕ) (n : ℕ) (p : Packet)
      → n < 2 ^ 64
      → (used (sealed_packet c send n p) ≡ []) ⊎ (used (sealed_packet c send n p) ≡ n ∷ [])
  unfolding sealed_packet with_encrypted
  used-sealed_packet send n p h =
      elim (Option-cases
        (c.encrypt send (nonce n) p.payload (header_bytes (with_encrypted true p)))) [
          | inl e ↦ inl (rw e refl)
          | inr (bytes, e) ↦ inr (rw e (ap (λ m. m ∷ []) (counter_of-be64 n bytes h)))
        ]

-- Confirmed keys whose next counter is above all of `past`.
abbrev pub Spent : List ℕ → State → Type 0
Spent past State.negotiating = ⊥
Spent past (State.encrypted keys) =
    (keys.confirmed ≡ true) × ((m : ℕ) → contains past m ≡ true → m < keys.next_counter)
Spent past State.unencrypted = ⊥

module _ (c : Crypto) where
  refuses_new_keys :
      (past : List ℕ) (s : State) (peer_public : List ℕ)
      → Spent past s
      → answer_to c s peer_public ≢ Result.ok true
  refuses_new_keys past State.negotiating peer_public b a = absurd b
  refuses_new_keys past State.unencrypted peer_public b a = absurd b
  refuses_new_keys past (State.encrypted keys) peer_public b a =
      refuses_rekey c keys (State.encrypted keys) peer_public
        (record { same_send = refl; same_receive = refl; same_peer = refl; confirmed = b.0 }) a

  Spent-Step :
      (past : List ℕ) (link : SecureLink) (p : Packet) (link' : SecureLink) (o : Opened)
      → Step c link p link' o
      → Spent past link.state
      → Spent past link'.state
  Spent-Step past link p link' o (Step.refuses reason _) b = b
  Spent-Step past link p link' o (Step.accepts keys plain e a _) b =
      (refl, (subst (Spent past) e b).1)
  Spent-Step past link p link' o (Step.passes plain e _) b = b
  Spent-Step past link p link' o (Step.waits plain e w _) b = b
  Spent-Step past link p link' o (Step.falls_back plain e alone _ _) b =
      absurd (subst (Spent past) e b)
  Spent-Step past link p link' o (Step.hears_again keys _ e _ _) b = b
  Spent-Step past link p link' o (Step.rekeys peer_public signed half a strong _ _) b =
      absurd (refuses_new_keys past link.state peer_public b a)

  Spent-sealed :
      (past : List ℕ) (keys : Keys) (p : Packet)
      → Spent past (State.encrypted keys)
      → Distinct past
      → keys.next_counter + 1 < 2 ^ 64
      → let now = used (sealed_packet c keys.send keys.next_counter p) ++ past in
        Spent now (State.encrypted (record keys { next_counter = keys.next_counter + 1 }))
        × Distinct now
  Spent-sealed past keys p (confirmed, below) d h =
      let n = keys.next_counter in
      elim (used-sealed_packet c keys.send n p (omega arith)) [
        | inl e ↦ rw e ((confirmed, λ m e. ground (arith, below m e)), d)
        | inr e ↦ rw e ((confirmed, λ m e. ground (arith, below m)), (ground (arith, below n), d))
      ]

  Spent-seal :
      (past : List ℕ) (s : State) (p : Packet)
      → Spent past s
      → Distinct past
      → Spent (used (seal_in c s p).1 ++ past) (seal_in c s p).0
        × Distinct (used (seal_in c s p).1 ++ past)
  unfolding seal_in
  Spent-seal past State.negotiating p b d = absurd b
  Spent-seal past State.unencrypted p b d = absurd b
  Spent-seal past (State.encrypted keys) p b d = elim (seal_with-cases c keys p) [
    | inl e ↦
        subst
          (λ (r : Keys × Option Packet).
            Spent (used r.1 ++ past) (State.encrypted r.0) × Distinct (used r.1 ++ past))
          (sym e) (b, d)
    | inr (e, h, _) ↦
        subst
          (λ (r : Keys × Option Packet).
            Spent (used r.1 ++ past) (State.encrypted r.0) × Distinct (used r.1 ++ past))
          (sym e) (Spent-sealed past keys p b d h)
  ]

  -- On a link with confirmed keys, whose next counter is above the counters its packets have gone
  -- out under, no counter is ever used again, whatever is sent and whatever arrives.
  pub run_used-Distinct :
      (link : SecureLink) (past : List ℕ) (events : List Event)
      → Spent past link.state
      → Distinct past
      → Distinct (run_used c link past events)
  unfolding run_used seal
  run_used-Distinct link past [] b d = d
  run_used-Distinct link past (Event.sends p ∷ es) b d =
      let (b', d') = Spent-seal past link.state p b d in
      run_used-Distinct (seal c link p).0 _ es b' d'
  run_used-Distinct link past (Event.arrives p ∷ es) b d =
      run_used-Distinct (open_packet c link p).0 past es
        (Spent-Step past link p (open_packet c link p).0 (open_packet c link p).1
          (open_packet-Step c link p) b)
        d

  -- Before the keys are confirmed it is otherwise. On a link whose keys come of the half `first`, a
  -- different half `other` and then `first` again put back the same keys with the counter at 0,
  -- however many packets have gone out under them.
  pub exchange_resets_counter :
      (link : SecureLink) (first other : List ℕ) (signed : Bool) (n : ℕ)
      → bytes_eq first other ≡ false
      → bytes_eq other first ≡ false
      → bytes_eq first link.public ≡ false
      → bytes_eq other link.public ≡ false
      → c.was_contributory (c.diffie_hellman link.secret first) ≡ true
      → c.was_contributory (c.diffie_hellman link.secret other) ≡ true
      → link.state ≡ State.encrypted (record (keys_with c link first) { next_counter = n })
      → (exchange c
          (exchange c link (Result.ok (other, signed))).0
          (Result.ok (first, signed))).0.state
        ≡ State.encrypted (keys_with c link first)
  unfolding exchange settle answer_to make_keys derive_keys
  exchange_resets_counter link first other signed n e1 e2 e3 e4 e5 e6 e =
      rw (e, e4, e1, e6, e3, e2, e5) refl
