-- ===== src/Link/Agreement.antt =====
-- Two ends that take each other's half of the exchange.
use jamjam_client.Prelude.{
  ℕ, ◌≡◌, refl, subst, ◌∙◌, inl, inr, Bool, true, false, not, Option, none, some, List, [], ◌∷◌,
  ◌++◌, arith, Bool-cases, length, take, drop, length-append, take-append_length,
  drop-append_length,
}
use jamjam_client.Packet.{control}
use jamjam_client.Link.Types.{Opened, Keys, State, Result, PeerCheck, SecureLink}
use jamjam_client.Link.Libraries.{Crypto, ExchangeLaws, SignatureLaws}
use jamjam_client.Link.Replay.{default}
use jamjam_client.Link.Exchange.{
  bytes_eq, bytes_lt, signed_text, parse_key_exchange, new_check, is_signed_for_us, open_check,
  signed_payload, derive_keys,
}
use jamjam_client.Link.Steps.{keys_with}
use jamjam_client.Link.{
  with_secret, key_exchange_payload, key_exchange_packet, peer_half, answer_to, make_keys, settle,
  exchange, receive_control, open_packet, count_refused,
}

-- Of two different keys, exactly one is the smaller.
bytes_lt_flip : (xs ys : List ℕ) → bytes_eq xs ys ≡ false → bytes_lt ys xs ≡ not (bytes_lt xs ys)
bytes_lt_flip [] [] h = ground arith
bytes_lt_flip [] (y ∷ ys) h = refl
bytes_lt_flip (x ∷ xs) [] h = refl
bytes_lt_flip (x ∷ xs) (y ∷ ys) h = ground (arith, bytes_lt_flip xs ys)

bytes_eq_comm : (xs ys : List ℕ) → bytes_eq xs ys ≡ bytes_eq ys xs
bytes_eq_comm [] [] = refl
bytes_eq_comm [] (y ∷ ys) = refl
bytes_eq_comm (x ∷ xs) [] = refl
bytes_eq_comm (x ∷ xs) (y ∷ ys) = ground (arith, bytes_eq_comm xs ys)

-- Each end sends under the key that the other receives under, and both are at the start.
pub record Mirrored (ka kb : Keys) : Type 0 where
  pub forth : ka.send ≡ kb.receive
  pub back : ka.receive ≡ kb.send
  pub starts : (ka.next_counter ≡ 0) × (kb.next_counter ≡ 0)
  pub windows : (ka.window ≡ default) × (kb.window ≡ default)

module _ (c : Crypto) where
  derive_keys-Mirrored :
      (shared ours theirs : List ℕ)
      → bytes_eq ours theirs ≡ false
      → Mirrored (derive_keys c shared ours theirs) (derive_keys c shared theirs ours)
  unfolding derive_keys
  derive_keys-Mirrored shared ours theirs differ = elim (Bool-cases (bytes_lt ours theirs)) [
    | inl low ↦
        rw (bytes_lt_flip ours theirs differ, low)
          (record { forth = refl; back = refl; starts = (refl, refl); windows = (refl, refl) })
    | inr high ↦
        rw (bytes_lt_flip ours theirs differ, high)
          (record { forth = refl; back = refl; starts = (refl, refl); windows = (refl, refl) })
  ]

  -- A link with no keys takes a half that it can read, of another key that is not weak.
  takes_half :
      (link : SecureLink) (payload peer_public : List ℕ) (signed : Bool)
      → link.state ≡ State.negotiating
      → peer_half c link.peer link.answering payload ≡ Result.ok (peer_public, signed)
      → bytes_eq peer_public link.public ≡ false
      → c.was_contributory (c.diffie_hellman link.secret peer_public) ≡ true
      → ((open_packet c link (control 0 payload)).0.state
          ≡ State.encrypted (keys_with c link peer_public))
        × ((open_packet c link (control 0 payload)).1 ≡ Opened.key_exchange true)
  unfolding open_packet receive_control control exchange settle answer_to make_keys count_refused
  takes_half link payload peer_public signed e half differ strong =
      rw (half, differ, e, strong) (refl, refl)

  parse-public :
      (public : List ℕ) → length public ≡ 32 → parse_key_exchange (1 ∷ 1 ∷ public) ≡ some public
  unfolding parse_key_exchange
  parse-public public e = rw e refl

  unsigned_half :
      (payload public : List ℕ)
      → parse_key_exchange payload ≡ some public
      → peer_half c none none payload ≡ Result.ok (public, false)
  unfolding peer_half
  unsigned_half payload public e = rw (peer_half, e) refl

  signed_half :
      (check : PeerCheck) (payload public : List ℕ)
      → open_check c check payload ≡ some public
      → peer_half c (some check) none payload ≡ Result.ok (public, true)
  unfolding peer_half
  signed_half check payload public e = rw (peer_half, e) refl

  -- The half that one end signs for the other's identity, opened by the other.
  open_check-new_check :
      SignatureLaws c
      → (ours theirs public public' : List ℕ) → length public' ≡ 32
      → open_check c
          (new_check c ours (c.verifying_key theirs) public)
          (new_check c theirs (c.verifying_key ours) public').payload
        ≡ some public'
  unfolding open_check new_check signed_payload is_signed_for_us
  open_check-new_check laws ours theirs public public' e =
      let check = new_check c theirs (c.verifying_key ours) public' in
      let text = signed_text (c.verifying_key theirs) (c.verifying_key ours) public' in
      let signature = c.sign theirs text in
      let whole : length (public' ++ signature) ≡ 96 =
        length-append public' signature ∙ ground (arith, e, laws.length-sign theirs text) in
      let front : take 32 (public' ++ signature) ≡ public' =
        subst (λ n. take n (public' ++ signature) ≡ public') e
          (take-append_length public' signature) in
      let rear : drop 32 (public' ++ signature) ≡ signature =
        subst (λ n. drop n (public' ++ signature) ≡ signature) e
          (drop-append_length public' signature) in
      rw
        (
          whole,
          front,
          rear,
          laws.signature_from_slice-sign theirs text,
          laws.verify-sign theirs text,
        )
        refl

-- Two links agree when each takes the other's half: both answer it, and then hold keys, not
-- confirmed yet and each noted under the other's public key, that mirror each other.
pub record Agree (c : Crypto) (la lb : SecureLink) : Type 0 where
  pub ours : Keys
  pub theirs : Keys
  pub taken :
      ((open_packet c la (key_exchange_packet lb)).0.state ≡ State.encrypted ours)
      × ((open_packet c lb (key_exchange_packet la)).0.state ≡ State.encrypted theirs)
  pub answered :
      ((open_packet c la (key_exchange_packet lb)).1 ≡ Opened.key_exchange true)
      × ((open_packet c lb (key_exchange_packet la)).1 ≡ Opened.key_exchange true)
  pub mirrored : Mirrored ours theirs
  pub named : (ours.peer_public ≡ lb.public) × (theirs.peer_public ≡ la.public)
  pub unconfirmed : (ours.confirmed ≡ false) × (theirs.confirmed ≡ false)

module _ (c : Crypto) (laws : ExchangeLaws c) where
  Agree-halves :
      (sa sb : List ℕ) (pa pb : Option PeerCheck) (signed : Bool)
      → let la = with_secret c sa pa in
        let lb = with_secret c sb pb in
        peer_half c pa none (key_exchange_packet lb).payload ≡ Result.ok (lb.public, signed)
        → peer_half c pb none (key_exchange_packet la).payload ≡ Result.ok (la.public, signed)
        → bytes_eq la.public lb.public ≡ false
        → c.was_contributory (c.diffie_hellman sa lb.public) ≡ true
        → Agree c la lb
  unfolding key_exchange_packet control derive_keys
  Agree-halves sa sb pa pb signed ha hb differ strong =
      let la = with_secret c sa pa in
      let lb = with_secret c sb pb in
      let shared = laws.diffie_hellman_comm sa sb in
      let differ' = bytes_eq_comm lb.public la.public ∙ differ in
      let (state_a, answer_a) = takes_half c la _ lb.public signed refl ha differ' strong in
      let (state_b, answer_b) =
        takes_half c lb _ la.public signed refl hb differ
          (subst (λ s. c.was_contributory s ≡ true) shared strong) in
      record {
        ours = keys_with c la lb.public;
        theirs = keys_with c lb la.public;
        taken = (state_a, state_b);
        answered = (answer_a, answer_b);
        mirrored =
            subst (λ s. Mirrored (keys_with c la lb.public) (derive_keys c s lb.public la.public))
              shared
              (derive_keys-Mirrored c (c.diffie_hellman sa lb.public) la.public lb.public differ);
        named = (refl, refl);
        unconfirmed = (refl, refl);
      }

  -- Two new links that check no peer agree, when their public keys differ and their secret is not
  -- weak.
  pub with_secret-Agree :
      (sa sb : List ℕ)
      → bytes_eq (c.public_key sa) (c.public_key sb) ≡ false
      → c.was_contributory (c.diffie_hellman sa (c.public_key sb)) ≡ true
      → Agree c (with_secret c sa none) (with_secret c sb none)
  unfolding key_exchange_packet key_exchange_payload control
  with_secret-Agree sa sb differ strong =
      Agree-halves sa sb none none false
        (unsigned_half c _ (c.public_key sb)
          (parse-public c (c.public_key sb) (laws.length-public_key sb)))
        (unsigned_half c _ (c.public_key sa)
          (parse-public c (c.public_key sa) (laws.length-public_key sa)))
        differ strong

  -- Two new links, each made for the other's identity, whose public keys differ and whose shared
  -- secret is not weak: each takes the half that the other signed and answers it, and both then hold
  -- keys that are not confirmed yet, of which each end's sending key is the other's receiving key.
  pub checked-Agree :
      SignatureLaws c
      → (sa sb ia ib : List ℕ) → bytes_eq (c.public_key sa) (c.public_key sb) ≡ false
      → c.was_contributory (c.diffie_hellman sa (c.public_key sb)) ≡ true
      → Agree c
          (with_secret c sa (some (new_check c ia (c.verifying_key ib) (c.public_key sa))))
          (with_secret c sb (some (new_check c ib (c.verifying_key ia) (c.public_key sb))))
  unfolding key_exchange_packet key_exchange_payload control
  checked-Agree signs sa sb ia ib differ strong =
      Agree-halves sa sb _ _ true
        (signed_half c _ _ (c.public_key sb) (
          open_check-new_check c signs ia ib (c.public_key sa) (c.public_key sb)
            (laws.length-public_key sb)))
        (signed_half c _ _ (c.public_key sa) (
          open_check-new_check c signs ib ia (c.public_key sb) (c.public_key sa)
            (laws.length-public_key sa)))
        differ strong
