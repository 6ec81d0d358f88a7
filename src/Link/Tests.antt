-- ===== src/Link/Tests.antt =====
-- A link with simple stand-ins for the libraries, and runs of it.
use jamjam_client.Prelude.{
  ℕ, ◌+◌, ◌-◌, ◌≡◌, ◌≢◌, refl, sym, subst, ap, ◌∙◌, inl, true, Option, none, some, List, [], ◌∷◌,
  ◌++◌, arith, length, get_or, take, replicate, length-append, take-append_length,
}
use jamjam_client.Packet.{Packet, type_eq, audio, keep_alive}
use jamjam_client.Link.Types.{Opened, Keys, State, PeerCheck, SecureLink}
use jamjam_client.Link.Libraries.{Crypto, SealLaws, ExchangeLaws, SignatureLaws}
use jamjam_client.Link.Replay.{default, accept}
use jamjam_client.Link.Replay.History.{default-Tracks, is_new-is_fresh}
use jamjam_client.Link.Exchange.{new_check}
use jamjam_client.Link.Steps.{Step, open_packet-Step}
use jamjam_client.Link.Once.{Event, Distinct, run, run-Distinct}
use jamjam_client.Link.Standing.{Holds, run-Holds}
use jamjam_client.Link.Guard.{Guarded, Trusted, run-Trusted}
use jamjam_client.Link.Nonces.{run_used, run_used-Distinct}
use jamjam_client.Link.Delivery.{seal-open_packet}
use jamjam_client.Link.Agreement.{Agree, checked-Agree}
use jamjam_client.Link.{with_secret, key_exchange_packet, seal, open_packet}

abbrev toy : Crypto
toy = record {
  public_key = λ s. get_or s 0 0 ∷ replicate 31 0;
  diffie_hellman = λ s p. (get_or s 0 0 + get_or p 0 0) ∷ [];
  was_contributory = λ s. true;
  hkdf = λ salt shared purpose. shared ++ purpose;
  encrypt = λ key n text aad. some (text ++ replicate 16 0);
  decrypt = λ key n sealed aad. some (take (length sealed - 16) sealed);
  verifying_key = λ key. key;
  sign = λ key text. replicate 64 0;
  signature_from_slice = λ s. some s;
  verify = λ key text s. true;
  verifying_key_from_bytes = λ bytes. some bytes;
  base64_decode = λ text. some text;
}

toy_decrypts :
    (text : List ℕ) → take (length (text ++ replicate 16 0) - 16) (text ++ replicate 16 0) ≡ text
toy_decrypts text =
    let e : length (text ++ replicate 16 0) - 16 ≡ length text =
      ap (λ n. n - 16) (length-append text (replicate 16 0)) ∙ omega arith in
    rw e (take-append_length text (replicate 16 0))

toy-SealLaws : SealLaws toy
toy-SealLaws = record {
  encrypts = λ key n text aad h. (text ++ replicate 16 0, refl);
  length-encrypt = λ key n text aad sealed e.
      ap (λ (o : Option (List ℕ)). elim o [ some s ↦ length s | none ↦ length text + 16 ]) (sym e)
      ∙ length-append text (replicate 16 0);
  decrypt-encrypt = λ key n text aad sealed e.
      subst
        (λ (o : Option (List ℕ)).
          elim o [ some s ↦ some (take (length s - 16) s) | none ↦ some text ] ≡ some text)
        e (ap some (toy_decrypts text));
}

toy-ExchangeLaws : ExchangeLaws toy
toy-ExchangeLaws = record {
  length-public_key = λ s. refl;
  diffie_hellman_comm = λ a b. ap (λ n. n ∷ []) (omega arith);
}

toy-SignatureLaws : SignatureLaws toy
toy-SignatureLaws = record {
  length-sign = λ key text. refl;
  signature_from_slice-sign = λ key text. refl;
  verify-sign = λ key text. refl;
}

-- The two ends of a link, and keys that both have shown to hold.
abbrev ann : SecureLink
ann = with_secret toy (1 ∷ []) none

abbrev bob : SecureLink
bob = with_secret toy (2 ∷ []) none

abbrev bob_checked : PeerCheck
bob_checked = new_check toy (7 ∷ []) (8 ∷ []) ann.public

abbrev ann_checking : SecureLink
ann_checking = with_secret toy (1 ∷ []) (some bob_checked)

abbrev agreed : Keys
agreed = record {
  send = 1 ∷ [];
  receive = 1 ∷ [];
  next_counter = 3;
  peer_public = bob.public;
  window = default;
  confirmed = true;
}

abbrev ann_agreed : SecureLink
ann_agreed = record ann { state = State.encrypted agreed }

abbrev some_events : List Event
some_events =
    Event.sends (keep_alive 1)
    ∷ Event.arrives (key_exchange_packet bob)
    ∷ Event.sends (keep_alive 2)
    ∷ Event.arrives (audio 3 0 (5 ∷ []))
    ∷ Event.sends (audio 4 0 (5 ∷ []))
    ∷ []

open_packet-Step_example :
    Step toy ann
      (key_exchange_packet bob)
      (open_packet toy ann (key_exchange_packet bob)).0
      (open_packet toy ann (key_exchange_packet bob)).1
open_packet-Step_example = open_packet-Step toy ann (key_exchange_packet bob)

run-Distinct_example : Distinct (run toy ann [] some_events).1
run-Distinct_example = run-Distinct toy ann some_events refl

run-Holds_example : Holds agreed (run toy ann_agreed [] some_events).0.state
run-Holds_example =
    run-Holds toy agreed ann_agreed [] some_events
      (record { same_send = refl; same_receive = refl; same_peer = refl; confirmed = refl })

not_unencrypted : State.negotiating ≢ State.unencrypted
not_unencrypted e = subst (λ s. elim s [ State.negotiating ↦ Unit | _ ↦ ⊥ ]) e tt

run-Trusted_example :
    Guarded bob_checked (run toy ann_checking [] some_events).0
    × Trusted toy bob_checked
        (run toy ann_checking [] some_events).0
        (audio 9 0 [])
        (open_packet toy (run toy ann_checking [] some_events).0 (audio 9 0 [])).1
run-Trusted_example =
    run-Trusted toy bob_checked ann_checking [] some_events (audio 9 0 []) (refl, not_unencrypted)

run_used-Distinct_example : Distinct (run_used toy ann_agreed (2 ∷ 0 ∷ []) some_events)
run_used-Distinct_example =
    run_used-Distinct toy ann_agreed (2 ∷ 0 ∷ []) some_events (refl, λ m e. ground arith)
      (refl, (refl, tt))

seal-open_packet_example :
    (q : Packet) × (seal toy ann_agreed (audio 4 0 (5 ∷ [])) ≡ (
      record ann_agreed { state = State.encrypted (record agreed { next_counter = 4 }) },
      some q,
    ))
    × (open_packet toy ann_agreed q ≡ (
      record ann_agreed { state = State.encrypted (record agreed { window = accept default 3 }) },
      Opened.packet (audio 4 0 (5 ∷ [])),
    ))
unfolding audio type_eq
seal-open_packet_example =
    seal-open_packet toy toy-SealLaws ann_agreed ann_agreed agreed agreed (audio 4 0 (5 ∷ [])) refl
      refl refl (inl refl) (omega arith) (omega arith) refl refl
      (is_new-is_fresh default [] 3 default-Tracks)

checked-Agree_example :
    Agree toy ann_checking
      (with_secret toy (2 ∷ []) (some (new_check toy (8 ∷ []) (7 ∷ []) bob.public)))
checked-Agree_example =
    checked-Agree toy toy-ExchangeLaws toy-SignatureLaws (1 ∷ []) (2 ∷ []) (7 ∷ []) (8 ∷ []) refl
      refl
