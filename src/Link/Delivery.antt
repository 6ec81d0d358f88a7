-- ===== src/Link/Delivery.antt =====
-- What one end seals, the other opens.
use jamjam_client.Prelude.{
  ℕ, ◌+◌, ◌^◌, ◌<◌, ◌≡◌, refl, sym, subst, ap, ◌⊎◌, true, false, not, ◌&&◌, some, List, ◌++◌, arith,
  ltb, leb, length,
}
use jamjam_client.Prelude.Bytes.{be64}
use jamjam_client.Packet.{Packet, PacketType, type_eq, header_bytes}
use jamjam_client.Link.Types.{Opened, Keys, State, Result, SecureLink}
use jamjam_client.Link.Libraries.{Crypto, SealLaws}
use jamjam_client.Link.Replay.{is_new, accept}
use jamjam_client.Link.Sealing.{
  nonce, with_encrypted, seal_with, sealed_packet, take_decrypted, open_encrypted,
}
use jamjam_client.Link.Nonces.{counter_of-be64}
use jamjam_client.Link.{seal_in, seal, receive_in, receive, opened, open_packet, count_refused}

module _ (c : Crypto) (laws : SealLaws c) where
  -- The sealed form of a packet, from its ciphertext.
  sealed_as : ℕ → Packet → List ℕ → Packet
  sealed_as n p bytes = record (with_encrypted true p) { payload = be64 n ++ bytes }

  open_sealed :
      (keys : Keys) (n : ℕ) (p : Packet) (bytes : List ℕ)
      → n < 2 ^ 64
      → p.flags.encrypted ≡ false
      → is_new keys.window n ≡ true
      → c.encrypt keys.receive (nonce n) p.payload (header_bytes (with_encrypted true p))
        ≡ some bytes
      → open_encrypted c keys (sealed_as n p bytes)
        ≡ (record keys { window = accept keys.window n; confirmed = true }, Result.ok p)
  unfolding open_encrypted take_decrypted with_encrypted sealed_as
  open_sealed keys n p bytes small plain fresh e =
      let opens =
        laws.decrypt-encrypt keys.receive (nonce n) p.payload (header_bytes (with_encrypted true p))
          bytes e in
      let long : ltb (length (be64 n ++ bytes)) 24 ≡ false = ground (
        arith,
        laws.length-encrypt keys.receive (nonce n) p.payload (header_bytes (with_encrypted true p))
            bytes e,
      ) in
      rw (counter_of-be64 n bytes small, long, fresh, opens)
        (ap
          (λ b. (
            record keys { window = accept keys.window n; confirmed = true },
            Result.ok (record p { flags = record p.flags { encrypted = b } }),
          ))
          (sym plain))

  seal-open_with :
      (ka kb : Keys) (p : Packet)
      → ka.send ≡ kb.receive
      → (ka.confirmed ≡ true) ⊎ (type_eq p.packet_type PacketType.keep_alive ≡ true)
      → ka.next_counter + 1 < 2 ^ 64
      → length p.payload < 2 ^ 36
      → p.flags.encrypted ≡ false
      → is_new kb.window ka.next_counter ≡ true
      → (bytes : List ℕ) × (seal_with c ka p ≡ (
        record ka { next_counter = ka.next_counter + 1 },
        some (sealed_as ka.next_counter p bytes),
      ))
        × (open_encrypted c kb (sealed_as ka.next_counter p bytes) ≡ (
          record kb { window = accept kb.window ka.next_counter; confirmed = true },
          Result.ok p,
        ))
  unfolding seal_with sealed_packet sealed_as
  seal-open_with ka kb p same ready left fits plain fresh =
      let n = ka.next_counter in
      let (bytes, e) =
        laws.encrypts ka.send (nonce n) p.payload (header_bytes (with_encrypted true p)) fits in
      let free : (not ka.confirmed && not (type_eq p.packet_type PacketType.keep_alive)) ≡ false =
        ground (arith, ready) in
      let counts : leb (2 ^ 64) (n + 1) ≡ false = ground arith in
      (
        bytes,
        rw (free, counts, e) refl,
        open_sealed kb n p bytes (omega arith) plain fresh (
            subst
              (λ key.
                c.encrypt key (nonce n) p.payload (header_bytes (with_encrypted true p))
                ≡ some bytes)
              same e),
      )

  -- Between two ends that hold matching keys, a packet that may go (the sender's keys are confirmed,
  -- or it is a keep-alive), of less than 2 ^ 36 bytes and not a control packet, is sealed while
  -- counters are left. Arriving at the other end, if its counter is new there, it is opened as it was
  -- before, and confirms the keys of that end.
  pub seal-open_packet :
      (la lb : SecureLink) (ka kb : Keys) (p : Packet)
      → la.state ≡ State.encrypted ka
      → lb.state ≡ State.encrypted kb
      → ka.send ≡ kb.receive
      → (ka.confirmed ≡ true) ⊎ (type_eq p.packet_type PacketType.keep_alive ≡ true)
      → ka.next_counter + 1 < 2 ^ 64
      → length p.payload < 2 ^ 36
      → p.flags.encrypted ≡ false
      → type_eq p.packet_type PacketType.control ≡ false
      → is_new kb.window ka.next_counter ≡ true
      → (q : Packet) × (seal c la p ≡ (
        record la { state = State.encrypted (record ka { next_counter = ka.next_counter + 1 }) },
        some q,
      ))
        × (open_packet c lb q ≡ (
          record lb {
            state =
                State.encrypted
                  (record kb { window = accept kb.window ka.next_counter; confirmed = true });
          },
          Opened.packet p,
        ))
  unfolding seal seal_in open_packet receive receive_in opened count_refused sealed_as
      with_encrypted
  seal-open_packet la lb ka kb p ea eb same ready left fits plain audio fresh =
      let (bytes, sealed, opens) = seal-open_with ka kb p same ready left fits plain fresh in
      (sealed_as ka.next_counter p bytes, rw (ea, sealed) refl, rw (audio, eb, opens) refl)
