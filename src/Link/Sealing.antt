-- ===== src/Link/Sealing.antt =====
-- src/network/encryption.rs: one packet sealed, and one opened, under agreed keys.
use jamjam_client.Prelude.{
  ℕ, ◌+◌, ◌^◌, Bool, true, false, not, ◌&&◌, Option, none, some, List, ◌∷◌, ◌++◌, ltb, leb,
  if◌then◌else◌, ◌>>=◌, length, get_or, drop,
}
use jamjam_client.Prelude.Bytes.{be64, from_be64}
use jamjam_client.Packet.{Packet, PacketType, type_eq, header_bytes}
use jamjam_client.Link.Types.{Reason, Keys, Result}
use jamjam_client.Link.Libraries.{Crypto}
use jamjam_client.Link.Replay.{is_new, accept}

abbrev pub counter_size : ℕ
counter_size = 8

abbrev pub tag_size : ℕ
tag_size = 16

abbrev pub seal_overhead : ℕ
seal_overhead = counter_size + tag_size

-- 12 bytes: four zeros and the counter.
unfoldable pub nonce : ℕ → List ℕ
nonce counter = 0 ∷ 0 ∷ 0 ∷ 0 ∷ be64 counter

-- `packet.flags.encrypted = …`
unfoldable pub with_encrypted : Bool → Packet → Packet
with_encrypted encrypted packet = record packet {
  flags = record packet.flags { encrypted = encrypted };
}

-- `u64::from_be_bytes` of the first eight bytes.
unfoldable pub counter_of : List ℕ → ℕ
counter_of payload =
    from_be64 (get_or payload 0 0) (get_or payload 1 0) (get_or payload 2 0) (get_or payload 3 0)
      (get_or payload 4 0) (get_or payload 5 0) (get_or payload 6 0) (get_or payload 7 0)

module _ (c : Crypto) where
  -- `packet` under the send key, with the counter given.
  unfoldable pub sealed_packet : List ℕ → ℕ → Packet → Option Packet
  unfolding nonce with_encrypted header_bytes
  sealed_packet send counter packet =
      let packet' = with_encrypted true packet in
      c.encrypt send (nonce counter) packet.payload (header_bytes packet') >>= λ sealed.
      some (record packet' { payload = be64 counter ++ sealed })

  unfoldable pub seal_with : Keys → Packet → Keys × Option Packet
  unfolding type_eq
  seal_with keys packet =
      if not keys.confirmed && not (type_eq packet.packet_type PacketType.keep_alive)
      then (keys, none)
      else if leb (2 ^ 64) (keys.next_counter + 1)
      then (keys, none)
      else (
        record keys { next_counter = keys.next_counter + 1 },
        sealed_packet keys.send keys.next_counter packet,
      )

  -- What is left once the packet is decrypted, or is not.
  unfoldable pub take_decrypted : Keys → ℕ → Packet → Option (List ℕ) → Keys × Result Packet
  unfolding with_encrypted
  take_decrypted keys counter packet none = (keys, Result.err Reason.not_authentic)
  take_decrypted keys counter packet (some plain) = (
    record keys { window = accept keys.window counter; confirmed = true },
    Result.ok (record (with_encrypted false packet) { payload = plain }),
  )

  unfoldable pub open_encrypted : Keys → Packet → Keys × Result Packet
  unfolding counter_of nonce header_bytes
  open_encrypted keys packet =
      if not packet.flags.encrypted
      then (keys, Result.err Reason.plain_on_encrypted)
      else if ltb (length packet.payload) seal_overhead
      then (keys, Result.err Reason.too_short)
      else let counter = counter_of packet.payload in
        if not (is_new keys.window counter)
        then (keys, Result.err Reason.repeated)
        else take_decrypted keys counter packet (
            c.decrypt keys.receive (nonce counter) (drop counter_size packet.payload)
              (header_bytes packet))
