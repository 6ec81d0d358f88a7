-- ===== src/Link/Outcomes.antt =====
-- The outcomes of opening and of sealing a packet, as sums: what each step of a link may do.
use jamjam_client.Prelude.{
  ℕ, ◌+◌, ◌^◌, ◌<◌, ◌≤◌, ◌≡◌, refl, inl, inr, ◌⊎◌, true, false, not, ◌&&◌, Option, none, some, List,
  arith, ltb, ltb→lt, leb, Bool-cases, Option-cases, length, drop,
}
use jamjam_client.Packet.{Packet, PacketType, type_eq, header_bytes}
use jamjam_client.Link.Types.{Reason, Keys, Result}
use jamjam_client.Link.Libraries.{Crypto}
use jamjam_client.Link.Replay.{is_new, accept}
use jamjam_client.Link.Sealing.{
  counter_size, seal_overhead, counter_of, nonce, with_encrypted, sealed_packet, seal_with,
  take_decrypted, open_encrypted,
}

module _ (c : Crypto) where
  -- The bytes that `packet` decrypts to under `keys`, if it does.
  abbrev pub decrypted : Keys → Packet → Option (List ℕ)
  decrypted keys packet =
      c.decrypt keys.receive (nonce (counter_of packet.payload)) (drop counter_size packet.payload)
        (header_bytes packet)

  abbrev pub keys_after : Keys → Packet → Keys
  keys_after keys packet = record keys {
    window = accept keys.window (counter_of packet.payload);
    confirmed = true;
  }

  -- `packet` is accepted under `keys`, and gives `plain`.
  pub record Accepts (keys : Keys) (packet : Packet) (plain : List ℕ) : Type 0 where
    pub marked : packet.flags.encrypted ≡ true
    pub whole : seal_overhead ≤ length packet.payload
    pub fresh : is_new keys.window (counter_of packet.payload) ≡ true
    pub decrypts : decrypted keys packet ≡ some plain
    pub result : open_encrypted c keys packet ≡ (
      keys_after keys packet,
      Result.ok (record (with_encrypted false packet) { payload = plain }),
    )

  -- Why a packet is not accepted under `keys`.
  pub data Unreadable (keys : Keys) (packet : Packet) : Reason → Type 0 where
    not_marked : packet.flags.encrypted ≡ false → Unreadable keys packet Reason.plain_on_encrypted
    short :
        packet.flags.encrypted ≡ true
        → length packet.payload < seal_overhead
        → Unreadable keys packet Reason.too_short
    old :
        packet.flags.encrypted ≡ true
        → is_new keys.window (counter_of packet.payload) ≡ false
        → Unreadable keys packet Reason.repeated
    forged :
        packet.flags.encrypted ≡ true
        → is_new keys.window (counter_of packet.payload) ≡ true
        → decrypted keys packet ≡ none
        → Unreadable keys packet Reason.not_authentic

  pub open_encrypted-cases :
      (keys : Keys) (packet : Packet)
      → ((plain : List ℕ) × Accepts keys packet plain)
        ⊎ ((reason : Reason) × Unreadable keys packet reason
            × (open_encrypted c keys packet ≡ (keys, Result.err reason)))
  unfolding open_encrypted take_decrypted
  open_encrypted-cases keys packet = elim (Bool-cases packet.flags.encrypted) [
    | inr plain ↦ inr (Reason.plain_on_encrypted, not_marked plain, rw plain refl)
    | inl marked ↦ elim (Bool-cases (ltb (length packet.payload) seal_overhead)) [
      | inl few ↦ inr (
        Reason.too_short,
        short marked (ltb→lt (length packet.payload) seal_overhead few),
        rw (marked, few) refl,
      )
      | inr long ↦ elim (Bool-cases (is_new keys.window (counter_of packet.payload))) [
        | inr seen ↦ inr (Reason.repeated, old marked seen, rw (marked, long, seen) refl)
        | inl fresh ↦ elim (Option-cases (decrypted keys packet)) [
          | inl fails ↦ inr (
            Reason.not_authentic,
            forged marked fresh fails,
            rw (fails, marked, long, fresh) refl,
          )
          | inr (plain, e) ↦ inl (
            plain,
            record {
              marked = marked;
              whole = ground (arith, long);
              fresh = fresh;
              decrypts = e;
              result = rw (e, marked, long, fresh) refl;
            },
          )
        ]
      ]
    ]
  ]

  pub seal_with-cases :
      (keys : Keys) (p : Packet)
      → (seal_with c keys p ≡ (keys, none))
        ⊎ ((seal_with c keys p ≡ (
          record keys { next_counter = keys.next_counter + 1 },
          sealed_packet c keys.send keys.next_counter p,
        ))
            × (keys.next_counter + 1 < 2 ^ 64)
            × ((keys.confirmed ≡ true) ⊎ (type_eq p.packet_type PacketType.keep_alive ≡ true)))
  unfolding seal_with
  seal_with-cases keys p =
      elim (Bool-cases (not keys.confirmed && not (type_eq p.packet_type PacketType.keep_alive))) [
        | inl held ↦ inl (rw held refl)
        | inr free ↦ elim (Bool-cases (leb (2 ^ 64) (keys.next_counter + 1))) [
          | inl spent ↦ inl (rw (free, spent) refl)
          | inr left ↦ inr (rw (free, left) refl, ground arith, ground arith)
        ]
      ]
