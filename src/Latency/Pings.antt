-- ===== src/Latency/Pings.antt =====
-- Pings and pongs through the wire and back.
use jamjam_client.Prelude.{ℕ, ◌/◌, ◌%◌, ◌^◌, ◌<◌, ◌≡◌, ◌↔◌, none, some, List, ◌++◌, arith, length}
use jamjam_client.Prelude.Bytes.{from_be32-be32}
use jamjam_client.Latency.{
  LatencyPing, LatencyPong, ping_to_bytes, ping_from_bytes, pong_to_bytes, pong_from_bytes,
}

abbrev Fits : ℕ → ℕ → Type 0
Fits time sequence = (time < 2 ^ 64) × (sequence < 2 ^ 32)

-- A ping and a pong whose numbers fit their fields are read back from their bytes, whatever
-- follows them, and bytes are read as neither exactly when there are fewer than 12.
pub ping-pong_round_trip :
    (time sequence : ℕ) (rest bytes : List ℕ)
    → time < 2 ^ 64
    → sequence < 2 ^ 32
    → let ping : LatencyPing = record { sent_time_us = time; ping_sequence = sequence } in
      let pong : LatencyPong = record { original_sent_time_us = time; ping_sequence = sequence } in
      (ping_from_bytes (ping_to_bytes ping ++ rest) ≡ some ping)
      × (pong_from_bytes (pong_to_bytes pong ++ rest) ≡ some pong)
      × ((ping_from_bytes bytes ≡ none) ↔ (length bytes < 12))
      × ((pong_from_bytes bytes ≡ none) ↔ (length bytes < 12))
unfolding ping_from_bytes ping_to_bytes pong_from_bytes pong_to_bytes
ping-pong_round_trip time sequence rest bytes ht hs = (
  ground (
    arith,
    from_be32-be32 sequence hs,
    from_be32-be32 (time / 2 ^ 32),
    from_be32-be32 (time % 2 ^ 32),
  ),
  ground (
    arith,
    from_be32-be32 sequence hs,
    from_be32-be32 (time / 2 ^ 32),
    from_be32-be32 (time % 2 ^ 32),
  ),
  (λ e. ground arith, λ h. ground arith),
  (λ e. ground arith, λ h. ground arith),
)
