-- ===== src/Latency/Tests.antt =====
-- The theorems of the latency messages at concrete bytes.
use jamjam_client.Prelude.{
  ℕ, length, ◌≡◌, ◌↔◌, ◌<◌, refl, true, false, none, some, [], ◌∷◌, ◌++◌, arith, take,
  if◌then◌else◌,
}
use jamjam_client.Latency.{
  LatencyPing, LatencyPong, LatencyInfoMessage, ping_to_bytes, ping_from_bytes, pong_to_bytes,
  pong_from_bytes, info_to_bytes, info_from_bytes,
}
use jamjam_client.Latency.Utf8.{is_utf8}
use jamjam_client.Latency.Pings.{ping-pong_round_trip}
use jamjam_client.Latency.Info.{info_round_trip, info_from_bytes-to_bytes, cut}

abbrev opus_info : LatencyInfoMessage
opus_info = record {
  capture_buffer_ms = 0x40a00000;
  playback_buffer_ms = 0x40a00000;
  encode_ms = 0;
  decode_ms = 0;
  jitter_buffer_ms = 0x41200000;
  frame_size = 128;
  sample_rate = 48000;
  codec = b'p' ∷ b'c' ∷ b'm' ∷ [];
  channel_count = 1;
}

utf8_shapes :
    (is_utf8 (b'a' ∷ 0xc3 ∷ 0xa9 ∷ 0xe3 ∷ 0x81 ∷ 0x82 ∷ 0xf0 ∷ 0x9f ∷ 0x8e ∷ 0xb5 ∷ []) ≡ true)
    × (is_utf8 (0xc0 ∷ 0x80 ∷ []) ≡ false)
    × (is_utf8 (0xed ∷ 0xa0 ∷ 0x80 ∷ []) ≡ false)
    × (is_utf8 (b'a' ∷ 0xc3 ∷ []) ≡ false)
unfolding is_utf8
utf8_shapes = (refl, refl, refl, refl)

ping-pong_round_trip_example :
    let ping : LatencyPing = record { sent_time_us = 0x0102030405060708; ping_sequence = 9 } in
    let pong : LatencyPong = record {
      original_sent_time_us = 0x0102030405060708;
      ping_sequence = 9;
    } in
    (ping_from_bytes (ping_to_bytes ping ++ (1 ∷ [])) ≡ some ping)
    × (pong_from_bytes (pong_to_bytes pong ++ (1 ∷ [])) ≡ some pong)
    × ((ping_from_bytes (1 ∷ []) ≡ none) ↔ (length {A = ℕ} (1 ∷ []) < 12))
    × ((pong_from_bytes (1 ∷ []) ≡ none) ↔ (length {A = ℕ} (1 ∷ []) < 12))
ping-pong_round_trip_example =
    ping-pong_round_trip 0x0102030405060708 9 (1 ∷ []) (1 ∷ []) (omega arith) (omega arith)

info_round_trip_example :
    (info_from_bytes (info_to_bytes opus_info) ≡ some opus_info)
    × (info_from_bytes (take 32 (info_to_bytes opus_info))
        ≡ some (record opus_info { channel_count = 2 }))
unfolding is_utf8
info_round_trip_example = info_round_trip opus_info (omega arith) (omega arith) refl

info_from_bytes-to_bytes_example :
    info_from_bytes (info_to_bytes opus_info ++ (5 ∷ []))
    ≡ (if is_utf8 (take 255 opus_info.codec) then some (cut opus_info) else none)
info_from_bytes-to_bytes_example = info_from_bytes-to_bytes opus_info (5 ∷ []) (omega arith)
