-- ===== src/Latency.antt =====
-- src/protocol/packet.rs: the payloads of the latency ping, pong and info packets.
-- An `f32` is its 32-bit pattern, which is what `to_be_bytes` writes; a `String` is its bytes.
pub mod Utf8
pub mod Pings
pub mod Info
mod Tests
use jamjam_client.Prelude.{
  ℕ, ◌+◌, ◌*◌, ◌/◌, ◌%◌, ◌^◌, min, Bool, not, Option, none, some, List, [], ◌∷◌, ◌++◌, ltb,
  if◌then◌else◌, length, get_or, get_elem?, take, drop, ◌>>=◌, unwrap_or,
}
use jamjam_client.Prelude.Bytes.{be32, be64, from_be32, from_be64}
use Utf8.{is_utf8}

pub record LatencyPing : Type 0 where
  pub sent_time_us : ℕ
  pub ping_sequence : ℕ

pub record LatencyPong : Type 0 where
  pub original_sent_time_us : ℕ
  pub ping_sequence : ℕ

pub record LatencyInfoMessage : Type 0 where
  pub capture_buffer_ms : ℕ
  pub playback_buffer_ms : ℕ
  pub encode_ms : ℕ
  pub decode_ms : ℕ
  pub jitter_buffer_ms : ℕ
  pub frame_size : ℕ
  pub sample_rate : ℕ
  pub codec : List ℕ
  pub channel_count : ℕ

abbrev pub ping_size : ℕ
ping_size = 12

abbrev pub pong_size : ℕ
pong_size = 12

abbrev pub min_size : ℕ
min_size = 29

abbrev pub default_channel_count : ℕ
default_channel_count = 2

-- `u32::from_be_bytes` and `u64::from_be_bytes` of the bytes from index `i` on.
abbrev pub read32 : List ℕ → ℕ → ℕ
read32 bytes i =
    from_be32 (get_or bytes i 0) (get_or bytes (i + 1) 0) (get_or bytes (i + 2) 0)
      (get_or bytes (i + 3) 0)

abbrev pub read64 : List ℕ → ℕ → ℕ
read64 bytes i =
    from_be64 (get_or bytes i 0) (get_or bytes (i + 1) 0) (get_or bytes (i + 2) 0)
      (get_or bytes (i + 3) 0) (get_or bytes (i + 4) 0) (get_or bytes (i + 5) 0)
      (get_or bytes (i + 6) 0) (get_or bytes (i + 7) 0)

pub ping_to_bytes : LatencyPing → List ℕ
ping_to_bytes p = be64 p.sent_time_us ++ be32 p.ping_sequence

pub ping_from_bytes : List ℕ → Option LatencyPing
ping_from_bytes bytes =
    if ltb (length bytes) ping_size
    then none
    else some (record { sent_time_us = read64 bytes 0; ping_sequence = read32 bytes 8 })

pub pong_to_bytes : LatencyPong → List ℕ
pong_to_bytes p = be64 p.original_sent_time_us ++ be32 p.ping_sequence

pub pong_from_bytes : List ℕ → Option LatencyPong
pong_from_bytes bytes =
    if ltb (length bytes) pong_size
    then none
    else some (record { original_sent_time_us = read64 bytes 0; ping_sequence = read32 bytes 8 })

pub info_to_bytes : LatencyInfoMessage → List ℕ
info_to_bytes m =
    let codec_len = min (length m.codec) 255 in
    be32 m.capture_buffer_ms
    ++ be32 m.playback_buffer_ms
    ++ be32 m.encode_ms
    ++ be32 m.decode_ms
    ++ be32 m.jitter_buffer_ms
    ++ be32 m.frame_size
    ++ be32 m.sample_rate
    ++ (codec_len ∷ [])
    ++ take codec_len m.codec
    ++ (m.channel_count ∷ [])

pub info_from_bytes : List ℕ → Option LatencyInfoMessage
info_from_bytes bytes =
    if ltb (length bytes) min_size
    then none
    else (let codec_len = get_or bytes 28 0 in
        if ltb (length bytes) (min_size + codec_len)
        then none
        else (let codec = take codec_len (drop 29 bytes) in
            if not (is_utf8 codec)
            then none
            else some (record {
              capture_buffer_ms = read32 bytes 0;
              playback_buffer_ms = read32 bytes 4;
              encode_ms = read32 bytes 8;
              decode_ms = read32 bytes 12;
              jitter_buffer_ms = read32 bytes 16;
              frame_size = read32 bytes 20;
              sample_rate = read32 bytes 24;
              codec = codec;
              channel_count = unwrap_or (get_elem? bytes (29 + codec_len)) default_channel_count;
            })))
