-- ===== src/Latency/Info.antt =====
-- The latency info message through the wire and back.
use mathlib.Core.List.{append_assoc, append-nil}
use jamjam_client.Prelude.{
  ℕ, ◌+◌, ◌^◌, ◌≤◌, ◌<◌, ◌≡◌, sym, ◌∙◌, ap, true, none, some, List, [], ◌∷◌, ◌++◌, arith,
  if◌then◌else◌, length, get_elem?, take, take-append_length, get_elem?-append_add, take_all,
  length-append, take-min, length-take, unwrap_or,
}
use jamjam_client.Prelude.Bytes.{be32, from_be32-be32}
use jamjam_client.Latency.Utf8.{is_utf8}
use jamjam_client.Latency.{
  LatencyInfoMessage, info_to_bytes, info_from_bytes, default_channel_count,
}

-- The numbers of a message fit their fields.
pub record IsMessage (m : LatencyInfoMessage) : Type 0 where
  pub capture_fits : m.capture_buffer_ms < 2 ^ 32
  pub playback_fits : m.playback_buffer_ms < 2 ^ 32
  pub encode_fits : m.encode_ms < 2 ^ 32
  pub decode_fits : m.decode_ms < 2 ^ 32
  pub jitter_fits : m.jitter_buffer_ms < 2 ^ 32
  pub frame_fits : m.frame_size < 2 ^ 32
  pub rate_fits : m.sample_rate < 2 ^ 32

-- The bytes before the codec.
abbrev front : LatencyInfoMessage → List ℕ
front m =
    be32 m.capture_buffer_ms
    ++ be32 m.playback_buffer_ms
    ++ be32 m.encode_ms
    ++ be32 m.decode_ms
    ++ be32 m.jitter_buffer_ms
    ++ be32 m.frame_size
    ++ be32 m.sample_rate
    ++ (length m.codec ∷ [])

-- The message whose codec is what fits the length byte.
abbrev pub cut : LatencyInfoMessage → LatencyInfoMessage
cut m = record m { codec = take 255 m.codec }

cut-IsMessage : (m : LatencyInfoMessage) → IsMessage m → IsMessage (cut m)
cut-IsMessage m v = ground arith

channel_byte :
    (m : LatencyInfoMessage) (tail : List ℕ)
    → get_elem? (front m ++ (m.codec ++ tail)) (29 + length m.codec) ≡ get_elem? tail 0
channel_byte m tail =
    get_elem?-append_add (front m) (m.codec ++ tail) (29 + length m.codec) (length m.codec)
      (omega arith)
    ∙ get_elem?-append_add m.codec tail (length m.codec) 0 (omega arith)

read_front :
    (m : LatencyInfoMessage) (tail : List ℕ)
    → IsMessage m
    → info_from_bytes (front m ++ (m.codec ++ tail)) ≡ (
        if is_utf8 m.codec
        then some (record m { channel_count = unwrap_or (get_elem? tail 0) default_channel_count })
        else none)
unfolding info_from_bytes
read_front m tail v = ground (
  arith,
  take-append_length m.codec tail,
  length-append m.codec tail,
  channel_byte m tail,
  from_be32-be32 m.capture_buffer_ms,
  from_be32-be32 m.playback_buffer_ms,
  from_be32-be32 m.encode_ms,
  from_be32-be32 m.decode_ms,
  from_be32-be32 m.jitter_buffer_ms,
  from_be32-be32 m.frame_size,
  from_be32-be32 m.sample_rate,
)

bytes-cut :
    (m : LatencyInfoMessage) (rest : List ℕ)
    → info_to_bytes m ++ rest ≡ front (cut m) ++ (take 255 m.codec ++ (m.channel_count ∷ rest))
unfolding info_to_bytes
bytes-cut m rest = ground (
  arith,
  take-min 255 m.codec,
  length-take 255 m.codec,
  append_assoc (take 255 m.codec) (m.channel_count ∷ []) rest,
)

-- The bytes of a message whose numbers fit their fields, whatever follows them, are read as that
-- message with the codec cut at 255 bytes, if what the cut leaves is UTF-8, and as nothing otherwise.
pub info_from_bytes-to_bytes :
    (m : LatencyInfoMessage) (rest : List ℕ)
    → IsMessage m
    → info_from_bytes (info_to_bytes m ++ rest)
      ≡ (if is_utf8 (take 255 m.codec) then some (cut m) else none)
info_from_bytes-to_bytes m rest v =
    rw (bytes-cut m rest) (read_front (cut m) (m.channel_count ∷ rest) (cut-IsMessage m v))

bytes_fit :
    (m : LatencyInfoMessage)
    → length m.codec ≤ 255
    → info_to_bytes m ≡ front m ++ (m.codec ++ (m.channel_count ∷ []))
bytes_fit m h =
    sym (append-nil (info_to_bytes m)) ∙ bytes-cut m [] ∙ ground (arith, take_all m.codec 255 h)

without_last :
    (m : LatencyInfoMessage) (c : ℕ)
    → take (29 + length m.codec) (front m ++ (m.codec ++ (c ∷ []))) ≡ front m ++ (m.codec ++ [])
without_last m c =
    ap (λ k. take k (front m ++ (m.codec ++ (c ∷ [])))) {y = length (front m ++ m.codec)}
      (omega (arith, length-append (front m) m.codec))
    ∙ ap (take (length (front m ++ m.codec))) (sym (append_assoc (front m) m.codec (c ∷ [])))
    ∙ take-append_length (front m ++ m.codec) (c ∷ [])
    ∙ ap (◌++◌ (front m)) (sym (append-nil m.codec))

-- A message whose numbers fit their fields, and whose codec is UTF-8 of at most 255 bytes, is read
-- back from its bytes. Without the last byte, which is what a version before `channel_count` sends,
-- it is read with a channel count of 2.
pub info_round_trip :
    (m : LatencyInfoMessage)
    → IsMessage m
    → length m.codec ≤ 255
    → is_utf8 m.codec ≡ true
    → (info_from_bytes (info_to_bytes m) ≡ some m)
      × (info_from_bytes (take (29 + length m.codec) (info_to_bytes m))
          ≡ some (record m { channel_count = default_channel_count }))
info_round_trip m v h t = rw (bytes_fit m h) (
  ground (arith, read_front m (m.channel_count ∷ []) v),
  rw (without_last m m.channel_count) (ground (arith, read_front m [] v)),
)
