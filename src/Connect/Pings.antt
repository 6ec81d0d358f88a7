-- ===== src/Connect/Pings.antt =====
-- src/network/connection.rs: `RttMeasurement`, over the floating-point numbers that it keeps, and the
-- packets of src/protocol/packet.rs that carry latency messages.
use jamjam_client.Prelude.{
  ℕ, ◌+◌, ◌-◌, ◌%◌, ◌/◌, ◌^◌, min, max, Bool, true, Option, none, some, List, [], ◌∷◌, ◌++◌, map,
  ltb, leb, if◌then◌else◌, length, drop,
}
use jamjam_client.Prelude.Assoc.{lookup, remove, insert, min_key}
use jamjam_client.Prelude.Members.{keep, maximum?}
use jamjam_client.Packet.{Packet, PacketType, protocol_version, no_flags}
use jamjam_client.Latency.{
  LatencyPing, LatencyPong, LatencyInfoMessage, ping_to_bytes, pong_to_bytes, info_to_bytes,
}

abbrev latency_packet : PacketType → ℕ → List ℕ → Packet
latency_packet packet_type sequence payload = record {
  version = protocol_version;
  packet_type = packet_type;
  sequence = sequence;
  timestamp = 0;
  flags = no_flags;
  payload = payload;
}

pub latency_ping : ℕ → LatencyPing → Packet
latency_ping sequence ping = latency_packet PacketType.latency_ping sequence (ping_to_bytes ping)

pub latency_pong : ℕ → LatencyPong → Packet
latency_pong sequence pong = latency_packet PacketType.latency_pong sequence (pong_to_bytes pong)

pub latency_info : ℕ → LatencyInfoMessage → Packet
latency_info sequence info = latency_packet PacketType.latency_info sequence (info_to_bytes info)

-- The arithmetic on round trips in milliseconds: the sample that an elapsed time gives, the smoothed
-- round trip, the jitter from the last jitter, a sample and the smoothed one, and the slowest sample as
-- a duration.
pub record Estimator (F : Type 0) : Type 0 where
  pub sample : ℕ → F
  pub smooth : Option F → F → F
  pub vary : F → F → F → F
  pub slowest : List F → Option ℕ

-- The times of the pending pings are moments in nanoseconds.
pub record RttMeasurement (F : Type 0) : Type 0 where
  pub rtt_ms : Option F
  pub jitter_ms : F
  pub pending_pings : List (ℕ × ℕ)
  pub last_answered_sent_at : Option ℕ
  pub rtt_samples : List F
  pub route_round_trip : Option ℕ
  pub next_ping_seq : ℕ
  pub time_reference : ℕ

abbrev pub rtt_sample_count : ℕ
rtt_sample_count = 10

abbrev pub max_pending_pings : ℕ
max_pending_pings = 10

-- 2500 ms.
abbrev pub unanswered_ping_cap : ℕ
unanswered_ping_cap = 2500000000

-- `is_none_or(|newest| sent > newest)`
abbrev pub is_newer : Option ℕ → ℕ → Bool
is_newer none sent = true
is_newer (some newest) sent = ltb newest sent

abbrev pub times : List (ℕ × ℕ) → List ℕ
times = map (λ ping. ping.1)

-- `Option::or` and the `max` of options.
abbrev pub or_else : Option ℕ → Option ℕ → Option ℕ
or_else none other = other
or_else (some d) other = some d

abbrev pub later_of : Option ℕ → Option ℕ → Option ℕ
later_of none b = b
later_of (some a) none = some a
later_of (some a) (some b) = some (max a b)

abbrev drop_oldest : Option ℕ → List (ℕ × ℕ) → List (ℕ × ℕ)
drop_oldest none pings = pings
drop_oldest (some oldest) pings = remove oldest pings

module _ {F : Type 0} where
  pub create_ping : ℕ → RttMeasurement F → RttMeasurement F × LatencyPing
  create_ping now m =
      let seq = m.next_ping_seq in
      let pings : List (ℕ × ℕ) =
        if leb max_pending_pings (length m.pending_pings)
        then drop_oldest (min_key m.pending_pings) m.pending_pings
        else m.pending_pings in
      (
        record m { next_ping_seq = (seq + 1) % 2 ^ 32; pending_pings = insert seq now pings },
        record { sent_time_us = (now - m.time_reference) / 1000 % 2 ^ 64; ping_sequence = seq },
      )

module _ {F : Type 0} (e : Estimator F) where
  pub slowest_recent : ℕ → RttMeasurement F → Option ℕ
  slowest_recent now m = later_of (or_else (e.slowest m.rtt_samples) m.route_round_trip) (
      maximum? (
        map (λ sent. min (now - sent) unanswered_ping_cap)
          (keep (is_newer m.last_answered_sent_at) (times m.pending_pings))))

  abbrev trimmed : List F → List F
  trimmed samples = if leb rtt_sample_count (length samples) then drop 1 samples else samples

  pub count_pong : ℕ → ℕ → Option ℕ → RttMeasurement F → RttMeasurement F
  count_pong seq now none m = m
  count_pong seq now (some sent_time) m =
      let rtt = e.sample (now - sent_time) in
      let smoothed = e.smooth m.rtt_ms rtt in
      record m {
        pending_pings = remove seq m.pending_pings;
        last_answered_sent_at =
            if is_newer m.last_answered_sent_at sent_time
            then some sent_time
            else m.last_answered_sent_at;
        rtt_samples = trimmed m.rtt_samples ++ rtt ∷ [];
        rtt_ms = some smoothed;
        jitter_ms = e.vary m.jitter_ms rtt smoothed;
      }

  pub process_pong : LatencyPong → ℕ → RttMeasurement F → RttMeasurement F
  process_pong pong now m =
      count_pong pong.ping_sequence now (lookup pong.ping_sequence m.pending_pings) m
