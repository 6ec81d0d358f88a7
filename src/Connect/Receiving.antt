-- ===== src/Connect/Receiving.antt =====
-- src/network/connection.rs: `start_receive_loop`, what becomes of each datagram. What goes out and what
-- the callbacks are told is a list of effects, in order. A send that fails is only logged.
use jamjam_client.Prelude.{
  ℕ, ◌+◌, ◌*◌, ◌/◌, ◌%◌, ◌^◌, Bool, true, false, not, ◌&&◌, ◌||◌, Option, none, some, List, [], ◌∷◌,
  ◌++◌, length, if◌then◌else◌,
}
use jamjam_client.Packet.{
  Packet, PacketType, type_eq, header_size, keep_alive, route_probe_reply, route_probe_token,
}
use jamjam_client.Latency.{
  LatencyPing, LatencyPong, LatencyInfoMessage, ping_from_bytes, pong_from_bytes, info_from_bytes,
}
use jamjam_client.Link.{can_send_media, is_decided, key_exchange_packet, seal, open_packet}
use jamjam_client.Link.Types.{Opened, SecureLink}
use jamjam_client.Link.Libraries.{Crypto}
use jamjam_client.Fec.{FecDecoder, FecPacket, RecoveredPacket, decode_packet, add_fec}
use jamjam_client.Fec as Decoder
use jamjam_client.Tracker.{SequenceTracker, record_packet}
use jamjam_client.Route.Types.{LinkFacts}
use jamjam_client.Route.{route_moved, audio_received}
use jamjam_client.Peers.Types.{SocketAddr}
use jamjam_client.Connect.Types.{Route, ConnectionState, ReconnectConfig}
use jamjam_client.Connect.Routes.{knows, follow, answered}
use jamjam_client.Connect.States.{can_transmit, answer_wait}
use jamjam_client.Connect.Pings.{
  Estimator, RttMeasurement, slowest_recent, process_pong, latency_pong, latency_info,
}

-- A datagram that the socket gives, and the state of the connection that the task then finds.
pub record Arrival : Type 0 where
  pub packet : Packet
  pub from : SocketAddr
  pub at : ℕ
  pub state : ConnectionState

pub data Effect : Type 0 where
  sends : Packet → SocketAddr → Effect
  plays : ℕ → List ℕ → ℕ → Effect
  tells : LatencyInfoMessage → Effect

-- What the task works on. `sequence` numbers what it sends.
pub record Receiver (F : Type 0) : Type 0 where
  pub route : Route
  pub link : SecureLink
  pub last_received : ℕ
  pub packets_received : ℕ
  pub bytes_received : ℕ
  pub fec_recovered : ℕ
  pub fec_decoder : Option FecDecoder
  pub fec_group_size : Option ℕ
  pub sequence_tracker : SequenceTracker
  pub rtt_measurement : RttMeasurement F
  pub peer_latency_info : Option LatencyInfoMessage
  pub pending_latency_info : Option LatencyInfoMessage
  pub link_facts : LinkFacts
  pub reconnect_config : ReconnectConfig
  pub sequence : ℕ

abbrev pub then_do :
    {F : Type 0}
    → Receiver F × List Effect
    → (Receiver F → Receiver F × List Effect)
    → Receiver F × List Effect
then_do (r, effects) next = let (r', more) = next r in (r', effects ++ more)

module _ {F : Type 0} (c : Crypto) (e : Estimator F) where
  abbrev pub put_out : SocketAddr → Option Packet → List Effect
  put_out addr none = []
  put_out addr (some packet) = sends packet addr ∷ []

  -- `sequence.fetch_add(1)`, and `send_sealed` of the packet with that number.
  unfoldable pub send_numbered : (ℕ → Packet) → SocketAddr → Receiver F → Receiver F × List Effect
  send_numbered packet addr r =
      let sealed = seal c r.link (packet r.sequence) in
      (record r { link = sealed.0; sequence = (r.sequence + 1) % 2 ^ 32 }, put_out addr sealed.1)

  -- The route follows the peer to `addr`.
  abbrev pub note_moved : SocketAddr → Route × Option SocketAddr → Receiver F → Receiver F
  note_moved addr (route, none) r = record r { route = route }
  note_moved addr (route, some left) r = record r {
    route = route;
    link_facts = route_moved r.link_facts addr.ip;
  }

  unfoldable pub follow_peer : SocketAddr → ℕ → Receiver F → Receiver F
  follow_peer addr now r =
      note_moved addr
        (follow addr (answer_wait r.reconnect_config (slowest_recent e now r.rtt_measurement)) now
          r.route)
        r

  -- A half of a key exchange that was answered.
  unfoldable pub answer_keys : SocketAddr → Bool → Receiver F → Receiver F × List Effect
  answer_keys addr false r = (r, [])
  answer_keys addr true r =
      then_do (r, sends (key_exchange_packet r.link) addr ∷ []) (send_numbered keep_alive addr)

  -- What waited for the keys.
  unfoldable pub send_waiting : Option LatencyInfoMessage → Receiver F → Receiver F × List Effect
  send_waiting none r = (r, [])
  send_waiting (some info) r =
      send_numbered (λ n. latency_info n info) r.route.current
        (record r { pending_latency_info = none })

  unfoldable pub flush_pending : Receiver F → Receiver F × List Effect
  unfolding send_waiting
  flush_pending r =
      if can_send_media r.link.state then send_waiting r.pending_latency_info r else (r, [])

  -- The packet is registered with error correction, when there is any.
  abbrev pub register : Option FecDecoder → Option ℕ → Packet → Option FecDecoder
  register (some decoder) (some size) packet =
      some
        (decode_packet decoder (packet.sequence / size) (packet.sequence % size) packet.payload).0
  register decoder size packet = decoder

  unfoldable pub take_audio : ℕ → Packet → Receiver F → Receiver F × List Effect
  take_audio now packet r = (
    record r {
      link_facts = audio_received r.link_facts (now / 1000000);
      sequence_tracker = (record_packet r.sequence_tracker packet.sequence).0;
      fec_decoder = register r.fec_decoder r.fec_group_size packet;
    },
    plays packet.sequence packet.payload packet.timestamp ∷ [],
  )

  -- `group * group_size as u32 + recovered.packet_index as u32`, which wraps.
  unfoldable pub recover :
      ℕ → ℕ → FecDecoder × Option RecoveredPacket → Receiver F → Receiver F × List Effect
  recover group size (decoder, none) r = (record r { fec_decoder = some decoder }, [])
  recover group size (decoder, some recovered) r = (
    record r { fec_decoder = some decoder; fec_recovered = (r.fec_recovered + 1) % 2 ^ 64 },
    plays ((group * size + recovered.packet_index) % 2 ^ 32) recovered.bytes 0 ∷ [],
  )

  unfoldable pub take_fec_in :
      Option FecDecoder → Option ℕ → Option FecPacket → Receiver F → Receiver F × List Effect
  unfolding recover
  take_fec_in (some decoder) (some size) (some fec) r =
      recover fec.group_sequence size (add_fec decoder fec) r
  take_fec_in _ _ _ r = (r, [])

  unfoldable pub take_fec : Packet → Receiver F → Receiver F × List Effect
  unfolding take_fec_in
  take_fec packet r =
      take_fec_in r.fec_decoder r.fec_group_size (Decoder.from_bytes packet.payload) r

  unfoldable pub answer_probe :
      SocketAddr → Option (Bool × ℕ) → Receiver F → Receiver F × List Effect
  answer_probe addr (some (false, token)) r = send_numbered (λ n. route_probe_reply n token) addr r
  answer_probe addr _ r = (r, [])

  unfoldable pub answer_ping : Option LatencyPing → Receiver F → Receiver F × List Effect
  answer_ping none r = (r, [])
  answer_ping (some ping) r =
      send_numbered
        (λ n. latency_pong n (record {
          original_sent_time_us = ping.sent_time_us;
          ping_sequence = ping.ping_sequence;
        }))
        r.route.current r

  unfoldable pub note_pong : ℕ → Option LatencyPong → Receiver F → Receiver F
  note_pong now none r = r
  note_pong now (some pong) r = record r {
    rtt_measurement = process_pong e pong now r.rtt_measurement;
  }

  unfoldable pub take_pong : ℕ → Packet → Receiver F → Receiver F
  unfolding note_pong
  take_pong now packet r =
      note_pong now (pong_from_bytes packet.payload) (record r { route = answered now r.route })

  unfoldable pub note_info : Option LatencyInfoMessage → Receiver F → Receiver F × List Effect
  note_info none r = (r, [])
  note_info (some info) r = (record r { peer_latency_info = some info }, tells info ∷ [])

  -- By the type of the packet. `known` says whether it came from one of the peer's addresses.
  unfoldable pub handle :
      PacketType → Bool → SocketAddr → ℕ → Packet → Receiver F → Receiver F × List Effect
  unfolding take_audio take_fec answer_probe answer_ping take_pong note_info
  handle PacketType.audio known addr now packet r = take_audio now packet r
  handle PacketType.fec known addr now packet r = take_fec packet r
  handle PacketType.keep_alive known addr now packet r =
      if known then answer_probe addr (route_probe_token packet) r else (r, [])
  handle PacketType.latency_ping known addr now packet r =
      answer_ping (ping_from_bytes packet.payload) r
  handle PacketType.latency_pong known addr now packet r = (take_pong now packet r, [])
  handle PacketType.latency_info known addr now packet r =
      note_info (info_from_bytes packet.payload) r
  handle _ known addr now packet r = (r, [])

  -- A packet that came through the link. `wire_len` is what it took on the wire.
  unfoldable pub take_packet :
      Bool → SocketAddr → ℕ → ℕ → Packet → Receiver F → Receiver F × List Effect
  unfolding flush_pending handle
  take_packet known addr now wire_len packet r =
      then_do
        (flush_pending (record r {
          last_received = now;
          packets_received = (r.packets_received + 1) % 2 ^ 64;
          bytes_received = (r.bytes_received + wire_len) % 2 ^ 64;
        }))
        (handle packet.packet_type known addr now packet)

  unfoldable pub act_on : Bool → SocketAddr → ℕ → ℕ → Opened → Receiver F → Receiver F × List Effect
  unfolding follow_peer answer_keys take_packet
  act_on known addr now wire_len (Opened.dropped reason) r = (r, [])
  act_on known addr now wire_len (Opened.key_exchange answer) r =
      answer_keys addr answer (follow_peer addr now r)
  act_on known addr now wire_len (Opened.packet packet) r =
      take_packet known addr now wire_len packet (follow_peer addr now r)

  unfoldable pub receive_datagram : Packet → SocketAddr → ℕ → Receiver F → Receiver F × List Effect
  unfolding act_on type_eq
  receive_datagram packet addr now r =
      let known = knows r.route addr in
      if not known
        && (type_eq packet.packet_type PacketType.control || not (is_decided r.link.state))
      then (r, [])
      else let opened = open_packet c r.link packet in
        act_on known addr now (header_size + length packet.payload) opened.1
          (record r { link = opened.0 })

  -- The loop, until the connection no longer transmits.
  unfoldable pub receive_loop : List Arrival → Receiver F → Receiver F × List Effect
  unfolding receive_datagram can_transmit
  receive_loop [] r = (r, [])
  receive_loop (a ∷ as') r =
      if not (can_transmit a.state)
      then (r, [])
      else then_do (receive_datagram a.packet a.from a.at r) (receive_loop as')
