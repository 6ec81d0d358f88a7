-- ===== src/Connect/Kept.antt =====
-- Handlers of the receive loop that leave the route and the keys as they are.
use jamjam_client.Prelude.{
  ℕ, ◌+◌, ◌%◌, ◌^◌, ◌≡◌, refl, ◌∙◌, false, Option, none, some, List, [], by_if,
}
use jamjam_client.Packet.{Packet, PacketType}
use jamjam_client.Latency.{
  LatencyPing, LatencyPong, LatencyInfoMessage, ping_from_bytes, pong_from_bytes, info_from_bytes,
}
use jamjam_client.Link.{can_send_media}
use jamjam_client.Link.Libraries.{Crypto}
use jamjam_client.Peers.Types.{SocketAddr}
use jamjam_client.Connect.Routes.{answered}
use jamjam_client.Connect.Receiving.{
  Effect, Receiver, then_do, send_numbered, send_waiting, flush_pending, take_audio, recover,
  take_fec_in, take_fec, answer_ping, note_pong, take_pong, note_info, handle, take_packet,
}
use jamjam_client.Connect.Pings.{Estimator, latency_info}
use jamjam_client.Fec.{FecDecoder, FecPacket, RecoveredPacket, add_fec}
use jamjam_client.Connect.Alike.{Alike, Alike-refl, Alike-trans, seal-Alike}

module _ {F : Type 0} where
  -- The same route and the same keys.
  pub record Same (r r' : Receiver F) : Type 0 where
    pub current : r'.route.current ≡ r.route.current
    pub others : r'.route.others ≡ r.route.others
    pub keys : Alike r.link.state r'.link.state

  abbrev pub Kept : Receiver F → Receiver F × List Effect → Type 0
  Kept r result = Same r result.0

  pub Same-refl : (r : Receiver F) → Same r r
  Same-refl r = record { current = refl; others = refl; keys = Alike-refl r.link.state }

  pub Same-trans : (a b d : Receiver F) → Same a b → Same b d → Same a d
  Same-trans a b d g h = record {
    current = h.current ∙ g.current;
    others = h.others ∙ g.others;
    keys = Alike-trans a.link.state b.link.state d.link.state g.keys h.keys;
  }

  pub then_do-Kept :
      (a : Receiver F) (x : Receiver F × List Effect) (next : Receiver F → Receiver F × List Effect)
      → Kept a x
      → Kept x.0 (next x.0)
      → Kept a (then_do x next)
  then_do-Kept a x next g h = Same-trans a x.0 (next x.0).0 g h

module _ {F : Type 0} (c : Crypto) (e : Estimator F) where
  pub send_numbered-Kept :
      (packet : ℕ → Packet) (addr : SocketAddr) (r : Receiver F)
      → Kept r (send_numbered c e packet addr r)
  unfolding send_numbered
  send_numbered-Kept packet addr r = record {
    current = refl;
    others = refl;
    keys = seal-Alike c r.link (packet r.sequence);
  }

  send_waiting-Kept :
      (o : Option LatencyInfoMessage) (r : Receiver F) → Kept r (send_waiting c e o r)
  unfolding send_waiting
  send_waiting-Kept none r = Same-refl r
  send_waiting-Kept (some info) r =
      let r' : Receiver F = record r { pending_latency_info = none } in
      Same-trans r r' (send_numbered c e (λ n. latency_info n info) r.route.current r').0
        (record { current = refl; others = refl; keys = Alike-refl r.link.state })
        (send_numbered-Kept (λ n. latency_info n info) r.route.current r')

  flush_pending-Kept : (r : Receiver F) → Kept r (flush_pending c e r)
  unfolding flush_pending
  flush_pending-Kept r =
      by_if (Kept r) (can_send_media r.link.state) (send_waiting c e r.pending_latency_info r)
        (r, []) (λ t. send_waiting-Kept r.pending_latency_info r) (λ f. Same-refl r)

  recover-Kept :
      (group size : ℕ) (x : FecDecoder × Option RecoveredPacket) (r : Receiver F)
      → Kept r (recover c e group size x r)
  unfolding recover
  recover-Kept group size (d, none) r = record {
    current = refl;
    others = refl;
    keys = Alike-refl r.link.state;
  }
  recover-Kept group size (d, some p) r = record {
    current = refl;
    others = refl;
    keys = Alike-refl r.link.state;
  }

  take_fec_in-Kept :
      (d : Option FecDecoder) (size : Option ℕ) (fec : Option FecPacket) (r : Receiver F)
      → Kept r (take_fec_in c e d size fec r)
  unfolding take_fec_in
  take_fec_in-Kept none size fec r = Same-refl r
  take_fec_in-Kept (some d) none fec r = Same-refl r
  take_fec_in-Kept (some d) (some size) none r = Same-refl r
  take_fec_in-Kept (some d) (some size) (some fec) r =
      recover-Kept fec.group_sequence size (add_fec d fec) r

  answer_ping-Kept : (o : Option LatencyPing) (r : Receiver F) → Kept r (answer_ping c e o r)
  unfolding answer_ping
  answer_ping-Kept none r = Same-refl r
  answer_ping-Kept (some ping) r = send_numbered-Kept _ r.route.current r

  note_info-Kept : (o : Option LatencyInfoMessage) (r : Receiver F) → Kept r (note_info c e o r)
  unfolding note_info
  note_info-Kept none r = Same-refl r
  note_info-Kept (some info) r = record {
    current = refl;
    others = refl;
    keys = Alike-refl r.link.state;
  }

  note_pong-Kept :
      (now : ℕ) (o : Option LatencyPong) (r : Receiver F) → Same r (note_pong c e now o r)
  unfolding note_pong
  note_pong-Kept now none r = Same-refl r
  note_pong-Kept now (some pong) r = record {
    current = refl;
    others = refl;
    keys = Alike-refl r.link.state;
  }

  take_pong-Kept : (now : ℕ) (p : Packet) (r : Receiver F) → Same r (take_pong c e now p r)
  unfolding take_pong answered
  take_pong-Kept now p r =
      let r' : Receiver F = record r { route = answered now r.route } in
      Same-trans r r' (take_pong c e now p r)
        (record { current = refl; others = refl; keys = Alike-refl r.link.state })
        (note_pong-Kept now (pong_from_bytes p.payload) r')

  handle-Kept :
      (t : PacketType) (addr : SocketAddr) (now : ℕ) (p : Packet) (r : Receiver F)
      → Kept r (handle c e t false addr now p r)
  unfolding handle take_audio take_fec
  handle-Kept PacketType.audio addr now p r = record {
    current = refl;
    others = refl;
    keys = Alike-refl r.link.state;
  }
  handle-Kept PacketType.fec addr now p r = take_fec_in-Kept _ _ _ r
  handle-Kept PacketType.control addr now p r = Same-refl r
  handle-Kept PacketType.keep_alive addr now p r = Same-refl r
  handle-Kept PacketType.latency_ping addr now p r = answer_ping-Kept (ping_from_bytes p.payload) r
  handle-Kept PacketType.latency_pong addr now p r = take_pong-Kept now p r
  handle-Kept PacketType.latency_info addr now p r = note_info-Kept (info_from_bytes p.payload) r

  pub take_packet-Kept :
      (addr : SocketAddr) (now wire_len : ℕ) (p : Packet) (r : Receiver F)
      → Kept r (take_packet c e false addr now wire_len p r)
  unfolding take_packet
  take_packet-Kept addr now wire_len p r =
      let r' : Receiver F = record r {
        last_received = now;
        packets_received = (r.packets_received + 1) % 2 ^ 64;
        bytes_received = (r.bytes_received + wire_len) % 2 ^ 64;
      } in
      Same-trans r r' _ (record { current = refl; others = refl; keys = Alike-refl r.link.state })
        (then_do-Kept r' (flush_pending c e r') (handle c e p.packet_type false addr now p)
          (flush_pending-Kept r') (handle-Kept p.packet_type addr now p (flush_pending c e r').0))
