-- ===== src/Connect/Hearing.antt =====
-- Which replies the connectivity check counts.
use jamjam_client.Prelude.{
  ℕ, zero, suc, ◌+◌, ◌-◌, ◌*◌, ◌/◌, ◌%◌, ◌^◌, ◌<◌, ◌≡◌, refl, ap, ◌∙◌, true, Option, none, some,
  List, [], ◌∷◌, get_or, arith, lt→ltb, ◌==◌, ◌>>=◌,
}
use jamjam_client.Bits.Pack.{bit_or_parts}
use jamjam_client.Packet.{
  Packet, type_eq, route_probe_reply, to_bytes, from_bytes, route_probe_token,
}
use jamjam_client.Packet.Wire.{IsWire, from_bytes-to_bytes}
use jamjam_client.Packet.Probe.{route_probe_token-probe}
use jamjam_client.Peers.Types.{SocketAddr}
use jamjam_client.Connect.Types.{Probing}
use jamjam_client.Connect.Probes.{
  probe_rounds, position, is_keep_alive, is_probe_answer, probe_token, cell, put, any_some,
  sendable, count_reply, take_in, hear,
}

probe_token_parts :
    (round index : ℕ)
    → round < probe_rounds
    → index < 2 ^ 16
    → probe_token round index ≡ round * 2 ^ 16 + index
unfolding probe_token
probe_token_parts round index h k =
    let e : round * 2 ^ 16 % 2 ^ 32 ≡ round * 2 ^ 16 = omega arith in
    let f : index % 2 ^ 32 ≡ index = omega arith in rw (e, f) (bit_or_parts 16 round index k)

was_sent :
    (row : List (Option ℕ)) (round at : ℕ) → get_or row round none ≡ some at → any_some row ≡ true
was_sent [] round at e = cc
was_sent (none ∷ row) zero at e = cc
was_sent (none ∷ row) (suc round) at e = was_sent row round at e
was_sent (some t ∷ row) round at e = refl

reply-IsWire : (sequence token : ℕ) → sequence < 2 ^ 32 → IsWire (route_probe_reply sequence token)
unfolding route_probe_reply
reply-IsWire sequence token h = record {
  current = refl;
  sequence_fits = h;
  timestamp_fits = omega arith;
}

is_reply : (sequence token : ℕ) → is_keep_alive (some (route_probe_reply sequence token)) ≡ true
unfolding route_probe_reply type_eq
is_reply sequence token = refl

count_reply_named :
    (p : Probing) (index round token now at : ℕ)
    → token ≡ round * 2 ^ 16 + index
    → round < probe_rounds
    → index < 2 ^ 16
    → cell p.rtt index round ≡ none
    → cell p.sent_at index round ≡ some at
    → count_reply index token now p ≡ record p { rtt = put p.rtt index round (some (now - at)) }
unfolding count_reply
count_reply_named p index round token now at t h k e f =
    let high : token / 2 ^ 16 ≡ round = omega arith in
    let low : (token % 2 ^ 16 == index) ≡ true = ground arith in
    rw (low, high, lt→ltb round probe_rounds h, e, f) refl

take_in_reply :
    (p : Probing) (from : SocketAddr) (bytes : List ℕ) (packet : Packet) (index token now : ℕ)
    → position from p.candidates ≡ some index
    → sendable p index ≡ true
    → from_bytes bytes ≡ some packet
    → is_keep_alive (some packet) ≡ true
    → route_probe_token packet ≡ some (true, token)
    → hear from bytes now p ≡ (count_reply index token now p, none)
unfolding hear is_probe_answer take_in type_eq
take_in_reply p from bytes packet index token now c s b a t = rw (c, b, s, a, ◌>>=◌, t) refl

-- The peer's reply to a probe is timed: when a datagram comes from candidate `index` that is the reply
-- to the probe of a round, sent to it at `at`, and no reply to that probe came before, the time since
-- `at` is written down as the round trip of that probe, and nothing else changes.
pub hear-route_probe_reply :
    (p : Probing) (from : SocketAddr) (sequence index round now at : ℕ)
    → position from p.candidates ≡ some index
    → sequence < 2 ^ 32
    → round < probe_rounds
    → index < 2 ^ 16
    → cell p.rtt index round ≡ none
    → cell p.sent_at index round ≡ some at
    → hear from (to_bytes (route_probe_reply sequence (probe_token round index))) now p
      ≡ (record p { rtt = put p.rtt index round (some (now - at)) }, none)
unfolding sendable
hear-route_probe_reply p from sequence index round now at c q h k e f =
    let token = probe_token round index in
    let parts = probe_token_parts round index h k in
    take_in_reply p from (to_bytes (route_probe_reply sequence token))
      (route_probe_reply sequence token) index token now c
      (was_sent (get_or p.sent_at index []) round at f)
      (from_bytes-to_bytes (route_probe_reply sequence token) (reply-IsWire sequence token q))
      (is_reply sequence token) (route_probe_token-probe sequence token (omega arith)).1
    ∙ ap (λ (x : Probing). (x, none)) (count_reply_named p index round token now at parts h k e f)
