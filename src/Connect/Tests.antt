-- ===== src/Connect/Tests.antt =====
-- Runs of the connectivity check, of a route, of a watched link and of the receive loop, and cases where
-- the theorems' hypotheses hold.
use jamjam_client.Prelude.{
  ℕ, ◌-◌, ◌*◌, ◌≡◌, refl, true, false, none, some, List, [], ◌∷◌, arith, if◌then◌else◌,
}
use jamjam_client.Prelude.Members.{first, later, filter_map, keep, range_from, max_of, min_of}
use jamjam_client.Route.Types.{IpAddr}
use jamjam_client.Route as Kinds
use jamjam_client.Peers.Types.{SocketAddr}
use jamjam_client.Peers.{socket_eq}
use jamjam_client.Packet.{
  Packet, route_probe_reply, route_probe_token, to_bytes, from_bytes, keep_alive, audio,
}
use jamjam_client.Link.{
  with_secret, open_packet, count_refused, receive, receive_in, is_decided, can_send_media,
}
use jamjam_client.Link.Libraries.{Crypto}
use jamjam_client.Tracker as Counter
use jamjam_client.Connect.Types.{Route, Probing, Verdict, ConnectionState}
use jamjam_client.Connect.Probes.{new, sent, hear, probe_token, put, position}
use jamjam_client.Connect.Assess.{assess}
use jamjam_client.Connect.Verdicts.{Assessed}
use jamjam_client.Connect.Settled.{assess-Assessed}
use jamjam_client.Connect.Hearing.{hear-route_probe_reply}
use jamjam_client.Connect.Heard.{ProbeEvent, sends, hears, probing_run}
use jamjam_client.Connect.Sound.{IsProven, run-IsProven}
use jamjam_client.Connect.Routes.{knows, follow}
use jamjam_client.Connect.Following.{follows, notes, route_run, route_run-knows, follow_moves}
use jamjam_client.Connect.States.{default_config, validated, from_u8, state_byte}
use jamjam_client.Connect.Monitor.{Watched, watch}
use jamjam_client.Connect.Watching.{gave_up, is_down, state_of, watch_judges, watch-validated}
use jamjam_client.Connect.Pings.{Estimator}
use jamjam_client.Connect.Receiving.{Receiver, Arrival, plays, receive_loop}
use jamjam_client.Connect.Kept.{Same}
use jamjam_client.Connect.Strangers.{receive_loop-Same}

abbrev at : ℕ → SocketAddr
at host = record { ip = IpAddr.v4 203 0 113 host; port = 5000; flowinfo = 0; scope_id = 0 }

abbrev ms : ℕ → ℕ
ms n = n * 1000000

-- A check of two candidates, of which the second answers its first probe after 30 ms.
abbrev one_out : Probing
one_out = sent 1 0 (ms 50) (sent 0 0 0 (new (at 1 ∷ at 2 ∷ [])))

abbrev reply : List ℕ
reply = to_bytes (route_probe_reply 7 (probe_token 0 1))

abbrev checked : List ProbeEvent
checked = sends 1 0 (ms 50) ∷ sends 0 0 (ms 70) ∷ hears (at 2) reply (ms 80) ∷ []

abbrev after_check : Probing
after_check = probing_run (new (at 1 ∷ at 2 ∷ [])) checked

settled_on : assess (ms 200) after_check ≡ some (Verdict.fastest 1 (ms 30) 1)
unfolding assess probing_run new hear sent to_bytes from_bytes route_probe_reply route_probe_token
    probe_token Kinds.route_preference Kinds.route_handicap filter_map keep range_from max_of min_of
settled_on = refl

waiting : assess (ms 81) after_check ≡ some (Verdict.wait_until (ms 102))
unfolding assess probing_run new hear sent to_bytes from_bytes route_probe_reply route_probe_token
    probe_token filter_map keep range_from max_of min_of
waiting = refl

assess-Assessed_example : Assessed after_check (ms 200) (assess (ms 200) after_check)
assess-Assessed_example = assess-Assessed (ms 200) after_check

run-IsProven_example : IsProven (at 1 ∷ at 2 ∷ []) checked 1
run-IsProven_example = run-IsProven (at 1 ∷ at 2 ∷ []) checked (ms 200) 1 (ms 30) 1 settled_on

hear-route_probe_reply_example :
    hear (at 2) (to_bytes (route_probe_reply 7 (probe_token 0 1))) (ms 80) one_out
    ≡ (record one_out { rtt = put one_out.rtt 1 0 (some (ms 80 - ms 50)) }, none)
unfolding position new sent
hear-route_probe_reply_example =
    hear-route_probe_reply one_out (at 2) 7 1 0 (ms 80) (ms 50) refl (omega arith) (omega arith)
      (omega arith) refl refl

-- A route to the first address that knows two others, one of which could not be sent to.
abbrev route : Route
route = record { current = at 1; others = (at 2, false) ∷ (at 3, true) ∷ []; answered_at = 0 }

route_run-knows_example :
    (knows (route_run route (follows (at 3) (ms 10) (ms 20) ∷ notes (at 2) true ∷ [])) (at 2)
      ≡ knows route (at 2))
    × (knows route
          (route_run route (follows (at 3) (ms 10) (ms 20) ∷ notes (at 2) true ∷ [])).current
        ≡ true)
route_run-knows_example =
    route_run-knows route (follows (at 3) (ms 10) (ms 20) ∷ notes (at 2) true ∷ []) (at 2)

follow_moves_example :
    ((follow (at 3) (ms 10) (ms 20) route).0.current ≡ at 3)
    × ((follow (at 3) (ms 10) (ms 20) route).0.answered_at ≡ ms 20)
    × ((follow (at 3) (ms 10) (ms 20) route).1 ≡ some (at 1))
unfolding socket_eq
follow_moves_example = follow_moves (at 3) (ms 10) (ms 20) route refl (omega arith) (later first)

abbrev up : Watched
up = record {
  state = ConnectionState.connected;
  last_error = none;
  decoder = none;
  tracker = Counter.new;
  reported = [];
}

watch_judges_example : (watch default_config (at 1) (ms 2500 ∷ ms 100 ∷ ms 3000 ∷ []) up).state ≡ (
    if gave_up default_config (ms 2500 ∷ ms 100 ∷ ms 3000 ∷ [])
    then ConnectionState.failed
    else state_of (is_down default_config false (ms 2500 ∷ ms 100 ∷ ms 3000 ∷ [])))
watch_judges_example =
    watch_judges default_config (at 1) (ms 2500 ∷ ms 100 ∷ ms 3000 ∷ []) up false refl

watch-validated_example : watch (validated default_config) (at 1) (ms 1100 ∷ ms 900 ∷ []) up ≡ up
unfolding validated
watch-validated_example =
    watch-validated default_config (at 1) (ms 1100 ∷ ms 900 ∷ []) up refl (omega arith)

bytes_back : from_u8 (state_byte ConnectionState.reconnecting) ≡ ConnectionState.reconnecting
unfolding from_u8 state_byte
bytes_back = refl

-- Stand-ins for the libraries and for the arithmetic on round trips.
abbrev toy : Crypto
toy = record {
  public_key = λ s. s;
  diffie_hellman = λ s p. s;
  was_contributory = λ s. true;
  hkdf = λ salt shared purpose. shared;
  encrypt = λ key n text aad. some text;
  decrypt = λ key n sealed aad. some sealed;
  verifying_key = λ key. key;
  sign = λ key text. text;
  signature_from_slice = λ s. some s;
  verify = λ key text s. true;
  verifying_key_from_bytes = λ bytes. some bytes;
  base64_decode = λ text. some text;
}

abbrev whole_ms : Estimator ℕ
whole_ms = record {
  sample = λ elapsed. elapsed;
  smooth = λ last rtt. rtt;
  vary = λ jitter rtt smoothed. jitter;
  slowest = λ samples. none;
}

abbrev receiver : Receiver ℕ
receiver = record {
  route = route;
  link = with_secret toy (1 ∷ []) none;
  last_received = 0;
  packets_received = 0;
  bytes_received = 0;
  fec_recovered = 0;
  fec_decoder = none;
  fec_group_size = none;
  sequence_tracker = Counter.new;
  rtt_measurement = record {
    rtt_ms = none;
    jitter_ms = 0;
    pending_pings = [];
    last_answered_sent_at = none;
    rtt_samples = [];
    route_round_trip = none;
    next_ping_seq = 0;
    time_reference = 0;
  };
  peer_latency_info = none;
  pending_latency_info = none;
  link_facts = Kinds.new;
  reconnect_config = default_config;
  sequence = 1000000;
}

abbrev arriving : ℕ → Packet → Arrival
arriving host packet = record {
  packet = packet;
  from = at host;
  at = ms 20;
  state = ConnectionState.connected;
}

receive_loop-Same_example :
    Same receiver
      (receive_loop toy whole_ms
        (arriving 66 (audio 0 0 (1 ∷ 2 ∷ [])) ∷ arriving 67 (keep_alive 0) ∷ [])
        receiver).0
unfolding knows
receive_loop-Same_example =
    receive_loop-Same toy whole_ms
      (arriving 66 (audio 0 0 (1 ∷ 2 ∷ [])) ∷ arriving 67 (keep_alive 0) ∷ []) receiver
      (refl, (refl, tt))

-- The same packet from one of the peer's addresses, on a link with no keys, makes the link go plain and
-- is played.
played :
    (receive_loop toy whole_ms (arriving 1 (audio 0 0 (1 ∷ 2 ∷ [])) ∷ []) receiver).1
    ≡ plays 0 (1 ∷ 2 ∷ []) 0 ∷ []
unfolding receive_loop knows open_packet count_refused receive receive_in is_decided audio
    can_send_media follow
played = refl
