-- ===== src/Connect/States.antt =====
-- src/network/connection.rs: the states of a connection, and when a silent link counts as lost.
use jamjam_client.Prelude.{
  ℕ, ◌+◌, ◌*◌, min, max, Bool, true, false, Option, ◌==◌, if◌then◌else◌, unwrap_or,
}
use jamjam_client.Connect.Types.{ConnectionState, ReconnectConfig}

-- The byte that a state is kept as.
unfoldable pub state_byte : ConnectionState → ℕ
state_byte ConnectionState.disconnected = 0
state_byte ConnectionState.connecting = 1
state_byte ConnectionState.gathering_candidates = 2
state_byte ConnectionState.checking_connectivity = 3
state_byte ConnectionState.connected = 4
state_byte ConnectionState.reconnecting = 5
state_byte ConnectionState.failed = 6

unfoldable pub from_u8 : ℕ → ConnectionState
from_u8 value =
    if value == 0
    then ConnectionState.disconnected
    else if value == 1
    then ConnectionState.connecting
    else if value == 2
    then ConnectionState.gathering_candidates
    else if value == 3
    then ConnectionState.checking_connectivity
    else if value == 4
    then ConnectionState.connected
    else if value == 5
    then ConnectionState.reconnecting
    else if value == 6
    then ConnectionState.failed
    else ConnectionState.disconnected

unfoldable pub is_connected : ConnectionState → Bool
is_connected ConnectionState.connected = true
is_connected _ = false

unfoldable pub is_connecting : ConnectionState → Bool
is_connecting ConnectionState.connecting = true
is_connecting ConnectionState.gathering_candidates = true
is_connecting ConnectionState.checking_connectivity = true
is_connecting _ = false

unfoldable pub can_transmit : ConnectionState → Bool
can_transmit ConnectionState.connected = true
can_transmit ConnectionState.reconnecting = true
can_transmit _ = false

-- Nanoseconds.
abbrev pub default_config : ReconnectConfig
default_config = record {
  keep_alive_interval = 1000000000;
  detect_after = 2000000000;
  give_up_after = 10000000000;
  check_interval = 250000000;
}

abbrev pub min_detect_intervals : ℕ
min_detect_intervals = 2

unfoldable pub validated : ReconnectConfig → ReconnectConfig
validated c =
    let keep_alive_interval : ℕ =
      if c.keep_alive_interval == 0 then 1000000000 else c.keep_alive_interval in
    let detect_after : ℕ = max c.detect_after (keep_alive_interval * min_detect_intervals) in
    record {
      keep_alive_interval = keep_alive_interval;
      detect_after = detect_after;
      give_up_after = max c.give_up_after detect_after;
      check_interval = if c.check_interval == 0 then 250000000 else c.check_interval;
    }

unfoldable pub answer_wait : ReconnectConfig → Option ℕ → ℕ
answer_wait c slowest_round_trip =
    let slowest : ℕ = unwrap_or slowest_round_trip 0 in
    min (max c.detect_after (c.keep_alive_interval + slowest * 2))
      (max c.give_up_after c.detect_after)
