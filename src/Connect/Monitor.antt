-- ===== src/Connect/Monitor.antt =====
-- src/network/connection.rs: `start_liveness_monitor`, which judges a link by how long it has been
-- silent. The ticks of its timer are given by the silence that each finds.
use jamjam_client.Prelude.{
  ℕ, Bool, true, false, not, Option, none, some, List, [], ◌∷◌, ◌++◌, leb, ◌==◌, if◌then◌else◌,
  then_some,
}
use jamjam_client.Fec.{FecDecoder}
use jamjam_client.Fec as Decoder
use jamjam_client.Tracker.{SequenceTracker}
use jamjam_client.Tracker as Counter
use jamjam_client.Peers.Types.{SocketAddr}
use jamjam_client.Connect.Types.{ConnectionState, ReconnectConfig}
use jamjam_client.Connect.States.{state_byte}

-- What the monitor sees and changes. `last_error` names the peer and its silence, `reported` has what
-- the callback was told.
pub record Watched : Type 0 where
  pub state : ConnectionState
  pub last_error : Option (SocketAddr × ℕ)
  pub decoder : Option FecDecoder
  pub tracker : SequenceTracker
  pub reported : List ConnectionState

abbrev pub is_over : ConnectionState → Bool
is_over ConnectionState.disconnected = true
is_over ConnectionState.failed = true
is_over _ = false

abbrev pub same_state : ConnectionState → ConnectionState → Bool
unfolding state_byte
same_state a b = state_byte a == state_byte b

unfoldable pub next_state : ReconnectConfig → ConnectionState → ℕ → Option ConnectionState
unfolding same_state
next_state c current silence =
    if leb c.give_up_after silence
    then some ConnectionState.failed
    else if leb c.detect_after silence
    then then_some (same_state current ConnectionState.connected) ConnectionState.reconnecting
    else then_some (same_state current ConnectionState.reconnecting) ConnectionState.connected

abbrev pub reset_decoder : Option FecDecoder → Option FecDecoder
reset_decoder none = none
reset_decoder (some d) = some (Decoder.reset d)

-- `state.swap`, and the callback on a change.
unfoldable pub swap_state : ConnectionState → Watched → Watched
unfolding same_state
swap_state next w =
    if same_state w.state next
    then w
    else record w { state = next; reported = w.reported ++ next ∷ [] }

-- What a change to `next` comes with.
unfoldable pub prepare : ConnectionState → ℕ → SocketAddr → Watched → Watched
unfolding reset_decoder
prepare ConnectionState.connected silence addr w = record w {
  decoder = reset_decoder w.decoder;
  tracker = Counter.reset w.tracker;
}
prepare ConnectionState.failed silence addr w = record w { last_error = some (addr, silence) }
prepare _ silence addr w = w

-- One turn of the loop, and whether it goes on.
unfoldable pub turn : ConnectionState → ℕ → SocketAddr → Watched → Watched × Bool
unfolding swap_state prepare
turn next silence addr w =
    (swap_state next (prepare next silence addr w), not (same_state next ConnectionState.failed))

unfoldable pub turn_to : Option ConnectionState → ℕ → SocketAddr → Watched → Watched × Bool
unfolding turn
turn_to none silence addr w = (w, true)
turn_to (some next) silence addr w = turn next silence addr w

unfoldable pub tick : ReconnectConfig → ℕ → SocketAddr → Watched → Watched × Bool
unfolding turn_to next_state
tick c silence addr w =
    if is_over w.state then (w, false) else turn_to (next_state c w.state silence) silence addr w

-- The loop, over the silences that its ticks find.
unfoldable pub go_on : Watched × Bool → (Watched → Watched) → Watched
go_on (w, true) rest = rest w
go_on (w, false) rest = w

unfoldable pub watch : ReconnectConfig → SocketAddr → List ℕ → Watched → Watched
unfolding tick go_on
watch c addr [] w = w
watch c addr (silence ∷ later) w = go_on (tick c silence addr w) (watch c addr later)
