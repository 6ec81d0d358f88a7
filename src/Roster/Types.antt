-- ===== src/Roster/Types.antt =====
-- src-tauri/src/session/roster.rs: the types.
use jamjam_client.Prelude.{ℕ, List, Option}
use jamjam_client.Peers.Types.{SocketAddr, PeerInfo}

pub data Audio : Type 0 where
  stop advertise keep_address : Audio
  start : ℕ → List SocketAddr → Option (List ℕ) → Audio

pub data Link : Type 0 where
  healthy silent failed : Link

pub record Roster : Type 0 where
  pub peers : List PeerInfo
  pub streaming_with : Option ℕ
  pub started_with : List SocketAddr
  pub link : Link
  pub own_ids : List ℕ
  pub left_behind : List ℕ

-- What the room and the audio link may tell the roster.
pub data Event : Type 0 where
  entered : ℕ → List PeerInfo → Event
  joined : PeerInfo → Event
  updated : PeerInfo → Event
  audio_silent audio_failed audio_recovered : Event
  left : ℕ → Event
  start_failed : ℕ → Event
  audio_ended clear : Event
