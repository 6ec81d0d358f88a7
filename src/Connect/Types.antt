-- ===== src/Connect/Types.antt =====
-- src/network/connection.rs: the types. A moment and a duration are numbers of nanoseconds.
use jamjam_client.Prelude.{ℕ, Bool, Option, List}
use jamjam_client.Peers.Types.{SocketAddr}

pub record Route : Type 0 where
  pub current : SocketAddr
  pub others : List (SocketAddr × Bool)
  pub answered_at : ℕ

pub record Probing : Type 0 where
  pub candidates : List SocketAddr
  pub sent_at : List (List (Option ℕ))
  pub rtt : List (List (Option ℕ))

pub data Verdict : Type 0 where
  fastest : ℕ → ℕ → ℕ → Verdict
  wait_until : ℕ → Verdict
  no_answer : Verdict

pub data ConnectionState : Type 0 where
  disconnected connecting gathering_candidates checking_connectivity : ConnectionState
  connected reconnecting failed : ConnectionState

pub record ReconnectConfig : Type 0 where
  pub keep_alive_interval : ℕ
  pub detect_after : ℕ
  pub give_up_after : ℕ
  pub check_interval : ℕ
