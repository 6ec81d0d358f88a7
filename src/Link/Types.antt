-- ===== src/Link/Types.antt =====
-- src/network/encryption.rs: the types of a link. A key is the list of its bytes.
use jamjam_client.Prelude.{ℕ, Bool, Option, List}
use jamjam_client.Packet.{Packet}
use jamjam_client.Link.Replay.{ReplayWindow}

pub data LinkSecurity : Type 0 where
  negotiating encrypted unencrypted : LinkSecurity

-- The texts that the code gives for a packet it does not act on.
pub data Reason : Type 0 where
  -- "encrypted packet on an unencrypted link", "encrypted packet before the keys are agreed",
  -- "plain packet from a peer that encrypts"
  encrypted_on_unencrypted encrypted_before_keys plain_from_encrypting_peer : Reason
  -- "key exchange not signed by the peer", "control message of another kind",
  -- "our own key exchange played back"
  not_signed_by_peer other_control own_exchange : Reason
  -- "key exchange on an unencrypted link", "another key after the link was confirmed",
  -- "key exchange with a weak key"
  exchange_on_unencrypted another_key weak_key : Reason
  -- "plain packet on an encrypted link", "encrypted packet too short", "repeated or too old",
  -- "does not authenticate"
  plain_on_encrypted too_short repeated not_authentic : Reason

pub data Opened : Type 0 where
  packet : Packet → Opened
  key_exchange : Bool → Opened
  dropped : Reason → Opened

-- `Result` with a reason as its error.
pub data Result {ℓ} (A : Type ℓ) : Type ℓ where
  ok : A → Result A
  err : Reason → Result A

pub record Keys : Type 0 where
  pub send : List ℕ
  pub receive : List ℕ
  pub next_counter : ℕ
  pub peer_public : List ℕ
  pub window : ReplayWindow
  pub confirmed : Bool

pub data State : Type 0 where
  negotiating : State
  encrypted : Keys → State
  unencrypted : State

pub record PeerCheck : Type 0 where
  pub ours : List ℕ
  pub theirs : List ℕ
  pub ephemeral : List ℕ
  pub payload : List ℕ

pub record Answering : Type 0 where
  pub ours : List ℕ
  pub answer : Option (List ℕ)

pub record SecureLink : Type 0 where
  pub secret : List ℕ
  pub public : List ℕ
  pub peer : Option PeerCheck
  pub answering : Option Answering
  pub state : State
  pub refused : ℕ
