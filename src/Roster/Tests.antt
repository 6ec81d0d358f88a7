-- ===== src/Roster/Tests.antt =====
-- Runs of the roster, and cases where the theorems' hypotheses hold.
use jamjam_client.Prelude.{ℕ, ◌≡◌, refl, none, some, [], ◌∷◌}
use jamjam_client.Route.Types.{IpAddr}
use jamjam_client.Peers.Types.{SocketAddr, PeerInfo}
use jamjam_client.Peers.{get_sorted_candidates}
use jamjam_client.Roster.Types.{Audio, Link, Roster, Event}
use jamjam_client.Prelude.Members.{first, later}
use jamjam_client.Roster.Outcome.{heard}
use jamjam_client.Roster.Player.{obey_all, step-obey_all}
use jamjam_client.Roster.Started.{AllStarts, step-AllStarts}
use jamjam_client.Roster.Valid.{IsValid, run, run-IsValid}
use jamjam_client.Roster.Onward.{MovesOn, audio_failed-MovesOn}
use jamjam_client.Roster.{default, audio_failed, step}

abbrev at : ℕ → ℕ → SocketAddr
at host port = record { ip = IpAddr.v4 192 0 2 host; port = port; flowinfo = 0; scope_id = 0 }

abbrev peer_at : ℕ → SocketAddr → PeerInfo
peer_at id addr = record {
  id = id;
  name = 66 ∷ 101 ∷ 110 ∷ [];
  candidates = [];
  public_addr = some addr;
  local_addr = none;
  joined_at = 0;
  features = [];
  link_key = none;
}

abbrev ben : PeerInfo
ben = peer_at 2 (at 2 5000)

abbrev ben_again : PeerInfo
ben_again = peer_at 12 (at 2 6000)

-- In a room with Ben, who comes back under another id.
abbrev with_ben : Roster
with_ben = record {
  peers = ben ∷ ben_again ∷ [];
  streaming_with = some 2;
  started_with = at 2 5000 ∷ [];
  link = Link.silent;
  own_ids = 1 ∷ [];
  left_behind = [];
}

entering :
    (step default (Event.entered 1 (ben ∷ []))).1
    ≡ Audio.advertise ∷ Audio.start 2 (at 2 5000 ∷ []) none ∷ []
unfolding step
entering = refl

moving :
    (audio_failed with_ben).1
    ≡ Audio.stop ∷ Audio.keep_address ∷ Audio.start 12 (at 2 6000 ∷ []) none ∷ []
unfolding audio_failed
moving = refl

step-obey_all_example :
    obey_all (some 2) (step with_ben (Event.left 2)).1
    ≡ some (step with_ben (Event.left 2)).0.streaming_with
step-obey_all_example = step-obey_all with_ben (Event.left 2)

step-AllStarts_example :
    AllStarts
      (heard (Event.left 2) (step with_ben (Event.left 2)).0.peers)
      (step with_ben (Event.left 2)).1
step-AllStarts_example = step-AllStarts with_ben (Event.left 2)

run-IsValid_example : IsValid (
    run default (
      Event.entered 1 (ben ∷ [])
      ∷ Event.joined ben_again
      ∷ Event.audio_silent
      ∷ Event.left 12
      ∷ []))
run-IsValid_example =
    run-IsValid (
      Event.entered 1 (ben ∷ []) ∷ Event.joined ben_again ∷ Event.audio_silent ∷ Event.left 12 ∷ [])

audio_failed-MovesOn_example : MovesOn with_ben 2 (audio_failed with_ben)
unfolding get_sorted_candidates
audio_failed-MovesOn_example =
    audio_failed-MovesOn with_ben 2 ben_again refl refl (later first) refl refl refl
