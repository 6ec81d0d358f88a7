-- ===== src/Roster/Outcome.antt =====
-- What an event may lead to: one family for all of them.
use jamjam_client.Prelude.{
  ℕ, ◌≡◌, refl, sym, Bool, true, false, Option, none, some, List, [], ◌∷◌, arith, if◌then◌else◌,
  by_if,
}
use jamjam_client.Peers.Types.{PeerInfo}
use jamjam_client.Roster.Types.{Audio, Link, Roster, Event}
use jamjam_client.Prelude.Members.{OneOf, first, later}
use jamjam_client.Roster.Began.{Began, start_with-Began, Moved, go_onward-Moved}
use jamjam_client.Roster.{
  is_some, is_id, start_with, go_onward, forget_the_audio, entered, joined, updated, audio_silent,
  audio_failed, audio_recovered, left, start_failed, step, after, others, add_id, without,
  replace_peer, forget_id,
}

-- The session that an event finds: entering a room, a failed start and the end of the connection have
-- ended it already.
abbrev pub found : Roster → Event → Option ℕ
found r (Event.entered own peers) = none
found r (Event.start_failed peer) = if is_id r.streaming_with peer then none else r.streaming_with
found r Event.audio_ended = none
found r Event.clear = none
found r _ = r.streaming_with

-- The peers that an event lets the roster choose from: those in the room afterwards, and one who has
-- just published.
abbrev pub heard : Event → List PeerInfo → List PeerInfo
heard (Event.updated peer) room = peer ∷ room
heard _ room = room

-- What is done before a start.
pub data Setup (session : Option ℕ) : List Audio → Type 0 where
  as_is : session ≡ none → Setup session []
  anew : session ≡ none → Setup session (Audio.advertise ∷ [])
  instead : (with : ℕ) → session ≡ some with → Setup session (Audio.stop ∷ Audio.advertise ∷ [])

pub data Outcome (r : Roster) (e : Event) : Roster × List Audio → Type 0 where
  quiet : {r' : Roster} → r'.streaming_with ≡ found r e → Outcome r e (r', [])
  begins :
      {ps : List PeerInfo} {setup : List Audio} {r' : Roster} {result : Roster × List Audio}
      → Setup (found r e) setup
      → r'.streaming_with ≡ none
      → ((p : PeerInfo) → OneOf p ps → OneOf p (heard e r'.peers))
      → Began ps r' result
      → Outcome r e (after setup result)
  goes_on :
      {r' : Roster} {result : Roster × List Audio}
      → r'.streaming_with ≡ found r e
      → ((p : PeerInfo) → OneOf p r'.peers → OneOf p (heard e r'.peers))
      → Moved r' result
      → Outcome r e result

with_that_id : (o : Option ℕ) (id : ℕ) → is_id o id ≡ true → o ≡ some id
with_that_id none id h = cc
with_that_id (some with) id h = ground arith

none_there : {A : Type 0} (o : Option A) → is_some o ≡ false → o ≡ none
none_there none h = refl
none_there (some a) h = cc

entered-Outcome :
    (own : ℕ) (peers : List PeerInfo) (r : Roster)
    → Outcome r (Event.entered own peers) (entered own peers r)
unfolding entered
entered-Outcome own peers r =
    let r' = record (forget_the_audio r) {
      own_ids = add_id own r.own_ids;
      left_behind = [];
      peers = others (add_id own r.own_ids) peers;
    } in
    begins (anew refl) refl (λ p m. m) (start_with-Began (others (add_id own r.own_ids) peers) r')

updated-Outcome : (peer : PeerInfo) (r : Roster) → Outcome r (Event.updated peer) (updated peer r)
unfolding updated
updated-Outcome peer r =
    let r' = record r {
      peers = replace_peer peer r.peers;
      left_behind = forget_id peer.id r.left_behind;
    } in
    by_if (Outcome r (Event.updated peer)) (is_some r.streaming_with) (go_onward r')
      (start_with (peer ∷ []) r')
      (λ t. goes_on {r' = r'} refl (λ p m. later m) (go_onward-Moved r'))
      λ f.
        let gone : r.streaming_with ≡ none = none_there r.streaming_with f in
        begins {r' = r'} (as_is gone) gone (λ p m. only p m) (start_with-Began (peer ∷ []) r')
  where
    only : (p : PeerInfo) → OneOf p (peer ∷ []) → OneOf p (peer ∷ replace_peer peer r.peers)
    only p first = first
    only p (later m) = elim m [ ]

left-Outcome : (id : ℕ) (r : Roster) → Outcome r (Event.left id) (left id r)
unfolding left forget_the_audio
left-Outcome id r =
    let r' = record r { peers = without id r.peers; left_behind = forget_id id r.left_behind } in
    by_if (Outcome r (Event.left id)) (is_id r.streaming_with id)
      (after (Audio.stop ∷ Audio.advertise ∷ [])
        (start_with (without id r.peers) (forget_the_audio r')))
      (r', [])
      (λ t.
        begins (instead id (with_that_id r.streaming_with id t)) refl (λ p m. m)
          (start_with-Began (without id r.peers) (forget_the_audio r')))
      (λ f. quiet refl)

-- The two events by which a link goes down.
down-Outcome :
    (r : Roster) (e : Event) (l : Link) (b : Bool)
    → found r e ≡ r.streaming_with
    → heard e r.peers ≡ r.peers
    → Outcome r e (if b then (r, []) else go_onward (record r { link = l }))
down-Outcome r e l b h k =
    by_if (Outcome r e) b (r, []) (go_onward (record r { link = l })) (λ t. quiet (sym h))
      λ f.
        goes_on {r' = record r { link = l }} (sym h) (λ p m. rw k m)
          (go_onward-Moved (record r { link = l }))

joined_with : (peer : PeerInfo) (r : Roster) → (joined peer r).streaming_with ≡ r.streaming_with
unfolding joined
joined_with peer r = ground arith

recovered_with : (r : Roster) → (audio_recovered r).streaming_with ≡ r.streaming_with
unfolding audio_recovered
recovered_with r = ground arith

failed_with :
    (peer : ℕ) (r : Roster)
    → (start_failed peer r).streaming_with ≡ found r (Event.start_failed peer)
unfolding start_failed forget_the_audio
failed_with peer r = ground arith

pub step-Outcome : (r : Roster) (e : Event) → Outcome r e (step r e)
unfolding step audio_silent audio_failed forget_the_audio
step-Outcome r (Event.entered own peers) = entered-Outcome own peers r
step-Outcome r (Event.joined peer) = quiet (joined_with peer r)
step-Outcome r (Event.updated peer) = updated-Outcome peer r
step-Outcome r Event.audio_silent = down-Outcome r Event.audio_silent Link.silent _ refl refl
step-Outcome r Event.audio_failed = down-Outcome r Event.audio_failed Link.failed _ refl refl
step-Outcome r Event.audio_recovered = quiet (recovered_with r)
step-Outcome r (Event.left id) = left-Outcome id r
step-Outcome r (Event.start_failed peer) = quiet (failed_with peer r)
step-Outcome r Event.audio_ended = quiet refl
step-Outcome r Event.clear = quiet refl
