-- ===== src/Roster/Valid.antt =====
-- The state of the roster after any history.
use jamjam_client.Prelude.{
  ℕ, ◌≡◌, ◌≢◌, refl, Bool, true, Option, none, some, List, [], ◌∷◌, ◌++◌, by_if, if◌then◌else◌, not,
  ◌||◌, arith,
}
use jamjam_client.Peers.Types.{SocketAddr, PeerInfo}
use jamjam_client.Roster.Types.{Audio, Link, Roster, Event}
use jamjam_client.Roster.Began.{
  Began, nothing, began, start_with-Began, Moved, stays, moves, go_onward-Moved,
}
use jamjam_client.Roster.{
  default, is_some, is_id, start_with, go_onward, forget_the_audio, joined, audio_recovered,
  entered, updated, audio_silent, audio_failed, left, start_failed, step, after, others, add_id,
  without, replace_peer, forget_id,
}

-- With a session there are the addresses it was started with; with none there are none, and no link
-- that could be down.
abbrev pub Fits : Option ℕ → List SocketAddr → Link → Type 0
Fits none addrs link = (addrs ≡ []) × (link ≡ Link.healthy)
Fits (some with) addrs link = addrs ≢ []

abbrev pub IsValid : Roster → Type 0
IsValid r = Fits r.streaming_with r.started_with r.link

abbrev AreValid : Roster × List Audio → Type 0
AreValid result = IsValid result.0

not_empty : {A : Type 0} (a : A) (as' : List A) → (a ∷ as') ≢ []
not_empty a as' e = cc

-- The state of the link matters only with no session.
relinked :
    (o : Option ℕ) (addrs : List SocketAddr) (l l' : Link)
    → is_some o ≡ true
    → Fits o addrs l
    → Fits o addrs l'
relinked none addrs l l' t f = absurd (cc)
relinked (some with) addrs l l' t f = f

Began-AreValid :
    {ps : List PeerInfo} {r : Roster} {result : Roster × List Audio}
    → IsValid r
    → Began ps r result
    → AreValid result
Began-AreValid v nothing = v
Began-AreValid v (began peer a rest m h n) = not_empty a rest

Moved-AreValid :
    {r : Roster} {result : Roster × List Audio} → IsValid r → Moved r result → AreValid result
Moved-AreValid v stays = v
Moved-AreValid v (moves with next a rest behind w down m f h b) = not_empty a rest

start_with-AreValid :
    (setup : List Audio) (ps : List PeerInfo) (r : Roster)
    → IsValid r
    → AreValid (after setup (start_with ps r))
start_with-AreValid setup ps r v = Began-AreValid v (start_with-Began ps r)

forgotten : (r : Roster) → IsValid (forget_the_audio r)
unfolding forget_the_audio
forgotten r = (refl, refl)

updated-AreValid : (peer : PeerInfo) (r : Roster) → IsValid r → AreValid (updated peer r)
unfolding updated
updated-AreValid peer r v =
    let r' = record r {
      peers = replace_peer peer r.peers;
      left_behind = forget_id peer.id r.left_behind;
    } in
    by_if AreValid (is_some r.streaming_with) (go_onward r') (start_with (peer ∷ []) r')
      (λ t. Moved-AreValid {r = r'} v (go_onward-Moved r'))
      (λ f. start_with-AreValid [] (peer ∷ []) r' v)

-- A link that goes down while there is a session.
down-AreValid :
    (r : Roster) (l : Link) (b : Bool)
    → IsValid r
    → AreValid
        (if not (is_some r.streaming_with) || b then (r, []) else go_onward (record r { link = l }))
down-AreValid r l b v =
    by_if AreValid (not (is_some r.streaming_with) || b) (r, []) (go_onward (record r { link = l }))
      (λ t. v)
      λ f.
        Moved-AreValid {r = record r { link = l }}
          (relinked r.streaming_with r.started_with r.link l (ground arith) v)
          (go_onward-Moved (record r { link = l }))

left-AreValid : (id : ℕ) (r : Roster) → IsValid r → AreValid (left id r)
unfolding left
left-AreValid id r v =
    let r' = record r { peers = without id r.peers; left_behind = forget_id id r.left_behind } in
    by_if AreValid (is_id r.streaming_with id)
      (after (Audio.stop ∷ Audio.advertise ∷ [])
        (start_with (without id r.peers) (forget_the_audio r')))
      (r', [])
      (λ t.
        start_with-AreValid (Audio.stop ∷ Audio.advertise ∷ []) (without id r.peers)
          (forget_the_audio r') (forgotten r'))
      (λ f. v)

entered-AreValid : (own : ℕ) (peers : List PeerInfo) (r : Roster) → AreValid (entered own peers r)
unfolding entered forget_the_audio
entered-AreValid own peers r =
    let r' = record (forget_the_audio r) {
      own_ids = add_id own r.own_ids;
      left_behind = [];
      peers = others (add_id own r.own_ids) peers;
    } in
    start_with-AreValid (Audio.advertise ∷ []) (others (add_id own r.own_ids) peers) r' (refl, refl)

joined-IsValid : (peer : PeerInfo) (r : Roster) → IsValid r → IsValid (joined peer r)
unfolding joined
joined-IsValid peer r v =
    by_if IsValid _ r (record r { peers = r.peers ++ peer ∷ [] }) (λ t. v) (λ f. v)

recovered-IsValid : (r : Roster) → IsValid r → IsValid (audio_recovered r)
unfolding audio_recovered
recovered-IsValid r v =
    by_if IsValid (is_some r.streaming_with) (record r { link = Link.healthy }) r
      (λ t. relinked r.streaming_with r.started_with r.link Link.healthy t v) (λ f. v)

start_failed-IsValid : (peer : ℕ) (r : Roster) → IsValid r → IsValid (start_failed peer r)
unfolding start_failed
start_failed-IsValid peer r v =
    by_if IsValid (is_id r.streaming_with peer) (forget_the_audio r) r (λ t. forgotten r) (λ f. v)

step-AreValid : (r : Roster) (e : Event) → IsValid r → AreValid (step r e)
unfolding step audio_silent audio_failed forget_the_audio
step-AreValid r (Event.entered own peers) v = entered-AreValid own peers r
step-AreValid r (Event.joined peer) v = joined-IsValid peer r v
step-AreValid r (Event.updated peer) v = updated-AreValid peer r v
step-AreValid r Event.audio_silent v = down-AreValid r Link.silent _ v
step-AreValid r Event.audio_failed v = down-AreValid r Link.failed _ v
step-AreValid r Event.audio_recovered v = recovered-IsValid r v
step-AreValid r (Event.left id) v = left-AreValid id r v
step-AreValid r (Event.start_failed peer) v = start_failed-IsValid peer r v
step-AreValid r Event.audio_ended v = forgotten r
step-AreValid r Event.clear v = (refl, refl)

pub run : Roster → List Event → Roster
run r [] = r
run r (e ∷ es) = run (step r e).0 es

run-IsValid' : (r : Roster) (es : List Event) → IsValid r → IsValid (run r es)
unfolding run
run-IsValid' r [] v = v
run-IsValid' r (e ∷ es) v = run-IsValid' (step r e).0 es (step-AreValid r e v)

-- After any history of the room and of the link, a roster that says the audio is with someone has the
-- addresses it was started with, at least one, and a roster that says it is with no one has none, and
-- no link that is down.
pub run-IsValid : (es : List Event) → IsValid (run default es)
run-IsValid es = run-IsValid' default es (refl, refl)
