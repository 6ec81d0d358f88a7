-- ===== src/Roster.antt =====
-- src-tauri/src/session/roster.rs: who is in the room, and whom the audio goes to. A method gives the
-- roster as it is afterwards, and what is to be done to the audio.
pub mod Types
pub mod Began
pub mod Outcome
pub mod Player
pub mod Started
pub mod Valid
pub mod Onward
mod Tests
use jamjam_client.Prelude.{
  ℕ, Bool, true, false, not, ◌&&◌, ◌||◌, Option, none, some, List, [], ◌∷◌, ◌++◌, ◌==◌,
  if◌then◌else◌,
}
use jamjam_client.Prelude.Counters.{contains, is_empty}
use jamjam_client.Peers.Types.{SocketAddr, PeerInfo}
use jamjam_client.Peers.{socket_eq, text_eq, get_sorted_candidates}
use Types.{Audio, Link, Roster, Event}

abbrev pub default : Roster
default = record {
  peers = [];
  streaming_with = none;
  started_with = [];
  link = Link.healthy;
  own_ids = [];
  left_behind = [];
}

abbrev pub link_eq : Link → Link → Bool
link_eq Link.healthy Link.healthy = true
link_eq Link.silent Link.silent = true
link_eq Link.failed Link.failed = true
link_eq _ _ = false

abbrev pub is_some {ℓ} : {A : Type ℓ} → Option A → Bool
is_some none = false
is_some (some a) = true

abbrev pub is_id : Option ℕ → ℕ → Bool
is_id none id = false
is_id (some with) id = with == id

-- `retain(|id| *id != peer_id)`
unfoldable pub forget_id : ℕ → List ℕ → List ℕ
forget_id id [] = []
forget_id id (x ∷ xs) = let rest = forget_id id xs in if x == id then rest else x ∷ rest

-- `peers.retain(|p| p.id != peer_id)`
unfoldable pub without : ℕ → List PeerInfo → List PeerInfo
without id [] = []
without id (p ∷ ps) = let rest = without id ps in if p.id == id then rest else p ∷ rest

-- `filter(|p| !self.own_ids.contains(&p.id))`
unfoldable pub others : List ℕ → List PeerInfo → List PeerInfo
others own [] = []
others own (p ∷ ps) = let rest = others own ps in if contains own p.id then rest else p ∷ rest

-- `find(|p| p.id == id)`
unfoldable pub find_peer : ℕ → List PeerInfo → Option PeerInfo
find_peer id [] = none
find_peer id (p ∷ ps) = let rest = find_peer id ps in if p.id == id then some p else rest

-- Puts what a peer published in the place of its first entry.
unfoldable pub replace_peer : PeerInfo → List PeerInfo → List PeerInfo
replace_peer peer [] = []
replace_peer peer (p ∷ ps) =
    let rest = replace_peer peer ps in if p.id == peer.id then peer ∷ ps else p ∷ rest

-- `find` of the first peer that has published an address.
abbrev pub has_published : PeerInfo → Bool
has_published p = is_some p.public_addr || (is_some p.local_addr || not (is_empty p.candidates))

unfoldable pub first_published : List PeerInfo → Option PeerInfo
first_published [] = none
first_published (p ∷ ps) = let rest = first_published ps in if has_published p then some p else rest

unfoldable pub forget_the_audio : Roster → Roster
forget_the_audio r = record r { streaming_with = none; started_with = []; link = Link.healthy }

-- `start_with`, once the candidates of the peer are known.
unfoldable pub start_at : PeerInfo → List SocketAddr → Roster → Roster × List Audio
start_at peer [] r = (r, [])
start_at peer (a ∷ as') r = (
  record r { streaming_with = some peer.id; started_with = a ∷ as'; link = Link.healthy },
  Audio.start peer.id (a ∷ as') peer.link_key ∷ [],
)

unfoldable pub start_first : Option PeerInfo → Roster → Roster × List Audio
unfolding start_at get_sorted_candidates
start_first none r = (r, [])
start_first (some peer) r = start_at peer (get_sorted_candidates peer) r

unfoldable pub start_with : List PeerInfo → Roster → Roster × List Audio
unfolding start_first first_published
start_with candidates_from r =
    if is_some r.streaming_with then (r, []) else start_first (first_published candidates_from) r

abbrev pub addrs_eq : List SocketAddr → List SocketAddr → Bool
unfolding socket_eq
addrs_eq [] [] = true
addrs_eq [] (b ∷ bs) = false
addrs_eq (a ∷ as') [] = false
addrs_eq (a ∷ as') (b ∷ bs) = socket_eq a b && addrs_eq as' bs

-- `Some(&p.name) == name.as_ref()`
abbrev pub has_name : List ℕ → Option PeerInfo → Bool
unfolding text_eq
has_name name none = false
has_name name (some p) = text_eq name p.name

-- Whether the audio may move to `p` from the peer `with`, which is listed as `known`.
unfoldable pub may_follow : Roster → ℕ → Option PeerInfo → PeerInfo → Bool
unfolding addrs_eq has_name get_sorted_candidates
may_follow r with known p =
    let has_address = not (is_empty (get_sorted_candidates p)) in
    if contains r.left_behind p.id
    then false
    else if p.id == with
    then has_address && not (addrs_eq (get_sorted_candidates p) r.started_with)
    else has_address && (link_eq r.link Link.failed || has_name p.name known)

unfoldable pub find_next : Roster → ℕ → Option PeerInfo → List PeerInfo → Option PeerInfo
unfolding may_follow
find_next r with known [] = none
find_next r with known (p ∷ ps) =
    let rest = find_next r with known ps in if may_follow r with known p then some p else rest

-- The end of `go_onward`, by what `start_with` did: it started, or nothing is changed.
unfoldable pub moved_on : Roster → ℕ → PeerInfo → Roster × List Audio → Roster × List Audio
moved_on r with next (r', []) = (record r' { streaming_with = some with }, [])
moved_on r with next (r', begin ∷ _) = (
  if next.id == with then r' else record r' { left_behind = r'.left_behind ++ with ∷ [] },
  Audio.stop ∷ Audio.keep_address ∷ begin ∷ [],
)

unfoldable pub go_to : Roster → ℕ → Option PeerInfo → Roster × List Audio
unfolding moved_on start_with
go_to r with none = (r, [])
go_to r with (some next) =
    moved_on r with next (start_with (next ∷ []) (record r { streaming_with = none }))

unfoldable pub go_from : Roster → Option ℕ → Roster × List Audio
unfolding go_to find_next find_peer
go_from r none = (r, [])
go_from r (some with) =
    if link_eq r.link Link.healthy
    then (r, [])
    else go_to r with (find_next r with (find_peer with r.peers) r.peers)

unfoldable pub go_onward : Roster → Roster × List Audio
unfolding go_from
go_onward r = go_from r r.streaming_with

-- The steps that come before those of `start_with`.
abbrev pub after : List Audio → Roster × List Audio → Roster × List Audio
after first (r, audio) = (r, first ++ audio)

abbrev pub add_id : ℕ → List ℕ → List ℕ
add_id own ids = if contains ids own then ids else ids ++ own ∷ []

unfoldable pub entered : ℕ → List PeerInfo → Roster → Roster × List Audio
unfolding forget_the_audio others start_with
entered own peers r =
    let own_ids = add_id own r.own_ids in
    after (Audio.advertise ∷ []) (
      start_with (others own_ids peers) (record (forget_the_audio r) {
        own_ids = own_ids;
        left_behind = [];
        peers = others own_ids peers;
      }))

unfoldable pub joined : PeerInfo → Roster → Roster
unfolding find_peer
joined peer r =
    if is_some (find_peer peer.id r.peers) then r else record r { peers = r.peers ++ peer ∷ [] }

unfoldable pub updated : PeerInfo → Roster → Roster × List Audio
unfolding replace_peer forget_id go_onward start_with
updated peer r =
    let r' = record r {
      peers = replace_peer peer r.peers;
      left_behind = forget_id peer.id r.left_behind;
    } in
    if is_some r'.streaming_with then go_onward r' else start_with (peer ∷ []) r'

unfoldable pub audio_silent : Roster → Roster × List Audio
unfolding go_onward
audio_silent r =
    if not (is_some r.streaming_with) || not (link_eq r.link Link.healthy)
    then (r, [])
    else go_onward (record r { link = Link.silent })

unfoldable pub audio_failed : Roster → Roster × List Audio
unfolding go_onward
audio_failed r =
    if not (is_some r.streaming_with) || link_eq r.link Link.failed
    then (r, [])
    else go_onward (record r { link = Link.failed })

unfoldable pub audio_recovered : Roster → Roster
audio_recovered r = if is_some r.streaming_with then record r { link = Link.healthy } else r

unfoldable pub left : ℕ → Roster → Roster × List Audio
unfolding without forget_id forget_the_audio start_with
left id r =
    let r' = record r { peers = without id r.peers; left_behind = forget_id id r.left_behind } in
    if is_id r.streaming_with id
    then after (Audio.stop ∷ Audio.advertise ∷ [])
        (start_with (without id r.peers) (forget_the_audio r'))
    else (r', [])

unfoldable pub start_failed : ℕ → Roster → Roster
unfolding forget_the_audio
start_failed peer r = if is_id r.streaming_with peer then forget_the_audio r else r

unfoldable pub step : Roster → Event → Roster × List Audio
unfolding entered joined updated audio_silent audio_failed audio_recovered left start_failed
    forget_the_audio
step r (Event.entered own peers) = entered own peers r
step r (Event.joined peer) = (joined peer r, [])
step r (Event.updated peer) = updated peer r
step r Event.audio_silent = audio_silent r
step r Event.audio_failed = audio_failed r
step r Event.audio_recovered = (audio_recovered r, [])
step r (Event.left id) = left id r
step r (Event.start_failed peer) = (start_failed peer r, [])
step r Event.audio_ended = (forget_the_audio r, [])
step r Event.clear = (default, [])
