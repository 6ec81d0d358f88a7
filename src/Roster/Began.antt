-- ===== src/Roster/Began.antt =====
-- What `start_with` and `go_onward` may do, as families of results.
use jamjam_client.Prelude.{
  ℕ, ◌≡◌, refl, sym, subst, true, false, Option, none, some, List, [], ◌∷◌, ◌++◌, arith, Bool-cases,
  inl, inr, if◌then◌else◌, by_if, ◌==◌,
}
use jamjam_client.Prelude.Members.{OneOf, first, later}
use jamjam_client.Peers.Types.{SocketAddr, PeerInfo}
use jamjam_client.Peers.{get_sorted_candidates}
use jamjam_client.Roster.Types.{Audio, Link, Roster}
use jamjam_client.Roster.{
  is_some, link_eq, has_published, start_at, start_first, first_published, start_with, moved_on,
  go_to, go_from, may_follow, find_next, find_peer, go_onward,
}

-- Nothing is started, or audio to one of the peers of a list, on all the addresses it has.
pub data Began (ps : List PeerInfo) (r : Roster) : Roster × List Audio → Type 0 where
  nothing : Began ps r (r, [])
  began :
      (peer : PeerInfo) (a : SocketAddr) (rest : List SocketAddr)
      → OneOf peer ps
      → get_sorted_candidates peer ≡ a ∷ rest
      → r.streaming_with ≡ none
      → Began ps r (
        record r { streaming_with = some peer.id; started_with = a ∷ rest; link = Link.healthy },
        Audio.start peer.id (a ∷ rest) peer.link_key ∷ [],
      )

first_published-OneOf :
    (ps : List PeerInfo) (p : PeerInfo) → first_published ps ≡ some p → OneOf p ps
unfolding first_published
first_published-OneOf [] p e = cc
first_published-OneOf (q ∷ ps) p e = elim (Bool-cases (has_published q)) [
  | inl t ↦ subst (λ x. OneOf p (x ∷ ps)) {x = p} {y = q} (ground arith) first
  | inr f ↦ later (first_published-OneOf ps p (ground arith))
]

start_at-Began :
    (ps : List PeerInfo) (peer : PeerInfo) (addrs : List SocketAddr) (r : Roster)
    → OneOf peer ps
    → get_sorted_candidates peer ≡ addrs
    → r.streaming_with ≡ none
    → Began ps r (start_at peer addrs r)
unfolding start_at
start_at-Began ps peer [] r m e n = nothing
start_at-Began ps peer (a ∷ rest) r m e n = began peer a rest m e n

start_first-Began :
    (ps : List PeerInfo) (o : Option PeerInfo) (r : Roster)
    → first_published ps ≡ o
    → r.streaming_with ≡ none
    → Began ps r (start_first o r)
unfolding start_first
start_first-Began ps none r e n = nothing
start_first-Began ps (some peer) r e n =
    start_at-Began ps peer (get_sorted_candidates peer) r (first_published-OneOf ps peer e) refl n

nothing_there : {A : Type 0} (o : Option A) → is_some o ≡ false → o ≡ none
nothing_there none h = refl
nothing_there (some a) h = cc

pub start_with-Began : (ps : List PeerInfo) (r : Roster) → Began ps r (start_with ps r)
unfolding start_with
start_with-Began ps r =
    by_if (Began ps r) (is_some r.streaming_with) (r, []) (start_first (first_published ps) r)
      (λ t. nothing)
      (λ f. start_first-Began ps (first_published ps) r refl (nothing_there r.streaming_with f))

-- Nothing is changed, or the audio to the peer `with` is ended and begun anew on the address that this
-- side has, to a peer it may move to.
pub data Moved (r : Roster) : Roster × List Audio → Type 0 where
  stays : Moved r (r, [])
  moves :
      (with : ℕ) (next : PeerInfo) (a : SocketAddr) (rest : List SocketAddr) (left_behind : List ℕ)
      → r.streaming_with ≡ some with
      → link_eq r.link Link.healthy ≡ false
      → OneOf next r.peers
      → may_follow r with (find_peer with r.peers) next ≡ true
      → get_sorted_candidates next ≡ a ∷ rest
      → left_behind ≡ (if next.id == with then r.left_behind else r.left_behind ++ with ∷ [])
      → Moved r (
        record r {
          streaming_with = some next.id;
          started_with = a ∷ rest;
          link = Link.healthy;
          left_behind = left_behind;
        },
        Audio.stop ∷ Audio.keep_address ∷ Audio.start next.id (a ∷ rest) next.link_key ∷ [],
      )

find_next-OneOf :
    (r : Roster) (with : ℕ) (known : Option PeerInfo) (ps : List PeerInfo) (p : PeerInfo)
    → find_next r with known ps ≡ some p
    → OneOf p ps × (may_follow r with known p ≡ true)
unfolding find_next
find_next-OneOf r with known [] p e = cc
find_next-OneOf r with known (q ∷ ps) p e = elim (Bool-cases (may_follow r with known q)) [
  | inl t ↦
      let same : q ≡ p = ground arith in
      (subst (λ x. OneOf p (x ∷ ps)) (sym same) first, rw (← same) t)
  | inr f ↦ let found = find_next-OneOf r with known ps p (ground arith) in (later found.0, found.1)
]

only_one : (p q : PeerInfo) → OneOf p (q ∷ []) → p ≡ q
only_one p q first = refl
only_one p q (later m) = elim m [ ]

moved_on-Moved :
    (r : Roster) (with : ℕ) (next : PeerInfo) {result : Roster × List Audio}
    → r.streaming_with ≡ some with
    → link_eq r.link Link.healthy ≡ false
    → OneOf next r.peers
    → may_follow r with (find_peer with r.peers) next ≡ true
    → Began (next ∷ []) (record r { streaming_with = none }) result
    → Moved r (moved_on r with next result)
unfolding moved_on
moved_on-Moved r with next e down m f nothing =
    subst (λ w. Moved r (record r { streaming_with = w }, [])) e stays
moved_on-Moved r with next e down m f (began peer a rest one addrs n) =
    let same : peer ≡ next = only_one peer next one in
    subst
      (λ p. Moved r (
        if next.id == with
            then record r {
              streaming_with = some p.id;
              started_with = a ∷ rest;
              link = Link.healthy;
            }
            else record r {
              streaming_with = some p.id;
              started_with = a ∷ rest;
              link = Link.healthy;
              left_behind = r.left_behind ++ with ∷ [];
            },
        Audio.stop ∷ Audio.keep_address ∷ Audio.start p.id (a ∷ rest) p.link_key ∷ [],
      ))
      (sym same)
      (elim (Bool-cases (next.id == with)) [
        | inl t ↦
            rw t (moves with next a rest r.left_behind e down m f (rw (← same) addrs) (rw t refl))
        | inr t ↦ rw t (
            moves with next a rest (r.left_behind ++ with ∷ []) e down m f (rw (← same) addrs)
              (rw t refl))
      ])

go_to-Moved :
    (r : Roster) (with : ℕ) (o : Option PeerInfo)
    → r.streaming_with ≡ some with
    → link_eq r.link Link.healthy ≡ false
    → find_next r with (find_peer with r.peers) r.peers ≡ o
    → Moved r (go_to r with o)
unfolding go_to
go_to-Moved r with none e down f = stays
go_to-Moved r with (some next) e down f =
    let found = find_next-OneOf r with (find_peer with r.peers) r.peers next f in
    moved_on-Moved r with next e down found.0 found.1
      (start_with-Began (next ∷ []) (record r { streaming_with = none }))

go_from-Moved : (r : Roster) (o : Option ℕ) → r.streaming_with ≡ o → Moved r (go_from r o)
unfolding go_from
go_from-Moved r none e = stays
go_from-Moved r (some with) e =
    by_if (Moved r) (link_eq r.link Link.healthy) (r, [])
      (go_to r with (find_next r with (find_peer with r.peers) r.peers)) (λ t. stays)
      (λ down. go_to-Moved r with (find_next r with (find_peer with r.peers) r.peers) e down refl)

pub go_onward-Moved : (r : Roster) → Moved r (go_onward r)
unfolding go_onward
go_onward-Moved r = go_from-Moved r r.streaming_with refl
