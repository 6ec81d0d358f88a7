-- ===== src/Roster/Onward.antt =====
-- Where the audio goes once its link is given up.
use jamjam_client.Prelude.{
  ℕ, ◌≡◌, ◌≢◌, refl, sym, ap, subst, true, false, not, ◌||◌, Option, none, some, List, [], ◌∷◌,
  ◌++◌, arith, ◌⊎◌, Bool-cases, inl, inr, if◌then◌else◌, ◌==◌,
}
use jamjam_client.Prelude.Counters.{contains, is_empty}
use jamjam_client.Peers.Types.{SocketAddr, AddressCandidate, PeerInfo}
use jamjam_client.Peers.{
  get_sorted_candidates, sort_by_priority, push_new, addresses, retain_specified,
}
use jamjam_client.Peers.Addresses.{socket_eq_refl}
use jamjam_client.Roster.Types.{Audio, Link, Roster}
use jamjam_client.Prelude.Members.{OneOf, first, later}
use jamjam_client.Roster.Began.{Moved, stays, moves, go_onward-Moved}
use jamjam_client.Roster.{
  is_some, link_eq, addrs_eq, has_published, start_at, start_with, start_first, first_published,
  may_follow, find_next, find_peer, moved_on, go_to, go_from, go_onward, audio_failed,
}

published_parts :
    (public_addr local_addr : Option SocketAddr) (cs : List AddressCandidate)
    → is_empty (
        retain_specified
          (push_new local_addr (push_new public_addr (addresses (sort_by_priority cs)))))
      ≡ false
    → (is_some public_addr || (is_some local_addr || not (is_empty cs))) ≡ true
unfolding retain_specified push_new sort_by_priority
published_parts (some a) l cs h = refl
published_parts none (some a) cs h = refl
published_parts none none [] h = cc
published_parts none none (c ∷ cs) h = refl

-- A peer that has an address to be tried on has published one.
published : (p : PeerInfo) → is_empty (get_sorted_candidates p) ≡ false → has_published p ≡ true
unfolding get_sorted_candidates
published p h = published_parts p.public_addr p.local_addr p.candidates h

start_one :
    (p : PeerInfo) (r : Roster)
    → r.streaming_with ≡ none
    → is_empty (get_sorted_candidates p) ≡ false
    → start_with (p ∷ []) r ≡ start_at p (get_sorted_candidates p) r
unfolding start_with first_published start_first
start_one p r e h = rw (e, published p h) refl

moved_on_asks :
    (r r' : Roster) (with : ℕ) (p : PeerInfo) (addrs : List SocketAddr)
    → is_empty addrs ≡ false
    → (moved_on r with p (start_at p addrs r')).1 ≢ []
unfolding moved_on start_at
moved_on_asks r r' with p [] h = cc
moved_on_asks r r' with p (a ∷ rest) h = λ e. cc

has_address :
    (r : Roster) (with : ℕ) (known : Option PeerInfo) (p : PeerInfo)
    → may_follow r with known p ≡ true
    → is_empty (get_sorted_candidates p) ≡ false
unfolding may_follow
has_address r with known p h = ground arith

finds :
    (r : Roster) (with : ℕ) (known : Option PeerInfo) (p : PeerInfo) {ps : List PeerInfo}
    → may_follow r with known p ≡ true
    → OneOf p ps
    → (next : PeerInfo) × (find_next r with known ps ≡ some next)
      × (may_follow r with known next ≡ true)
unfolding find_next
finds r with known p h first = (p, rw h refl, h)
finds r with known p h (later {x = q} {xs = ps} m) = elim (Bool-cases (may_follow r with known q)) [
  | inl t ↦ (q, rw t refl, t)
  | inr f ↦ let rest = finds r with known p h m in (rest.0, rw f rest.1, rest.2)
]

go_onward_asks :
    (r : Roster) (with : ℕ) (p : PeerInfo)
    → r.streaming_with ≡ some with
    → link_eq r.link Link.healthy ≡ false
    → OneOf p r.peers
    → may_follow r with (find_peer with r.peers) p ≡ true
    → (go_onward r).1 ≢ []
unfolding go_onward go_from go_to
go_onward_asks r with p e down m h =
    let found = finds r with (find_peer with r.peers) p h m in
    let next = found.0 in
    let some_address = has_address r with (find_peer with r.peers) next found.2 in
    rw (e, down, found.1, start_one next (record r { streaming_with = none }) refl some_address)
      (moved_on_asks r (record r { streaming_with = none }) with next (get_sorted_candidates next)
        some_address)

-- The audio goes on: to another participant, or to one that is tried on other addresses than before.
pub record MovesOn (r : Roster) (with : ℕ) (result : Roster × List Audio) : Type 0 where
  pub next : PeerInfo
  pub listed : OneOf next r.peers
  pub not_left_behind : contains r.left_behind next.id ≡ false
  pub elsewhere : (next.id ≢ with) ⊎ (get_sorted_candidates next ≢ r.started_with)
  pub asked :
      result.1
      ≡ Audio.stop
        ∷ Audio.keep_address
        ∷ Audio.start next.id (get_sorted_candidates next) next.link_key
        ∷ []
  pub now_with : result.0.streaming_with ≡ some next.id
  pub leaves :
      result.0.left_behind ≡ (if next.id == with then r.left_behind else r.left_behind ++ with ∷ [])

not_behind :
    (r : Roster) (with : ℕ) (known : Option PeerInfo) (p : PeerInfo)
    → may_follow r with known p ≡ true
    → contains r.left_behind p.id ≡ false
unfolding may_follow
not_behind r with known p h = ground arith

abbrev Elsewhere : Roster → PeerInfo → ℕ → Type 0
Elsewhere r p with = (p.id ≢ with) ⊎ (get_sorted_candidates p ≢ r.started_with)

addrs_eq_refl : (as' : List SocketAddr) → addrs_eq as' as' ≡ true
unfolding addrs_eq
addrs_eq_refl [] = refl
addrs_eq_refl (a ∷ as') = ground (arith, socket_eq_refl a, addrs_eq_refl as')

other_addrs : (xs ys : List SocketAddr) → addrs_eq xs ys ≡ false → xs ≢ ys
other_addrs xs ys h e =
    let same : addrs_eq xs ys ≡ true = subst (λ l. addrs_eq xs l ≡ true) e (addrs_eq_refl xs) in cc

goes-Elsewhere :
    (r : Roster) (with : ℕ) (known : Option PeerInfo) (p : PeerInfo)
    → may_follow r with known p ≡ true
    → Elsewhere r p with
unfolding may_follow
goes-Elsewhere r with known p h = elim (Bool-cases (p.id == with)) [
  | inl same ↦ inr (other_addrs (get_sorted_candidates p) r.started_with (ground (arith, h, same)))
  | inr other ↦ inl λ e. absurd (ground (arith, other, e))
]

Moved-MovesOn :
    (r : Roster) (with : ℕ) {result : Roster × List Audio}
    → r.streaming_with ≡ some with
    → result.1 ≢ []
    → Moved r result
    → MovesOn r with result
Moved-MovesOn r with e h stays = absurd (h refl)
Moved-MovesOn r with e h (moves from next a rest behind w down m f addrs b) =
    let same : from ≡ with = cc in
    record {
      next = next;
      listed = m;
      not_left_behind = not_behind r from (find_peer from r.peers) next f;
      elsewhere =
          subst (Elsewhere r next) same (goes-Elsewhere r from (find_peer from r.peers) next f);
      asked =
          ap (λ l. Audio.stop ∷ Audio.keep_address ∷ Audio.start next.id l next.link_key ∷ [])
            (sym addrs);
      now_with = refl;
      leaves = rw (← same) b;
    }

may_follow_other :
    (r : Roster) (with : ℕ) (known : Option PeerInfo) (p : PeerInfo)
    → r.link ≡ Link.failed
    → (p.id == with) ≡ false
    → contains r.left_behind p.id ≡ false
    → is_empty (get_sorted_candidates p) ≡ false
    → may_follow r with known p ≡ true
unfolding may_follow
may_follow_other r with known p l o c a = rw (l, o, c, a) refl

go_onward-MovesOn :
    (r : Roster) (with : ℕ) (p : PeerInfo)
    → r.streaming_with ≡ some with
    → OneOf p r.peers
    → (p.id == with) ≡ false
    → contains r.left_behind p.id ≡ false
    → is_empty (get_sorted_candidates p) ≡ false
    → MovesOn r with (go_onward (record r { link = Link.failed }))
go_onward-MovesOn r with p e m o c a =
    let r' = record r { link = Link.failed } in
    let moved =
      Moved-MovesOn r' with {result = go_onward r'} e
        (go_onward_asks r' with p e refl m
          (may_follow_other r' with (find_peer with r.peers) p refl o c a))
        (go_onward-Moved r') in
    record {
      next = moved.next;
      listed = moved.listed;
      not_left_behind = moved.not_left_behind;
      elsewhere = moved.elsewhere;
      asked = moved.asked;
      now_with = moved.now_with;
      leaves = moved.leaves;
    }

gives_up :
    (r : Roster) (with : ℕ)
    → r.streaming_with ≡ some with
    → link_eq r.link Link.failed ≡ false
    → go_onward (record r { link = Link.failed }) ≡ audio_failed r
unfolding audio_failed
gives_up r with e l =
    let some_with : is_some r.streaming_with ≡ true = ap is_some e in
    let asks : (not (is_some r.streaming_with) || link_eq r.link Link.failed) ≡ false = cc in
    sym (ap (λ b. if b then (r, []) else go_onward (record r { link = Link.failed })) asks)

-- When the audio session gives up on its peer and the room lists another participant with an address to
-- be tried on, whom the audio was not moved away from before, the audio does not stay: it is ended and
-- begun anew on the address this side has, with an entry of the room that it was not moved away from
-- before, and that is another participant or has other addresses than those it was last begun on. If it
-- is another participant, the one it leaves joins those it was moved away from.
pub audio_failed-MovesOn :
    (r : Roster) (with : ℕ) (p : PeerInfo)
    → r.streaming_with ≡ some with
    → link_eq r.link Link.failed ≡ false
    → OneOf p r.peers
    → (p.id == with) ≡ false
    → contains r.left_behind p.id ≡ false
    → is_empty (get_sorted_candidates p) ≡ false
    → MovesOn r with (audio_failed r)
audio_failed-MovesOn r with p e l m o c a =
    subst (MovesOn r with) (gives_up r with e l) (go_onward-MovesOn r with p e m o c a)
