-- ===== src/Roster/Started.antt =====
-- Whom the roster starts audio with.
use jamjam_client.Prelude.{ℕ, ◌≡◌, refl, Option, List, [], ◌∷◌, ◌++◌}
use jamjam_client.Peers.Types.{PeerInfo}
use jamjam_client.Peers.{get_sorted_candidates}
use jamjam_client.Roster.Types.{Audio, Roster, Event}
use jamjam_client.Prelude.Members.{OneOf}
use jamjam_client.Roster.Began.{Began, nothing, began, Moved, stays, moves}
use jamjam_client.Roster.Outcome.{
  heard, Setup, as_is, anew, instead, Outcome, quiet, begins, goes_on, step-Outcome,
}
use jamjam_client.Roster.{step}

-- Each start among the steps is to one of `ps`, at all of its addresses and with its key.
abbrev pub IsStart : List PeerInfo → Audio → Type 0
IsStart ps (Audio.start peer addrs key) =
    (p : PeerInfo) × OneOf p ps
    × (p.id ≡ peer)
    × (get_sorted_candidates p ≡ addrs)
    × (p.link_key ≡ key)
IsStart ps _ = Unit

abbrev pub AllStarts : List PeerInfo → List Audio → Type 0
AllStarts ps [] = Unit
AllStarts ps (x ∷ xs) = IsStart ps x × AllStarts ps xs

Setup-AllStarts :
    {session : Option ℕ} {setup : List Audio} (ps : List PeerInfo) (xs : List Audio)
    → Setup session setup
    → AllStarts ps xs
    → AllStarts ps (setup ++ xs)
Setup-AllStarts ps xs (as_is e) h = h
Setup-AllStarts ps xs (anew e) h = (tt, h)
Setup-AllStarts ps xs (instead with e) h = (tt, (tt, h))

-- The peers to choose from are the same before and after a start or a move.
abbrev Heard : Event → Roster × List Audio → Type 0
Heard e result = AllStarts (heard e result.0.peers) result.1

Began-Heard :
    (e : Event) {ps : List PeerInfo} {r : Roster} {result : Roster × List Audio}
    → ((p : PeerInfo) → OneOf p ps → OneOf p (heard e r.peers))
    → Began ps r result
    → Heard e result
Began-Heard e m nothing = tt
Began-Heard e m (began peer a rest one h n) = ((peer, m peer one, refl, h, refl), tt)

Moved-Heard :
    (e : Event) {r : Roster} {result : Roster × List Audio}
    → ((p : PeerInfo) → OneOf p r.peers → OneOf p (heard e r.peers))
    → Moved r result
    → Heard e result
Moved-Heard e m stays = tt
Moved-Heard e m (moves with next a rest behind w down one f h b) =
    (tt, (tt, ((next, m next one, refl, h, refl), tt)))

Outcome-Heard :
    {r : Roster} {e : Event} {result : Roster × List Audio} → Outcome r e result → Heard e result
Outcome-Heard (quiet h) = tt
Outcome-Heard {e} (begins {setup} {result} s h m b) =
    Setup-AllStarts (heard e result.0.peers) result.1 s (Began-Heard e m b)
Outcome-Heard {e} (goes_on h m v) = Moved-Heard e m v

-- Audio is only ever started with a participant listed in the room, or with one who has just published
-- an address, on all the addresses it offers in their order, and with the key the server gave for it.
pub step-AllStarts : (r : Roster) (e : Event) → AllStarts (heard e (step r e).0.peers) (step r e).1
step-AllStarts r e = Outcome-Heard (step-Outcome r e)
