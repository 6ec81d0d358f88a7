-- ===== src/Roster/Player.antt =====
-- What the roster asks for, as the audio session sees it.
use jamjam_client.Prelude.{
  ℕ, ◌≡◌, refl, ap, sym, ◌∙◌, Option, none, some, List, [], ◌∷◌, ◌++◌, Option-cases, inl, inr,
  ◌>>=◌,
}
use jamjam_client.Peers.Types.{PeerInfo}
use jamjam_client.Roster.Types.{Audio, Roster, Event}
use jamjam_client.Roster.Began.{Began, nothing, began, Moved, stays, moves}
use jamjam_client.Roster.Outcome.{
  found, Setup, as_is, anew, instead, Outcome, quiet, begins, goes_on, step-Outcome,
}
use jamjam_client.Roster.{step}

-- The audio session, by the peer it is with. A session ends only when there is one, a socket is bound
-- and a session started only when there is none, and never without an address to send to.
abbrev pub obey : Option ℕ → Audio → Option (Option ℕ)
obey (some with) Audio.stop = some none
obey none Audio.stop = none
obey none Audio.advertise = some none
obey (some with) Audio.advertise = none
obey none Audio.keep_address = some none
obey (some with) Audio.keep_address = none
obey none (Audio.start peer [] key) = none
obey none (Audio.start peer (a ∷ rest) key) = some (some peer)
obey (some with) (Audio.start peer addrs key) = none

abbrev pub obey_all : Option ℕ → List Audio → Option (Option ℕ)
obey_all session [] = some session
obey_all session (x ∷ xs) = obey session x >>= λ session'. obey_all session' xs

obey_all-append :
    (session : Option ℕ) (xs ys : List Audio)
    → obey_all session (xs ++ ys) ≡ (obey_all session xs >>= λ session'. obey_all session' ys)
obey_all-append session [] ys = refl
obey_all-append session (x ∷ xs) ys = elim (Option-cases (obey session x)) [
  | inl e ↦ rw e refl
  | inr (s, e) ↦ rw e (obey_all-append s xs ys)
]

-- What was asked for turns the session into the one the roster tells of.
abbrev Agrees : Option ℕ → Roster × List Audio → Type 0
Agrees session result = obey_all session result.1 ≡ some result.0.streaming_with

Began-Agrees :
    {ps : List PeerInfo} {r : Roster} {result : Roster × List Audio}
    → r.streaming_with ≡ none
    → Began ps r result
    → Agrees none result
Began-Agrees e nothing = ap some (sym e)
Began-Agrees e (began peer a rest m h n) = refl

Moved-Agrees :
    {r : Roster} {result : Roster × List Audio} → Moved r result → Agrees r.streaming_with result
Moved-Agrees stays = refl
Moved-Agrees (moves with next a rest behind e down m f h b) = rw e refl

set_up :
    {session : Option ℕ} {setup : List Audio}
    → Setup session setup
    → obey_all session setup ≡ some none
set_up (as_is e) = ap some e
set_up (anew e) = rw e refl
set_up (instead with e) = rw e refl

Outcome-Agrees :
    {r : Roster} {e : Event} {result : Roster × List Audio}
    → Outcome r e result
    → Agrees (found r e) result
Outcome-Agrees (quiet h) = ap some (sym h)
Outcome-Agrees {r} {e} (begins {setup} {result} s h m b) =
    obey_all-append (found r e) setup result.1 ∙ rw (set_up s) (Began-Agrees h b)
Outcome-Agrees (goes_on h m v) = rw (← h) (Moved-Agrees v)

-- Whatever the room and the link tell the roster, what it asks for can be carried out in the order
-- given: from the session that the event finds it leads, one step at a time, to the session that the
-- roster afterwards says it is in. So there is never a second session beside the first, and none
-- without an address.
pub step-obey_all :
    (r : Roster) (e : Event) → obey_all (found r e) (step r e).1 ≡ some (step r e).0.streaming_with
step-obey_all r e = Outcome-Agrees (step-Outcome r e)
