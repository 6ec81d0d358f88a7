-- ===== src/Connect/Routes.antt =====
-- src/network/connection.rs: `Route`, where outgoing packets go. The moment is an argument.
use jamjam_client.Prelude.{
  ℕ, suc, ◌-◌, ◌+◌, Bool, true, false, ◌&&◌, ◌||◌, Option, none, some, List, [], ◌∷◌, set, ltb,
  if◌then◌else◌, ◌>>=◌,
}
use jamjam_client.Peers.Types.{SocketAddr}
use jamjam_client.Peers.{socket_eq}
use jamjam_client.Connect.Types.{Route}

unfoldable pub new : SocketAddr → List (SocketAddr × Bool) → ℕ → Route
new current others now = record { current = current; others = others; answered_at = now }

unfoldable pub among : SocketAddr → List (SocketAddr × Bool) → Bool
unfolding socket_eq
among addr [] = false
among addr ((other, sendable) ∷ rest) = socket_eq other addr || among addr rest

unfoldable pub knows : Route → SocketAddr → Bool
unfolding among
knows r addr = socket_eq addr r.current || among addr r.others

unfoldable pub answered : ℕ → Route → Route
answered now r = record r { answered_at = now }

unfoldable pub start_waiting_for_an_answer_in : ℕ → ℕ → Route → Route
start_waiting_for_an_answer_in after now r = record r { answered_at = now + after }

-- `position(|&(addr, sendable)| addr == from && sendable)`
unfoldable pub sendable_at : SocketAddr → List (SocketAddr × Bool) → Option ℕ
unfolding socket_eq
sendable_at from [] = none
sendable_at from ((addr, sendable) ∷ rest) =
    let further = sendable_at from rest >>= λ i. some (suc i) in
    if socket_eq addr from && sendable then some 0 else further

unfoldable pub move_to : SocketAddr → ℕ → Route → Option ℕ → Route × Option SocketAddr
move_to from now r none = (r, none)
move_to from now r (some index) = (
  record r { current = from; others = set r.others index (r.current, true); answered_at = now },
  some r.current,
)

unfoldable pub follow : SocketAddr → ℕ → ℕ → Route → Route × Option SocketAddr
unfolding sendable_at move_to
follow from after now r =
    if socket_eq from r.current || ltb (now - r.answered_at) after
    then (r, none)
    else move_to from now r (sendable_at from r.others)

-- The first entry for the address.
unfoldable pub mark : SocketAddr → Bool → List (SocketAddr × Bool) → List (SocketAddr × Bool)
unfolding socket_eq
mark addr sent [] = []
mark addr sent ((other, sendable) ∷ rest) =
    let marked = mark addr sent rest in
    if socket_eq other addr then (other, sent) ∷ rest else (other, sendable) ∷ marked

unfoldable pub note_send : SocketAddr → Bool → Route → Route
unfolding mark
note_send addr sent r = record r { others = mark addr sent r.others }
