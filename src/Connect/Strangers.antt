-- ===== src/Connect/Strangers.antt =====
-- What a datagram from an address that is not the peer's can do.
use jamjam_client.Prelude.{
  ℕ, ◌+◌, ◌≡◌, refl, sym, ap, ap₂, subst, ◌∙◌, Bool, true, false, not, ◌&&◌, ◌||◌, Option, none,
  some, List, [], ◌∷◌, length, arith, if◌then◌else◌, by_if, ltb, suc, ◌-◌, ◌>>=◌,
}
use jamjam_client.Prelude.Members.{AllOf}
use jamjam_client.Packet.{Packet, PacketType, type_eq, header_size, keep_alive}
use jamjam_client.Link.{is_decided, open_packet}
use jamjam_client.Link.Types.{Opened}
use jamjam_client.Link.Libraries.{Crypto}
use jamjam_client.Peers.Types.{SocketAddr}
use jamjam_client.Peers.{socket_eq}
use jamjam_client.Connect.Types.{Route}
use jamjam_client.Connect.Routes.{among, knows, sendable_at, move_to, follow}
use jamjam_client.Connect.Receiving.{
  Effect, Receiver, Arrival, then_do, note_moved, follow_peer, answer_keys, act_on,
  receive_datagram, receive_loop,
}
use jamjam_client.Connect.Pings.{Estimator, slowest_recent}
use jamjam_client.Connect.States.{can_transmit, answer_wait}
use jamjam_client.Connect.Alike.{open_packet-Alike}
use jamjam_client.Connect.Kept.{
  Same, Kept, Same-refl, Same-trans, then_do-Kept, send_numbered-Kept, take_packet-Kept,
}

or_left : (p q : Bool) → (p || q) ≡ false → p ≡ false
or_left p q h = ground arith

or_right : (p q : Bool) → (p || q) ≡ false → q ≡ false
or_right p q h = ground arith

was_true : (b : Bool) → not b ≡ false → b ≡ true
was_true b h = ground arith

unknown_stays :
    (from : SocketAddr) (xs : List (SocketAddr × Bool))
    → among from xs ≡ false
    → sendable_at from xs ≡ none
unfolding among sendable_at
unknown_stays from [] h = refl
unknown_stays from ((addr, sendable) ∷ rest) h =
    ap (λ b. if b && sendable then some 0 else (sendable_at from rest >>= λ i. some (suc i)))
      (or_left (socket_eq addr from) (among from rest) h)
    ∙ ap (λ o. o >>= λ i. some (suc i))
        (unknown_stays from rest (or_right (socket_eq addr from) (among from rest) h))

-- A route does not follow an address that it does not know.
stranger_stays :
    (from : SocketAddr) (after now : ℕ) (route : Route)
    → knows route from ≡ false
    → follow from after now route ≡ (route, none)
unfolding follow knows move_to
stranger_stays from after now route h =
    let alone =
      unknown_stays from route.others
        (or_right (socket_eq from route.current) (among from route.others) h) in
    by_if (λ (x : Route × Option SocketAddr). x ≡ (route, none))
      (socket_eq from route.current || ltb (now - route.answered_at) after) (route, none)
      (move_to from now route (sendable_at from route.others)) (λ t. refl)
      (λ f. ap (move_to from now route) alone)

module _ {F : Type 0} where
  knows-Same :
      (addr : SocketAddr) (r r' : Receiver F)
      → Same r r'
      → knows r.route addr ≡ false
      → knows r'.route addr ≡ false
  unfolding knows
  knows-Same addr r r' s h = ap₂ (λ a xs. socket_eq addr a || among addr xs) s.current s.others ∙ h

  still_unknown :
      (r r' : Receiver F) (arrivals : List Arrival)
      → Same r r'
      → AllOf (λ a. knows r.route a.from ≡ false) arrivals
      → AllOf (λ a. knows r'.route a.from ≡ false) arrivals
  still_unknown r r' [] s h = tt
  still_unknown r r' (a ∷ as') s h = (knows-Same a.from r r' s h.0, still_unknown r r' as' s h.1)

module _ {F : Type 0} (c : Crypto) (e : Estimator F) where
  follow_peer-Same :
      (addr : SocketAddr) (now : ℕ) (r : Receiver F)
      → knows r.route addr ≡ false
      → Same r (follow_peer c e addr now r)
  unfolding follow_peer
  follow_peer-Same addr now r h =
      let same =
        stranger_stays addr
          (answer_wait r.reconnect_config (slowest_recent e now r.rtt_measurement)) now r.route h in
      subst (λ x. Same r (note_moved c e addr x r)) (sym same) (Same-refl r)

  answer_keys-Kept :
      (addr : SocketAddr) (answer : Bool) (r : Receiver F) → Kept r (answer_keys c e addr answer r)
  unfolding answer_keys
  answer_keys-Kept addr false r = Same-refl r
  answer_keys-Kept addr true r = send_numbered-Kept c e keep_alive addr r

  act_on-Kept :
      (addr : SocketAddr) (now wire_len : ℕ) (o : Opened) (r : Receiver F)
      → knows r.route addr ≡ false
      → Kept r (act_on c e false addr now wire_len o r)
  unfolding act_on
  act_on-Kept addr now wire_len (Opened.dropped reason) r h = Same-refl r
  act_on-Kept addr now wire_len (Opened.key_exchange answer) r h =
      Same-trans r (follow_peer c e addr now r) _ (follow_peer-Same addr now r h)
        (answer_keys-Kept addr answer (follow_peer c e addr now r))
  act_on-Kept addr now wire_len (Opened.packet p) r h =
      Same-trans r (follow_peer c e addr now r) _ (follow_peer-Same addr now r h)
        (take_packet-Kept c e addr now wire_len p (follow_peer c e addr now r))

  opened-Kept :
      (p : Packet) (addr : SocketAddr) (now : ℕ) (r : Receiver F)
      → knows r.route addr ≡ false
      → type_eq p.packet_type PacketType.control ≡ false
      → is_decided r.link.state ≡ true
      → Kept r (
          act_on c e false addr now
            (header_size + length p.payload)
            (open_packet c r.link p).1
            (record r { link = (open_packet c r.link p).0 }))
  opened-Kept p addr now r h t d =
      let r' : Receiver F = record r { link = (open_packet c r.link p).0 } in
      Same-trans r r' _
        (record { current = refl; others = refl; keys = open_packet-Alike c r.link p t d })
        (act_on-Kept addr now (header_size + length p.payload) (open_packet c r.link p).1 r' h)

  receive_datagram-Kept :
      (p : Packet) (addr : SocketAddr) (now : ℕ) (r : Receiver F)
      → knows r.route addr ≡ false
      → Kept r (receive_datagram c e p addr now r)
  unfolding receive_datagram
  receive_datagram-Kept p addr now r h =
      let shut : Bool = type_eq p.packet_type PacketType.control || not (is_decided r.link.state) in
      let act : Bool → Receiver F × List Effect = λ known.
        act_on c e known addr now (header_size + length p.payload) (open_packet c r.link p).1
          (record r { link = (open_packet c r.link p).0 }) in
      subst (λ known. Kept r (if not known && shut then (r, []) else act known)) (sym h)
        (by_if (Kept r) shut (r, []) (act false) (λ t. Same-refl r)
          (λ f.
            opened-Kept p addr now r h
              (or_left (type_eq p.packet_type PacketType.control) (not (is_decided r.link.state)) f)
              (was_true (is_decided r.link.state) (
                or_right (type_eq p.packet_type PacketType.control) (not (is_decided r.link.state))
                  f))))

  -- Datagrams from anywhere but the peer's addresses, as many as there are, of whatever kind and in
  -- whatever order, neither move the route, nor change the addresses the peer is known by, nor change
  -- or settle the keys: a link with no keys gets none and does not go plain, and a link with keys goes
  -- on with the same.
  pub receive_loop-Same :
      (arrivals : List Arrival) (r : Receiver F)
      → AllOf (λ a. knows r.route a.from ≡ false) arrivals
      → Same r (receive_loop c e arrivals r).0
  unfolding receive_loop
  receive_loop-Same [] r h = Same-refl r
  receive_loop-Same (a ∷ as') r h =
      let kept = receive_datagram-Kept a.packet a.from a.at r h.0 in
      let r' = (receive_datagram c e a.packet a.from a.at r).0 in
      by_if (Kept r) (not (can_transmit a.state)) (r, [])
        (then_do (receive_datagram c e a.packet a.from a.at r) (receive_loop c e as'))
        (λ t. Same-refl r)
        (λ f.
          then_do-Kept r (receive_datagram c e a.packet a.from a.at r) (receive_loop c e as') kept
            (receive_loop-Same as' r' (still_unknown r r' as' kept h.1)))
