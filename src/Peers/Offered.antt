-- ===== src/Peers/Offered.antt =====
-- What `get_sorted_candidates` offers.
use jamjam_client.Prelude.{
  ℕ, ◌≤◌, ◌≡◌, refl, ap, ap₂, sym, ◌∙◌, Bool, false, not, ◌&&◌, ◌||◌, Option, none, some, List, [],
  ◌∷◌, ◌++◌, Bool-cases, inl, inr, arith, ◌==◌, if◌then◌else◌,
}
use mathlib.Core.List.{append-nil, append_assoc}
use jamjam_client.Peers.Types.{SocketAddr, AddressCandidate, PeerInfo}
use jamjam_client.Peers.{
  socket_eq, has, is_unspecified, insert_by_priority, sort_by_priority, addresses, push_new,
  retain_specified, get_sorted_candidates,
}
use jamjam_client.Peers.Addresses.{socket_eq_path, socket_eq_refl, has-append}

-- Whether an optional address is this one.
abbrev pub is_at : SocketAddr → Option SocketAddr → Bool
is_at a none = false
is_at a (some b) = socket_eq a b

has-retain_specified :
    (a : SocketAddr) (xs : List SocketAddr)
    → has a (retain_specified xs) ≡ (has a xs && not (is_unspecified a.ip))
unfolding has retain_specified
has-retain_specified a [] = refl
has-retain_specified a (x ∷ xs) = elim (Bool-cases (socket_eq a x)) [
  | inl e ↦ ground (arith, socket_eq_path a x e, has-retain_specified a xs, socket_eq_refl x)
  | inr e ↦ ground (arith, has-retain_specified a xs)
]

has-push_new :
    (a : SocketAddr) (o : Option SocketAddr) (xs : List SocketAddr)
    → has a (push_new o xs) ≡ (has a xs || is_at a o)
unfolding has push_new
has-push_new a none xs = ground arith
has-push_new a (some b) xs = elim (Bool-cases (socket_eq a b)) [
  | inl e ↦ ground (arith, socket_eq_path a b e, has-append a xs (b ∷ []))
  | inr e ↦ ground (arith, has-append a xs (b ∷ []))
]

has-insert_by_priority :
    (a : SocketAddr) (c : AddressCandidate) (cs : List AddressCandidate)
    → has a (addresses (insert_by_priority c cs)) ≡ (socket_eq a c.address || has a (addresses cs))
unfolding has insert_by_priority
has-insert_by_priority a c [] = refl
has-insert_by_priority a c (d ∷ ds) = ground (arith, has-insert_by_priority a c ds)

has-sort_by_priority :
    (a : SocketAddr) (cs : List AddressCandidate)
    → has a (addresses (sort_by_priority cs)) ≡ has a (addresses cs)
unfolding has sort_by_priority
has-sort_by_priority a [] = refl
has-sort_by_priority a (c ∷ cs) =
    has-insert_by_priority a c (sort_by_priority cs)
    ∙ ap (λ b. socket_eq a c.address || b) (has-sort_by_priority a cs)

-- The priorities fall along the list.
abbrev Below : ℕ → List AddressCandidate → Type 0
Below k [] = Unit
Below k (c ∷ cs) = (c.priority ≤ k) × Below k cs

abbrev pub IsRanked : List AddressCandidate → Type 0
IsRanked [] = Unit
IsRanked (c ∷ cs) = Below c.priority cs × IsRanked cs

-- The candidates of one priority, in their order.
abbrev pub ranked_at : ℕ → List AddressCandidate → List AddressCandidate
ranked_at k [] = []
ranked_at k (c ∷ cs) = if c.priority == k then c ∷ ranked_at k cs else ranked_at k cs

Below-insert :
    (k : ℕ) (c : AddressCandidate) (cs : List AddressCandidate)
    → c.priority ≤ k
    → Below k cs
    → Below k (insert_by_priority c cs)
unfolding insert_by_priority
Below-insert k c [] h b = (h, tt)
Below-insert k c (d ∷ ds) h b = ground (arith, Below-insert k c ds)

Below-up : (k j : ℕ) (cs : List AddressCandidate) → k ≤ j → Below k cs → Below j cs
Below-up k j [] h b = tt
Below-up k j (c ∷ cs) h b = (omega arith, Below-up k j cs h b.1)

insert-IsRanked :
    (c : AddressCandidate) (cs : List AddressCandidate)
    → IsRanked cs
    → IsRanked (insert_by_priority c cs)
unfolding insert_by_priority
insert-IsRanked c [] r = (tt, tt)
insert-IsRanked c (d ∷ ds) r =
    ground
      (arith, insert-IsRanked c ds, Below-insert d.priority c ds, Below-up d.priority c.priority ds)

sort-IsRanked : (cs : List AddressCandidate) → IsRanked (sort_by_priority cs)
unfolding sort_by_priority
sort-IsRanked [] = tt
sort-IsRanked (c ∷ cs) = insert-IsRanked c (sort_by_priority cs) (sort-IsRanked cs)

ranked_at-insert :
    (k : ℕ) (c : AddressCandidate) (cs : List AddressCandidate)
    → ranked_at k (insert_by_priority c cs) ≡ ranked_at k (c ∷ cs)
unfolding insert_by_priority
ranked_at-insert k c [] = refl
ranked_at-insert k c (d ∷ ds) = ground (arith, ranked_at-insert k c ds)

ranked_at-sort :
    (k : ℕ) (cs : List AddressCandidate) → ranked_at k (sort_by_priority cs) ≡ ranked_at k cs
unfolding sort_by_priority
ranked_at-sort k [] = refl
ranked_at-sort k (c ∷ cs) =
    ranked_at-insert k c (sort_by_priority cs) ∙ ground (arith, ranked_at-sort k cs)

-- A legacy address, unless it is listed already.
abbrev pub unless_listed : Option SocketAddr → Bool → List SocketAddr
unless_listed none listed = []
unless_listed (some a) listed = if listed then [] else a ∷ []

abbrev pub is_among : Option SocketAddr → List SocketAddr → Bool
is_among none addrs = false
is_among (some a) addrs = has a addrs

abbrev pub is_same : Option SocketAddr → Option SocketAddr → Bool
is_same none o = false
is_same (some a) o = is_at a o

-- The public address, if no candidate has it, and the local one, if no candidate has it and it is not
-- the public one.
abbrev pub legacy : PeerInfo → List SocketAddr
legacy peer =
    unless_listed peer.public_addr (is_among peer.public_addr (addresses peer.candidates))
    ++ unless_listed peer.local_addr (
        is_among peer.local_addr (addresses peer.candidates)
        || is_same peer.local_addr peer.public_addr)

-- A list of addresses as an offer of a participant's.
pub record Offers (peer : PeerInfo) (addrs : List SocketAddr) : Type 0 where
  pub exact :
      (a : SocketAddr)
      → has a addrs ≡ (
          ((has a (addresses peer.candidates) || is_at a peer.public_addr)
            || is_at a peer.local_addr)
          && not (is_unspecified a.ip))
  pub ranked : List AddressCandidate
  pub is_ranked : IsRanked ranked
  pub stable : (k : ℕ) → ranked_at k ranked ≡ ranked_at k peer.candidates
  pub in_order : addrs ≡ retain_specified (addresses ranked) ++ retain_specified (legacy peer)

retain_specified-append :
    (xs ys : List SocketAddr)
    → retain_specified (xs ++ ys) ≡ retain_specified xs ++ retain_specified ys
unfolding retain_specified
retain_specified-append [] ys = refl
retain_specified-append (x ∷ xs) ys = ground (arith, retain_specified-append xs ys)

appended : Option SocketAddr → List SocketAddr → List SocketAddr
appended none xs = []
appended (some a) xs = if has a xs then [] else a ∷ []

push_new-appended :
    (o : Option SocketAddr) (xs : List SocketAddr) → push_new o xs ≡ xs ++ appended o xs
unfolding push_new appended
push_new-appended none xs = sym (append-nil xs)
push_new-appended (some a) xs = elim (Bool-cases (has a xs)) [
  | inl e ↦ rw e (sym (append-nil xs))
  | inr e ↦ rw e refl
]

legacy_of : PeerInfo → List SocketAddr → List SocketAddr
unfolding appended
legacy_of peer xs =
    appended peer.public_addr xs ++ appended peer.local_addr (push_new peer.public_addr xs)

appended-sorted :
    (o : Option SocketAddr) (cs : List AddressCandidate)
    → appended o (addresses (sort_by_priority cs)) ≡ unless_listed o (is_among o (addresses cs))
unfolding appended
appended-sorted none cs = refl
appended-sorted (some a) cs = rw (has-sort_by_priority a cs) refl

appended-pushed :
    (o p : Option SocketAddr) (cs : List AddressCandidate)
    → appended o (push_new p (addresses (sort_by_priority cs)))
      ≡ unless_listed o (is_among o (addresses cs) || is_same o p)
unfolding appended
appended-pushed none p cs = refl
appended-pushed (some a) p cs =
    rw (has-push_new a p (addresses (sort_by_priority cs)), has-sort_by_priority a cs) refl

legacy_of-legacy :
    (peer : PeerInfo) → legacy_of peer (addresses (sort_by_priority peer.candidates)) ≡ legacy peer
unfolding legacy_of
legacy_of-legacy peer =
    ap₂ (λ (xs ys : List SocketAddr). xs ++ ys) (appended-sorted peer.public_addr peer.candidates)
      (appended-pushed peer.local_addr peer.public_addr peer.candidates)

push_both :
    (peer : PeerInfo) (xs : List SocketAddr)
    → push_new peer.local_addr (push_new peer.public_addr xs) ≡ xs ++ legacy_of peer xs
unfolding legacy_of
push_both peer xs =
    push_new-appended peer.local_addr (push_new peer.public_addr xs)
    ∙ ap (λ l. l ++ appended peer.local_addr (push_new peer.public_addr xs))
        (push_new-appended peer.public_addr xs)
    ∙ append_assoc xs (appended peer.public_addr xs)
        (appended peer.local_addr (push_new peer.public_addr xs))

offered :
    (a : SocketAddr) (peer : PeerInfo)
    → has a (get_sorted_candidates peer) ≡ (
        ((has a (addresses peer.candidates) || is_at a peer.public_addr) || is_at a peer.local_addr)
        && not (is_unspecified a.ip))
unfolding get_sorted_candidates
offered a peer =
    rw
      (
        has-retain_specified a (
            push_new peer.local_addr
              (push_new peer.public_addr (addresses (sort_by_priority peer.candidates)))),
        has-push_new a peer.local_addr
            (push_new peer.public_addr (addresses (sort_by_priority peer.candidates))),
        has-push_new a peer.public_addr (addresses (sort_by_priority peer.candidates)),
        has-sort_by_priority a peer.candidates,
      )
      refl

-- The addresses a participant is tried on: exactly those of its candidates and of its two legacy
-- fields, less those that name no host. Those of the candidates come first, with falling priority,
-- and candidates of one priority in the order they were published. The public address follows, if no
-- candidate has it, and last the local one, if no candidate has it and it is not the public one.
pub get_sorted_candidates-Offers : (peer : PeerInfo) → Offers peer (get_sorted_candidates peer)
unfolding get_sorted_candidates
get_sorted_candidates-Offers peer = record {
  exact = λ a. offered a peer;
  ranked = sort_by_priority peer.candidates;
  is_ranked = sort-IsRanked peer.candidates;
  stable = λ k. ranked_at-sort k peer.candidates;
  in_order =
      ap retain_specified (push_both peer (addresses (sort_by_priority peer.candidates)))
      ∙ retain_specified-append (addresses (sort_by_priority peer.candidates))
          (legacy_of peer (addresses (sort_by_priority peer.candidates)))
      ∙ ap
          (λ (l : List SocketAddr).
            retain_specified (addresses (sort_by_priority peer.candidates)) ++ retain_specified l)
          (legacy_of-legacy peer);
}
