-- ===== src/Connect/Heard.antt =====
-- What the connectivity check has heard, as a history of probes and datagrams.
use mathlib.Core.List.{append-nil, append_assoc}
use jamjam_client.Prelude.{
  ℕ, zero, suc, ◌-◌, ◌≡◌, refl, sym, ap, subst, ◌∙◌, ◌/◌, ◌%◌, ◌^◌, ◌++◌, Bool, true, false, not,
  ◌⊎◌, Option, none, some, List, [], ◌∷◌, get_or, set, arith, inl, inr, by_if, ◌>>=◌,
}
use jamjam_client.Packet.{from_bytes, route_probe_token}
use jamjam_client.Peers.Types.{SocketAddr}
use jamjam_client.Prelude.Members.{OneOf, first, later, OneOf_before}
use jamjam_client.Connect.Types.{Probing}
use jamjam_client.Connect.Probes.{
  position, is_probe_answer, cell, put, sent, since, count_reply, sendable, take_in, hear,
}

-- A write is read back, or leaves what is read as it was.
set_or {ℓ} :
    {A : Type ℓ} (xs : List A) (i j : ℕ) (v d : A)
    → (get_or (set xs i v) j d ≡ get_or xs j d) ⊎ ((get_or (set xs i v) j d ≡ v) × (i ≡ j))
set_or [] i j v d = inl refl
set_or (x ∷ xs) zero zero v d = inr (refl, refl)
set_or (x ∷ xs) zero (suc j) v d = inl refl
set_or (x ∷ xs) (suc i) zero v d = inl refl
set_or (x ∷ xs) (suc i) (suc j) v d = elim (set_or xs i j v d) [
  | inl e ↦ inl e
  | inr (e, f) ↦ inr (e, ap suc f)
]

put_or :
    (rows : List (List (Option ℕ))) (i r j k : ℕ) (v : Option ℕ)
    → (cell (put rows i r v) j k ≡ cell rows j k)
      ⊎ ((cell (put rows i r v) j k ≡ v) × (i ≡ j) × (r ≡ k))
put_or rows i r j k v = elim (set_or rows i j (set (get_or rows i []) r v) []) [
  | inl e ↦ inl (ap (λ row. get_or row k none) e)
  | inr (e, f) ↦ elim (set_or (get_or rows i []) r k v none) [
    | inl g ↦ inl (ap (λ row. get_or row k none) e ∙ g ∙ ap (λ n. cell rows n k) f)
    | inr (g, h) ↦ inr (ap (λ row. get_or row k none) e ∙ g, f, h)
  ]
]

-- What the check does while it runs: a probe that went out, or a datagram that came in.
pub data ProbeEvent : Type 0 where
  sends : ℕ → ℕ → ℕ → ProbeEvent
  hears : SocketAddr → List ℕ → ℕ → ProbeEvent

unfoldable pub probing_step : Probing → ProbeEvent → Probing
probing_step p (sends index round at) = sent index round at p
probing_step p (hears from bytes now) = (hear from bytes now p).0

unfoldable pub probing_run : Probing → List ProbeEvent → Probing
unfolding probing_step
probing_run p [] = p
probing_run p (e ∷ es) = probing_run (probing_step p e) es

-- Among the events, the latest last, a probe of this candidate and round went out, and later a datagram
-- came from the candidate that is a reply to that probe.
pub record IsAnswer (candidates : List SocketAddr) (es : List ProbeEvent) (index round took : ℕ)
    : Type 0 where
  pub earlier : List ProbeEvent
  pub later_on : List ProbeEvent
  pub from : SocketAddr
  pub bytes : List ℕ
  pub at : ℕ
  pub token : ℕ
  pub sent_then : ℕ
  pub in_order : es ≡ earlier ++ hears from bytes at ∷ later_on
  pub went_out : OneOf (sends index round sent_then) earlier
  pub from_it : position from candidates ≡ some index
  pub is_reply : (from_bytes bytes >>= λ packet. route_probe_token packet) ≡ some (true, token)
  pub of_index : token % 2 ^ 16 ≡ index
  pub of_round : token / 2 ^ 16 ≡ round
  pub in_time : took ≡ at - sent_then

-- What is written down is what happened.
pub record IsSound (candidates : List SocketAddr) (es : List ProbeEvent) (p : Probing)
    : Type 0 where
  pub same_candidates : p.candidates ≡ candidates
  pub sent_out : (i r t : ℕ) → cell p.sent_at i r ≡ some t → OneOf (sends i r t) es
  pub answered : (i r t : ℕ) → cell p.rtt i r ≡ some t → IsAnswer candidates es i r t

OneOf_last {ℓ} : {A : Type ℓ} (xs : List A) (x : A) → OneOf x (xs ++ x ∷ [])
OneOf_last [] x = first
OneOf_last (y ∷ xs) x = later (OneOf_last xs x)

module _ (candidates : List SocketAddr) where
  longer :
      (es : List ProbeEvent) (e : ProbeEvent) {i r t : ℕ}
      → IsAnswer candidates es i r t
      → IsAnswer candidates (es ++ e ∷ []) i r t
  longer es e a = record {
    earlier = a.earlier;
    later_on = a.later_on ++ e ∷ [];
    from = a.from;
    bytes = a.bytes;
    at = a.at;
    token = a.token;
    sent_then = a.sent_then;
    in_order =
        ap (λ (l : List ProbeEvent). l ++ e ∷ []) a.in_order
        ∙ append_assoc a.earlier (hears a.from a.bytes a.at ∷ a.later_on) (e ∷ []);
    went_out = a.went_out;
    from_it = a.from_it;
    is_reply = a.is_reply;
    of_index = a.of_index;
    of_round = a.of_round;
    in_time = a.in_time;
  }

  IsSound-longer :
      (es : List ProbeEvent) (e : ProbeEvent) (p : Probing)
      → IsSound candidates es p
      → IsSound candidates (es ++ e ∷ []) p
  IsSound-longer es e p v = record {
    same_candidates = v.same_candidates;
    sent_out = λ i r t h. OneOf_before (e ∷ []) (v.sent_out i r t h);
    answered = λ i r t h. longer es e (v.answered i r t h);
  }

  sent-IsSound :
      (es : List ProbeEvent) (i r at : ℕ) (p : Probing)
      → IsSound candidates es p
      → IsSound candidates (es ++ sends i r at ∷ []) (sent i r at p)
  unfolding sent
  sent-IsSound es i r at p v = record {
    same_candidates = v.same_candidates;
    sent_out = λ j k t h. elim (put_or p.sent_at i r j k (some at)) [
      | inl e ↦ OneOf_before (sends i r at ∷ []) (v.sent_out j k t (sym e ∙ h))
      | inr (e, f, g) ↦
          let same : sends i r at ≡ sends j k t = cc in
          subst (λ (x : ProbeEvent). OneOf x (es ++ sends i r at ∷ [])) same
            (OneOf_last es (sends i r at))
    ];
    answered = λ j k t h. longer es (sends i r at) (v.answered j k t h);
  }

  since_some :
      (now t : ℕ) (o : Option ℕ) → since now o ≡ some t → (s : ℕ) × (o ≡ some s) × (t ≡ now - s)
  since_some now t none h = cc
  since_some now t (some s) h = (s, refl, cc)

  module _ (es : List ProbeEvent) (from : SocketAddr) (bytes : List ℕ) (now : ℕ) where
    abbrev Heard : Probing → Type 0
    Heard = IsSound candidates (es ++ hears from bytes now ∷ [])

    timed-Heard :
        (i token : ℕ) (p : Probing)
        → IsSound candidates es p
        → position from candidates ≡ some i
        → (from_bytes bytes >>= λ packet. route_probe_token packet) ≡ some (true, token)
        → token % 2 ^ 16 ≡ i
        → Heard (record p {
          rtt = put p.rtt i (token / 2 ^ 16) (since now (cell p.sent_at i (token / 2 ^ 16)));
        })
    timed-Heard i token p v at_i reply of_i =
        let r = token / 2 ^ 16 in
        let took = since now (cell p.sent_at i r) in
        record {
          same_candidates = v.same_candidates;
          sent_out = λ j k t h. OneOf_before (hears from bytes now ∷ []) (v.sent_out j k t h);
          answered = λ j k t h. elim (put_or p.rtt i r j k took) [
            | inl e ↦ longer es (hears from bytes now) (v.answered j k t (sym e ∙ h))
            | inr (e, f, g) ↦
                let was = since_some now t (cell p.sent_at i r) (sym e ∙ h) in
                record {
                  earlier = es;
                  later_on = [];
                  from = from;
                  bytes = bytes;
                  at = now;
                  token = token;
                  sent_then = was.0;
                  in_order = refl;
                  went_out =
                      subst (λ (n : ℕ). OneOf (sends n k was.0) es) f
                        (subst (λ (n : ℕ). OneOf (sends i n was.0) es) g
                          (v.sent_out i r was.0 was.1));
                  from_it = at_i ∙ ap some f;
                  is_reply = reply;
                  of_index = of_i ∙ f;
                  of_round = g;
                  in_time = was.2;
                }
          ];
        }

    count_reply-Heard :
        (i token : ℕ) (p : Probing)
        → IsSound candidates es p
        → position from candidates ≡ some i
        → (from_bytes bytes >>= λ packet. route_probe_token packet) ≡ some (true, token)
        → Heard (count_reply i token now p)
    unfolding count_reply
    count_reply-Heard i token p v at_i reply =
        by_if Heard _ _ p (λ h. timed-Heard i token p v at_i reply (ground (arith, h)))
          (λ h. IsSound-longer es (hears from bytes now) p v)

    take_in-Heard :
        (p : Probing) (o : Option ℕ) (t : Option (Bool × ℕ))
        → IsSound candidates es p
        → position from candidates ≡ o
        → (from_bytes bytes >>= λ packet. route_probe_token packet) ≡ t
        → Heard (take_in now p o t).0
    unfolding take_in
    take_in-Heard p none t v e f = IsSound-longer es (hears from bytes now) p v
    take_in-Heard p (some i) none v e f = IsSound-longer es (hears from bytes now) p v
    take_in-Heard p (some i) (some (false, token)) v e f =
        IsSound-longer es (hears from bytes now) p v
    take_in-Heard p (some i) (some (true, token)) v e f = count_reply-Heard i token p v e f

    hear-Heard : (p : Probing) → IsSound candidates es p → Heard (hear from bytes now p).0
    unfolding hear
    hear-Heard p v =
        by_if (λ (x : Probing × Option ℕ). Heard x.0)
          (not (is_probe_answer p.candidates (sendable p) from bytes)) (p, none)
          (take_in now p (position from p.candidates)
            (from_bytes bytes >>= λ packet. route_probe_token packet))
          (λ t. IsSound-longer es (hears from bytes now) p v)
          (λ f.
            take_in-Heard p (position from p.candidates) _ v
              (ap (position from) (sym v.same_candidates)) refl)

  pub run_IsSound :
      (past es : List ProbeEvent) (p : Probing)
      → IsSound candidates past p
      → IsSound candidates (past ++ es) (probing_run p es)
  unfolding probing_run
  run_IsSound past [] p v =
      subst (λ (l : List ProbeEvent). IsSound candidates l p) (sym (append-nil past)) v
  run_IsSound past (sends i r at ∷ es) p v =
      subst (λ (l : List ProbeEvent). IsSound candidates l (probing_run (sent i r at p) es))
        (append_assoc past (sends i r at ∷ []) es)
        (run_IsSound (past ++ sends i r at ∷ []) es (sent i r at p) (sent-IsSound past i r at p v))
  run_IsSound past (hears from bytes now ∷ es) p v =
      subst
        (λ (l : List ProbeEvent). IsSound candidates l (probing_run (hear from bytes now p).0 es))
        (append_assoc past (hears from bytes now ∷ []) es)
        (run_IsSound (past ++ hears from bytes now ∷ []) es (hear from bytes now p).0
          (hear-Heard past from bytes now p v))
