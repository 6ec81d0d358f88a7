-- ===== src/Connect/Watching.antt =====
-- What becomes of a link that is watched.
use jamjam_client.Prelude.{
  ℕ, ◌*◌, ◌≤◌, ◌<◌, ◌≡◌, refl, ap, sym, ◌∙◌, Bool, true, false, ◌||◌, none, List, [], ◌∷◌, leb,
  arith, if◌then◌else◌, Bool-cases, inl, inr,
}
use jamjam_client.Prelude.Members.{AllOf}
use jamjam_client.Peers.Types.{SocketAddr}
use jamjam_client.Connect.Types.{ConnectionState, ReconnectConfig}
use jamjam_client.Connect.States.{validated, state_byte}
use jamjam_client.Connect.Monitor.{Watched, is_over, next_state, turn_to, tick, go_on, watch}

-- Whether a silence was ever long enough to give up, and whether the last one was long enough to count
-- as a loss.
abbrev pub gave_up : ReconnectConfig → List ℕ → Bool
gave_up c [] = false
gave_up c (silence ∷ later) = leb c.give_up_after silence || gave_up c later

abbrev pub is_down : ReconnectConfig → Bool → List ℕ → Bool
is_down c down [] = down
is_down c down (silence ∷ later) = is_down c (leb c.detect_after silence) later

abbrev pub state_of : Bool → ConnectionState
state_of true = ConnectionState.reconnecting
state_of false = ConnectionState.connected

tick_gives_up :
    (c : ReconnectConfig) (silence : ℕ) (addr : SocketAddr) (w : Watched) (down : Bool)
    → w.state ≡ state_of down
    → leb c.give_up_after silence ≡ true
    → ((tick c silence addr w).1 ≡ false)
      × ((tick c silence addr w).0.state ≡ ConnectionState.failed)
unfolding tick state_byte
tick_gives_up c silence addr w down e g = ground arith

tick_judges :
    (c : ReconnectConfig) (silence : ℕ) (addr : SocketAddr) (w : Watched) (down : Bool)
    → w.state ≡ state_of down
    → leb c.give_up_after silence ≡ false
    → ((tick c silence addr w).1 ≡ true)
      × ((tick c silence addr w).0.state ≡ state_of (leb c.detect_after silence))
unfolding tick state_byte
tick_judges c silence addr w down e g = ground arith

goes_on_after :
    (x : Watched × Bool) (rest : Watched → Watched) → x.1 ≡ true → go_on x rest ≡ rest x.0
unfolding go_on
goes_on_after (w, true) rest e = refl
goes_on_after (w, false) rest e = absurd (cc)

stops_after : (x : Watched × Bool) (rest : Watched → Watched) → x.1 ≡ false → go_on x rest ≡ x.0
unfolding go_on
stops_after (w, true) rest e = absurd (cc)
stops_after (w, false) rest e = refl

watch_given_up :
    (c : ReconnectConfig) (addr : SocketAddr) (silence : ℕ) (later : List ℕ) (w : Watched)
    (down : Bool)
    → w.state ≡ state_of down
    → leb c.give_up_after silence ≡ true
    → (watch c addr (silence ∷ later) w).state ≡ ConnectionState.failed
unfolding watch
watch_given_up c addr silence later w down e g =
    let gone = tick_gives_up c silence addr w down e g in
    ap (λ (x : Watched). x.state) (stops_after (tick c silence addr w) (watch c addr later) gone.0)
    ∙ gone.1

watch_onward :
    (c : ReconnectConfig) (addr : SocketAddr) (silence : ℕ) (later : List ℕ) (w : Watched)
    → (tick c silence addr w).1 ≡ true
    → watch c addr (silence ∷ later) w ≡ watch c addr later (tick c silence addr w).0
unfolding watch
watch_onward c addr silence later w t = goes_on_after (tick c silence addr w) (watch c addr later) t

-- The state that a watched link ends in depends only on how long it was silent at each tick: it has
-- failed if any silence was long enough to give up, and otherwise is reconnecting or connected by
-- whether the last silence was long enough to count as a loss.
pub watch_judges :
    (c : ReconnectConfig) (addr : SocketAddr) (silences : List ℕ) (w : Watched) (down : Bool)
    → w.state ≡ state_of down
    → (watch c addr silences w).state
      ≡ (if gave_up c silences then ConnectionState.failed else state_of (is_down c down silences))
unfolding watch
watch_judges c addr [] w down e = e
watch_judges c addr (silence ∷ later) w down e = elim (Bool-cases (leb c.give_up_after silence)) [
  | inl g ↦
      watch_given_up c addr silence later w down e g
      ∙ ap
          (λ b.
            if b || gave_up c later
            then ConnectionState.failed
            else state_of (is_down c (leb c.detect_after silence) later))
          (sym g)
  | inr g ↦
      let on = tick_judges c silence addr w down e g in
      ap (λ (x : Watched). x.state) (watch_onward c addr silence later w on.0)
      ∙ watch_judges c addr later (tick c silence addr w).0 (leb c.detect_after silence) on.1
      ∙ ap
          (λ b.
            if b || gave_up c later
            then ConnectionState.failed
            else state_of (is_down c (leb c.detect_after silence) later))
          (sym g)
]

validated_margin :
    (c : ReconnectConfig)
    → ((validated c).keep_alive_interval * 2 ≤ (validated c).detect_after)
      × ((validated c).detect_after ≤ (validated c).give_up_after)
unfolding validated
validated_margin c = ground arith

tick_quiet :
    (c : ReconnectConfig) (silence : ℕ) (addr : SocketAddr) (w : Watched)
    → w.state ≡ ConnectionState.connected
    → silence < c.detect_after
    → c.detect_after ≤ c.give_up_after
    → tick c silence addr w ≡ (w, true)
unfolding tick state_byte
tick_quiet c silence addr w e h k =
    let g : leb c.give_up_after silence ≡ false = ground arith in
    let d : leb c.detect_after silence ≡ false = ground arith in
    let open_still : is_over w.state ≡ false = ap is_over e in
    let nothing : next_state c w.state silence ≡ none =
      ap (λ s. next_state c s silence) e ∙ rw (g, d) refl in
    ap (λ b. if b then (w, false) else turn_to (next_state c w.state silence) silence addr w)
      open_still
    ∙ ap (λ o. turn_to o silence addr w) nothing

watch_quiet :
    (c : ReconnectConfig) (addr : SocketAddr) (silences : List ℕ) (w : Watched)
    → w.state ≡ ConnectionState.connected
    → c.detect_after ≤ c.give_up_after
    → AllOf (λ silence. silence < c.detect_after) silences
    → watch c addr silences w ≡ w
unfolding watch
watch_quiet c addr [] w e k h = refl
watch_quiet c addr (silence ∷ later) w e k h =
    let same = tick_quiet c silence addr w e h.0 k in
    ap (λ x. go_on x (watch c addr later)) same ∙ watch_quiet c addr later w e k h.1

shorter : (a b : ℕ) (xs : List ℕ) → a ≤ b → AllOf (λ x. x < a) xs → AllOf (λ x. x < b) xs
shorter a b [] h k = tt
shorter a b (x ∷ xs) h k = (omega arith, shorter a b xs h k.1)

-- Whatever thresholds are asked for, once they are validated a connected link that is heard from before
-- two keep-alive intervals have passed is left alone: its state does not change, nothing is reported,
-- and neither error correction nor the count of lost packets starts over.
pub watch-validated :
    (c : ReconnectConfig) (addr : SocketAddr) (silences : List ℕ) (w : Watched)
    → w.state ≡ ConnectionState.connected
    → AllOf (λ silence. silence < (validated c).keep_alive_interval * 2) silences
    → watch (validated c) addr silences w ≡ w
watch-validated c addr silences w e h =
    let margin = validated_margin c in
    watch_quiet (validated c) addr silences w e margin.1 (
      shorter ((validated c).keep_alive_interval * 2) (validated c).detect_after silences margin.0
        h)
