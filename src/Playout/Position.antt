-- ===== src/Playout/Position.antt =====
-- What one read plays, and where the play position is then.
use jamjam_client.Prelude.{
  ℕ, ◌+◌, ◌%◌, ◌^◌, ◌<◌, ◌≡◌, refl, sym, subst, ap, ◌∙◌, inl, inr, ◌⊎◌, true, false, not, ◌&&◌,
  Option, none, some, List, arith, ◌==◌, by_if, get_elem?, take, min, set, replicate,
}
use jamjam_client.Playout.Types.{PlayoutResult, Slot, Plc, PlayoutBuffer}
use jamjam_client.Playout.Depth.{ready}
use jamjam_client.Playout.Freeing.{count_ready-set}
use jamjam_client.Playout.Ring.{holds, ready_frames, slot_for, holds_at, slot_sequence_none}
use jamjam_client.Playout.{quiet, conceal_due, play_slot, play_due, read_at, read_due}

module _ {A P : Type 0} (silent : A) (plc : Plc A P) where
  -- The result of a read at position `s`, for each of the three cases.
  pub record Plays (b : PlayoutBuffer A P) (out s : ℕ)
      (r : PlayoutBuffer A P × PlayoutResult × List A) : Type 0 where
    pub slot : Slot A
    pub held : get_elem? b.slots (slot_for b s) ≡ some slot
    pub in_turn : holds (some slot) s ≡ true
    pub result : r.1 ≡ PlayoutResult.played s
    pub samples : r.2 ≡ take out slot.samples
    pub one_less : ready r.0 + 1 ≡ ready b
    pub freed : r.0.slots ≡ set b.slots (slot_for b s) (slot_sequence_none slot)
    pub moves : r.0.play_sequence ≡ some ((s + 1) % 2 ^ 32)

  pub record Conceals (b : PlayoutBuffer A P) (out s : ℕ)
      (r : PlayoutBuffer A P × PlayoutResult × List A) : Type 0 where
    pub missing : holds_at b s ≡ false
    pub others : 0 < ready b
    pub result : r.1 ≡ PlayoutResult.concealed s
    pub samples : r.2 ≡ (plc.conceal_into b.concealment (min b.last_len out)).1
    pub same_slots : r.0.slots ≡ b.slots
    pub moves : r.0.play_sequence ≡ some ((s + 1) % 2 ^ 32)

  pub record Starves (b : PlayoutBuffer A P) (out s : ℕ)
      (r : PlayoutBuffer A P × PlayoutResult × List A) : Type 0 where
    pub empty : ready b ≡ 0
    pub result : r.1 ≡ PlayoutResult.starved
    pub missing : holds_at b s ≡ false
    pub silence : r.2 ≡ replicate (min b.last_len out) silent
    pub same_slots : r.0.slots ≡ b.slots
    pub stays : r.0.play_sequence ≡ b.play_sequence

  abbrev pub Turn : PlayoutBuffer A P → ℕ → ℕ → PlayoutBuffer A P × PlayoutResult × List A → Type 0
  Turn b out s r = Plays b out s r ⊎ (Conceals b out s r ⊎ Starves b out s r)

  conceal-Conceals :
      (b : PlayoutBuffer A P) (out s : ℕ)
      → holds_at b s ≡ false
      → 0 < ready b
      → Conceals b out s (conceal_due silent plc b out s)
  unfolding conceal_due
  conceal-Conceals b out s e h = record {
    missing = e;
    others = h;
    result = refl;
    samples = refl;
    same_slots = refl;
    moves = refl;
  }

  play-Turn :
      (b : PlayoutBuffer A P) (out s : ℕ) (o : Option (Slot A))
      → get_elem? b.slots (slot_for b s) ≡ o
      → (holds_at b s ≡ false → 0 < ready b)
      → Turn b out s (play_slot silent plc b out s o)
  unfolding play_slot holds_at ready_frames
  play-Turn b out s none e h =
      let missing = ap (λ (o : Option (Slot A)). holds o s) e in
      inr (inl (conceal-Conceals b out s missing (h missing)))
  play-Turn b out s (some slot) e h =
      by_if (Turn b out s) (holds (some slot) s) _ _
        (λ in_turn. inl (record {
          slot = slot;
          held = e;
          in_turn = in_turn;
          result = refl;
          samples = refl;
          one_less = count_ready-set b.slots (slot_for b s) slot s e in_turn;
          freed = refl;
          moves = refl;
        }))
        (λ other.
          let missing = ap (λ (o : Option (Slot A)). holds o s) e ∙ other in
          inr (inl (conceal-Conceals b out s missing (h missing))))

  read_at-Turn :
      (b : PlayoutBuffer A P) (out s : ℕ)
      → b.play_sequence ≡ some s
      → Turn b out s (read_at silent plc b out (some s))
  unfolding read_at quiet play_due ready_frames
  read_at-Turn b out s e =
      by_if (Turn b out s) (not (holds_at b s) && (ready_frames b == 0)) _ _
        (λ dry. inr (
          inr (record {
            empty = ground (arith, dry);
            result = refl;
            missing = ground (arith, dry);
            silence = refl;
            same_slots = refl;
            stays = refl;
          })))
        (λ some_held.
          play-Turn b out s (get_elem? b.slots (slot_for b s)) refl
            (λ missing. ground (arith, some_held, missing)))

  -- A read at position `s`, once the delay is settled, is one of three. The frame due is held: its
  -- samples are played, cut to the room there is, its slot and no other is freed and the position moves
  -- on. It is not, but others are: what the concealment gives for the length of the last frame, cut to
  -- the room there is, is played, nothing held is lost and the position moves on. Nothing is held: the
  -- output is silence of that length, and the position stays.
  pub read_due-Turn :
      (b : PlayoutBuffer A P) (out s : ℕ)
      → b.play_sequence ≡ some s
      → Turn b out s (read_due silent plc b out)
  unfolding read_due
  read_due-Turn b out s e =
      subst (λ (o : Option ℕ). Turn b out s (read_at silent plc b out o)) (sym e)
        (read_at-Turn b out s e)
