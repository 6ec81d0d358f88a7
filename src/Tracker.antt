-- ===== src/Tracker.antt =====
-- src/network/sequence_tracker.rs: which packets of a stream arrived, and how many were lost.
pub mod Positions
pub mod Gaps
pub mod History
pub mod Branches
pub mod Recording
mod Tests
use jamjam_client.Prelude.{
  ℕ, zero, suc, ◌+◌, ◌-◌, ◌*◌, ◌%◌, ◌^◌, bit_and, bit_or, Bool, true, false, not, Option, none,
  some, List, [], ◌∷◌, ltb, leb, ◌==◌, if◌then◌else◌, length,
}
use jamjam_client.Prelude.Int.{ℤ, pos, negsuc, wrapping_diff}

-- `last_sequence` and `highest_sequence` are `u32`, the counters and the bitmap `u64`.
pub record SequenceTracker : Type 0 where
  pub last_sequence : Option ℕ
  pub highest_sequence : ℕ
  pub received_bitmap : ℕ
  pub packets_received : ℕ
  pub packets_lost : ℕ
  pub window_size : ℕ

abbrev pub new : SequenceTracker
new = record {
  last_sequence = none;
  highest_sequence = 0;
  received_bitmap = 0;
  packets_received = 0;
  packets_lost = 0;
  window_size = 64;
}

abbrev pub sequence_diff : ℕ → ℕ → ℤ
sequence_diff a b = wrapping_diff a b

-- The numbers after `highest`, `count` of them, in order.
pub missed : ℕ → ℕ → List ℕ
missed highest zero = []
missed highest (suc count) = ((highest + 1) % 2 ^ 32) ∷ missed ((highest + 1) % 2 ^ 32) count

-- `bitmap <<= diff` if it is below 64, and 0 otherwise; then `|= 1`.
abbrev pub shift_in : ℕ → ℕ → ℕ
shift_in bitmap diff = bit_or (if ltb diff 64 then bitmap * 2 ^ diff % 2 ^ 64 else 0) 1

-- The branch of `diff > 0`.
pub ahead : SequenceTracker → ℕ → ℕ → SequenceTracker × List ℕ
ahead t sequence diff =
    if leb diff t.window_size
    then (let lost = missed t.highest_sequence (diff - 1) in
        (
          record t {
            packets_lost = (t.packets_lost + length lost) % 2 ^ 64;
            received_bitmap = shift_in t.received_bitmap diff;
            highest_sequence = sequence;
          },
          lost,
        ))
    else (record t { received_bitmap = 1; highest_sequence = sequence }, [])

-- The branch of `diff < 0`, with `offset = -diff`. What `retain` is called on is empty here.
pub behind : SequenceTracker → ℕ → SequenceTracker
behind t offset =
    if ltb offset t.window_size
    then (if ltb offset 64
        then (if bit_and t.received_bitmap (2 ^ offset) == 0
            then record t {
              received_bitmap = bit_or t.received_bitmap (2 ^ offset);
              packets_lost = if ltb 0 t.packets_lost then t.packets_lost - 1 else t.packets_lost;
            }
            else t)
        else t)
    else t

-- The branches of `diff > 0` and `diff < 0`, and the one of neither.
pub by_diff : SequenceTracker → ℕ → ℤ → SequenceTracker × List ℕ
by_diff t sequence (pos n) = if ltb 0 n then ahead t sequence n else (t, [])
by_diff t sequence (negsuc n) = (behind t (n + 1), [])

pub later : SequenceTracker → ℕ → SequenceTracker × List ℕ
later t sequence = by_diff t sequence (sequence_diff sequence t.highest_sequence)

-- `record`, of the last number, with the packet counted.
pub record_after : Option ℕ → SequenceTracker → ℕ → SequenceTracker × List ℕ
record_after none t sequence = (
  record t { last_sequence = some sequence; highest_sequence = sequence; received_bitmap = 1 },
  [],
)
record_after (some _) t sequence =
    let (t', lost) = later t sequence in (record t' { last_sequence = some sequence }, lost)

pub record_packet : SequenceTracker → ℕ → SequenceTracker × List ℕ
record_packet t sequence =
    record_after t.last_sequence (record t { packets_received = (t.packets_received + 1) % 2 ^ 64 })
      sequence

-- `was_received`, of the difference from the newest number.
pub seen_at : SequenceTracker → ℤ → Bool
seen_at t (pos n) = if ltb n 64 then not (bit_and t.received_bitmap (2 ^ n) == 0) else false
seen_at t (negsuc n) = false

pub was_received : SequenceTracker → ℕ → Bool
was_received t sequence = seen_at t (sequence_diff t.highest_sequence sequence)

pub reset : SequenceTracker → SequenceTracker
reset t = record t {
  last_sequence = none;
  highest_sequence = 0;
  received_bitmap = 0;
  packets_received = 0;
  packets_lost = 0;
}
