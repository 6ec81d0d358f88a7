-- ===== src/Tracker/Tests.antt =====
-- Runs of the tracker across the wrap-around of its numbers.
use jamjam_client.Prelude.{ℕ, ◌≡◌, refl, [], ◌∷◌, arith}
use jamjam_client.Prelude.Counters.{contains, maximum}
use jamjam_client.Tracker.{
  SequenceTracker, new, ahead, missed, by_diff, later, record_after, record_packet, was_received,
  reset,
}
use jamjam_client.Tracker.Positions.{seq_of, after}
use jamjam_client.Tracker.History.{Tracks, noted}
use jamjam_client.Tracker.Recording.{
  record_packet_first, record_packet-Tracks, was_received-contains,
}

abbrev last_number : ℕ
last_number = 4294967295

abbrev started : SequenceTracker
started = (record_packet new (seq_of last_number)).0

started-Tracks : Tracks started last_number (last_number ∷ [])
started-Tracks = record_packet_first last_number

record_packet-Tracks_example :
    ((record_packet started (seq_of 4294967298)).1 ≡ after (maximum (last_number ∷ [])) 2)
    × Tracks
        (record_packet started (seq_of 4294967298)).0
        last_number
        (noted (last_number ∷ []) 4294967298)
record_packet-Tracks_example =
    record_packet-Tracks started last_number (last_number ∷ []) 4294967298 started-Tracks
      (omega arith) (omega arith) (omega arith) (omega arith)

was_received-contains_example :
    was_received started (seq_of last_number) ≡ contains (last_number ∷ []) last_number
was_received-contains_example =
    was_received-contains started last_number (last_number ∷ []) last_number started-Tracks
      (omega arith) (omega arith)

wrapped_numbers : (record_packet started (seq_of 4294967298)).1 ≡ 0 ∷ 1 ∷ []
unfolding record_packet record_after later by_diff ahead missed
wrapped_numbers = refl

reset_starts_over : reset started ≡ new
unfolding record_packet record_after reset
reset_starts_over = refl
