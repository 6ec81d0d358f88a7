-- ===== src/Link/Replay.antt =====
-- src/network/encryption.rs, `ReplayWindow`: which counters a link has accepted.
pub mod History
mod Tests
use jamjam_client.Prelude.{
  ℕ, ◌+◌, ◌-◌, ◌*◌, ◌%◌, ◌^◌, bit_and, bit_or, Bool, true, false, not, ◌&&◌, ◌||◌, ltb, leb, ◌==◌,
  if◌then◌else◌,
}

abbrev pub replay_window : ℕ
replay_window = 128

-- `seen` is a `u128`: digit `n` is set when the counter `newest - n` has been accepted.
pub record ReplayWindow : Type 0 where
  pub started : Bool
  pub newest : ℕ
  pub seen : ℕ

abbrev pub default : ReplayWindow
default = record { started = false; newest = 0; seen = 0 }

-- `1u128 << n`; the shift amount is taken mod 128, as it is where overflow is not checked.
abbrev pub one_shl : ℕ → ℕ
one_shl n = 2 ^ (n % 128)

-- `seen << n` for `n` below 128.
abbrev pub shl : ℕ → ℕ → ℕ
shl x n = x * 2 ^ n % 2 ^ 128

pub is_new : ReplayWindow → ℕ → Bool
is_new w counter =
    if not w.started || ltb w.newest counter
    then true
    else let behind = w.newest - counter in
      ltb behind replay_window && (bit_and w.seen (one_shl behind) == 0)

pub accept : ReplayWindow → ℕ → ReplayWindow
accept w counter =
    if not w.started
    then record { started = true; newest = counter; seen = 1 }
    else if ltb w.newest counter
    then (let ahead = counter - w.newest in
        record w {
          seen = if leb replay_window ahead then 1 else bit_or (shl w.seen ahead) 1;
          newest = counter;
        })
    else record w { seen = bit_or w.seen (one_shl (w.newest - counter)) }
