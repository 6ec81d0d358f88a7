-- ===== src/Channels.antt =====
-- src/audio/channels.rs: which channels of an audio interface are read and written. A sample is of
-- any type; mixing two of them is an operation that is given.
pub mod Smallest
mod Tests
use jamjam_client.Prelude.{
  ℕ, suc, zero, ◌+◌, ◌-◌, max, min, Bool, true, false, not, ◌&&◌, ◌||◌, Option, none, some, List,
  [], ◌∷◌, ◌++◌, map, leb, ◌==◌, if◌then◌else◌, unwrap_or, get_or, set, length, take, drop,
  replicate,
}

unfoldable pub index : ℕ → ℕ
index setting = max setting 1 - 1

abbrev pub map_index : Option ℕ → Option ℕ
map_index none = none
map_index (some x) = some (max x 1 - 1)

-- The match of `capture_picks`, of channels counted from 0.
abbrev pub picks_of : ℕ → Option ℕ → ℕ → List ℕ
picks_of left none wanted = left ∷ []
picks_of left (some right) wanted =
    if leb 2 wanted && not (right == left) then left ∷ right ∷ [] else left ∷ []

unfoldable pub capture_picks : ℕ → Option ℕ → ℕ → List ℕ
unfolding index
capture_picks left right wanted = picks_of (index left) (map_index right) wanted

-- `==` of lists of channels.
abbrev pub channels_eq : List ℕ → List ℕ → Bool
channels_eq [] [] = true
channels_eq (x ∷ xs) (y ∷ ys) = (x == y) && channels_eq xs ys
channels_eq _ _ = false

abbrev pub has_attempt : List (List ℕ) → List ℕ → Bool
has_attempt [] attempt = false
has_attempt (x ∷ xs) attempt = channels_eq x attempt || has_attempt xs attempt

-- The loop over the fallbacks.
abbrev pub push_missing : List (List ℕ) → List (List ℕ) → List (List ℕ)
push_missing attempts [] = attempts
push_missing attempts (fallback ∷ fallbacks) =
    push_missing (if has_attempt attempts fallback then attempts else attempts ++ fallback ∷ [])
      fallbacks

unfoldable pub capture_attempts : ℕ → Option ℕ → ℕ → List (List ℕ)
unfolding capture_picks
capture_attempts left right wanted =
    push_missing (capture_picks left right wanted ∷ [])
      (if leb 2 wanted then (0 ∷ 1 ∷ []) ∷ (0 ∷ []) ∷ [] else (0 ∷ []) ∷ [])

pub record OutputRoute : Type 0 where
  pub left : ℕ
  pub right : Option ℕ

unfoldable pub from_settings : ℕ → Option ℕ → OutputRoute
unfolding index
from_settings left right = record { left = index left; right = map_index right }

unfoldable pub channels_needed : OutputRoute → ℕ
channels_needed route = max route.left (unwrap_or route.right 0) + 1

-- The counts that hold `needed` channels, and the least of a list.
abbrev pub holding : ℕ → List ℕ → List ℕ
holding needed [] = []
holding needed (count ∷ counts) =
    if leb needed count then count ∷ holding needed counts else holding needed counts

abbrev pub lesser : ℕ → Option ℕ → Option ℕ
lesser x none = some x
lesser x (some y) = some (min x y)

abbrev pub least : List ℕ → Option ℕ
least [] = none
least (x ∷ xs) = lesser x (least xs)

unfoldable pub smallest_channel_count : List ℕ → ℕ → Option ℕ
smallest_channel_count offered needed = least (holding needed offered)
