-- ===== src/Stun/Loop.antt =====
-- The loop over the attributes of an answer ends, whatever the answer says of their lengths.
use jamjam_client.Prelude.{ℕ, zero, suc, ◌+◌, ◌≤◌, ◌≡◌, refl, sym, inl, List, arith}
use jamjam_client.Stun.{StunFailed, read16, aligned, parse_attributes}

past_end :
    (k : ℕ) (bytes id : List ℕ) (end offset : ℕ)
    → end ≤ offset
    → parse_attributes k bytes id end offset ≡ inl StunFailed.no_mapped_address
unfolding parse_attributes
past_end zero bytes id end offset h = refl
past_end (suc k) bytes id end offset h = ground arith

-- The loop over the attributes gives the same with every fuel that is at least the number of bytes
-- left before its end, so the fuel that the parser gives it never cuts it short.
pub enough_fuel :
    (k l : ℕ) (bytes id : List ℕ) (end offset : ℕ)
    → end ≤ offset + k
    → end ≤ offset + l
    → parse_attributes k bytes id end offset ≡ parse_attributes l bytes id end offset
unfolding parse_attributes
enough_fuel zero l bytes id end offset h m = sym (past_end l bytes id end offset (omega arith))
enough_fuel (suc k) zero bytes id end offset h m =
    past_end (suc k) bytes id end offset (omega arith)
enough_fuel (suc k) (suc l) bytes id end offset h m =
    let after : ℕ = offset + (4 + aligned (read16 bytes (offset + 2))) in
    grind (arith, enough_fuel k l bytes id end after (omega arith) (omega arith))
