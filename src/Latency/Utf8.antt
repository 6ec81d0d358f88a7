-- ===== src/Latency/Utf8.antt =====
-- `String::from_utf8` as a test: the well-formed byte sequences of UTF-8.
use jamjam_client.Prelude.{
  ℕ, zero, suc, Bool, true, false, ◌&&◌, ◌||◌, List, [], ◌∷◌, ltb, leb, ◌==◌, if◌then◌else◌,
}

abbrev within : ℕ → ℕ → ℕ → Bool
within lo hi b = leb lo b && leb b hi

-- What may follow a lead byte: how many bytes, and the range of the first of them.
pub record Lead : Type 0 where
  pub follow : ℕ
  pub low : ℕ
  pub high : ℕ

abbrev lead_of : ℕ → Lead
lead_of b =
    if within 0xc2 0xdf b
    then record { follow = 1; low = 0x80; high = 0xbf }
    else if b == 0xe0
    then record { follow = 2; low = 0xa0; high = 0xbf }
    else if b == 0xed
    then record { follow = 2; low = 0x80; high = 0x9f }
    else if within 0xe1 0xef b
    then record { follow = 2; low = 0x80; high = 0xbf }
    else if b == 0xf0
    then record { follow = 3; low = 0x90; high = 0xbf }
    else if within 0xf1 0xf3 b
    then record { follow = 3; low = 0x80; high = 0xbf }
    else if b == 0xf4
    then record { follow = 3; low = 0x80; high = 0x8f }
    else record { follow = 0; low = 0; high = 0 }

-- `need` more bytes of the character are due, the next from `low` to `high`.
utf8_from : ℕ → ℕ → ℕ → List ℕ → Bool
utf8_from zero low high [] = true
utf8_from (suc need) low high [] = false
utf8_from (suc need) low high (b ∷ bs) = within low high b && utf8_from need 0x80 0xbf bs
utf8_from zero low high (b ∷ bs) =
    let l : Lead = if ltb b 0x80 then record { follow = 0; low = 0; high = 0 } else lead_of b in
    (ltb b 0x80 || ltb 0 l.follow) && utf8_from l.follow l.low l.high bs

unfoldable pub is_utf8 : List ℕ → Bool
unfolding utf8_from
is_utf8 bytes = utf8_from 0 0 0 bytes
