-- ===== src/Link/Exchange.antt =====
-- src/network/encryption.rs: the halves of a key exchange, and the keys that come of two of them.
use jamjam_client.Prelude.{
  ℕ, ◌+◌, Bool, true, false, not, ◌&&◌, ◌||◌, Option, none, some, List, [], ◌∷◌, ◌++◌, ltb, ◌==◌,
  if◌then◌else◌, then_some, ◌>>=◌, length, get_or, take, drop,
}
use jamjam_client.Link.Types.{Keys, PeerCheck}
use jamjam_client.Link.Libraries.{Crypto}
use jamjam_client.Link.Replay.{default}

abbrev pub key_exchange : ℕ
key_exchange = 0x01

abbrev pub suite : ℕ
suite = 0x01

abbrev pub signed_suite : ℕ
signed_suite = 0x02

abbrev pub key_exchange_len : ℕ
key_exchange_len = 2 + 32

abbrev pub signature_len : ℕ
signature_len = 64

-- `b"jamjam-link-key-exchange-v1:"`
abbrev signature_domain : List ℕ
signature_domain =
    106 ∷ 97 ∷ 109 ∷ 106 ∷ 97 ∷ 109 ∷ 45 ∷ 108 ∷ 105 ∷ 110 ∷ 107 ∷ 45 ∷ 107 ∷ 101 ∷ 121 ∷ 45 ∷ 101
    ∷ 120 ∷ 99 ∷ 104 ∷ 97 ∷ 110 ∷ 103 ∷ 101 ∷ 45 ∷ 118 ∷ 49 ∷ 58 ∷ []

-- `b"jamjam-link-key-exchange-answer-v1:"`
abbrev answer_signature_domain : List ℕ
answer_signature_domain =
    106 ∷ 97 ∷ 109 ∷ 106 ∷ 97 ∷ 109 ∷ 45 ∷ 108 ∷ 105 ∷ 110 ∷ 107 ∷ 45 ∷ 107 ∷ 101 ∷ 121 ∷ 45 ∷ 101
    ∷ 120 ∷ 99 ∷ 104 ∷ 97 ∷ 110 ∷ 103 ∷ 101 ∷ 45 ∷ 97 ∷ 110 ∷ 115 ∷ 119 ∷ 101 ∷ 114 ∷ 45 ∷ 118 ∷ 49
    ∷ 58 ∷ []

-- `b"jamjam-audio-link-v1"`
abbrev key_salt : List ℕ
key_salt =
    106 ∷ 97 ∷ 109 ∷ 106 ∷ 97 ∷ 109 ∷ 45 ∷ 97 ∷ 117 ∷ 100 ∷ 105 ∷ 111 ∷ 45 ∷ 108 ∷ 105 ∷ 110 ∷ 107
    ∷ 45 ∷ 118 ∷ 49 ∷ []

-- `b"low to high"` and `b"high to low"`
abbrev low_to_high : List ℕ
low_to_high = 108 ∷ 111 ∷ 119 ∷ 32 ∷ 116 ∷ 111 ∷ 32 ∷ 104 ∷ 105 ∷ 103 ∷ 104 ∷ []

abbrev high_to_low : List ℕ
high_to_low = 104 ∷ 105 ∷ 103 ∷ 104 ∷ 32 ∷ 116 ∷ 111 ∷ 32 ∷ 108 ∷ 111 ∷ 119 ∷ []

-- `==` and `<` of byte arrays.
abbrev pub bytes_eq : List ℕ → List ℕ → Bool
bytes_eq [] [] = true
bytes_eq [] (y ∷ ys) = false
bytes_eq (x ∷ xs) [] = false
bytes_eq (x ∷ xs) (y ∷ ys) = (x == y) && bytes_eq xs ys

abbrev pub bytes_lt : List ℕ → List ℕ → Bool
bytes_lt _ [] = false
bytes_lt [] (y ∷ ys) = true
bytes_lt (x ∷ xs) (y ∷ ys) = ltb x y || (x == y) && bytes_lt xs ys

unfoldable pub text_of : List ℕ → List ℕ → List ℕ → List ℕ → List ℕ
text_of domain sender to ephemeral = ((domain ++ sender) ++ to) ++ ephemeral

unfoldable pub signed_text : List ℕ → List ℕ → List ℕ → List ℕ
unfolding text_of
signed_text sender recipient ephemeral = text_of signature_domain sender recipient ephemeral

unfoldable pub answer_signed_text : List ℕ → List ℕ → List ℕ → List ℕ
unfolding text_of
answer_signed_text sender answered ephemeral =
    text_of answer_signature_domain sender answered ephemeral

unfoldable pub parse_any_key_exchange : List ℕ → Option (List ℕ × Bool)
parse_any_key_exchange payload =
    if ((get_or payload 0 0 == key_exchange) && (get_or payload 1 0 == suite))
      && (length payload == key_exchange_len)
    then some (take 32 (drop 2 payload), false)
    else if ((get_or payload 0 0 == key_exchange) && (get_or payload 1 0 == signed_suite))
        && (length payload == key_exchange_len + signature_len)
    then some (take 32 (drop 2 payload), true)
    else none

unfoldable pub parse_key_exchange : List ℕ → Option (List ℕ)
parse_key_exchange payload =
    if (not (length payload == key_exchange_len) || not (get_or payload 0 0 == key_exchange))
      || not (get_or payload 1 0 == suite)
    then none
    else some (drop 2 payload)

module _ (c : Crypto) where
  unfoldable pub signed_payload : List ℕ → List ℕ → List ℕ → List ℕ
  signed_payload ours text ephemeral = key_exchange ∷ signed_suite ∷ (ephemeral ++ c.sign ours text)

  -- `PeerCheck::new` and `PeerCheck::open`
  unfoldable pub new_check : List ℕ → List ℕ → List ℕ → PeerCheck
  unfolding signed_text signed_payload
  new_check ours theirs ephemeral = record {
    ours = ours;
    theirs = theirs;
    ephemeral = ephemeral;
    payload = signed_payload ours (signed_text (c.verifying_key ours) theirs ephemeral) ephemeral;
  }

  -- Whether the peer signed `ephemeral` for our identity, or for our ephemeral key.
  unfoldable pub is_signed_for_us : PeerCheck → List ℕ → List ℕ → Bool
  unfolding signed_text answer_signed_text
  is_signed_for_us check ephemeral signature =
      c.verify check.theirs (signed_text check.theirs (c.verifying_key check.ours) ephemeral)
        signature
      || c.verify check.theirs (answer_signed_text check.theirs check.ephemeral ephemeral) signature

  unfoldable pub open_check : PeerCheck → List ℕ → Option (List ℕ)
  unfolding is_signed_for_us
  open_check check payload =
      if (not (length payload == key_exchange_len + signature_len)
          || not (get_or payload 0 0 == key_exchange))
        || not (get_or payload 1 0 == signed_suite)
      then none
      else let ephemeral = take 32 (drop 2 payload) in
        c.signature_from_slice (drop key_exchange_len payload) >>= λ signature.
        then_some (is_signed_for_us check ephemeral signature) ephemeral

  -- The decoded text has to be 32 bytes.
  unfoldable pub parse_link_key : List ℕ → Option (List ℕ)
  parse_link_key text = c.base64_decode text >>= λ bytes.
      (if length bytes == 32 then c.verifying_key_from_bytes bytes else none)

  -- The key for one direction between the ends `low` and `high`.
  unfoldable pub link_key : List ℕ → List ℕ → List ℕ → List ℕ → List ℕ
  link_key shared low high direction = c.hkdf ((key_salt ++ low) ++ high) shared direction

  unfoldable pub derive_keys : List ℕ → List ℕ → List ℕ → Keys
  unfolding link_key
  derive_keys shared ours theirs =
      let we_are_low = bytes_lt ours theirs in
      let low = if we_are_low then ours else theirs in
      let high = if we_are_low then theirs else ours in
      let low_to_high_key = link_key shared low high low_to_high in
      let high_to_low_key = link_key shared low high high_to_low in
      record {
        send = if we_are_low then low_to_high_key else high_to_low_key;
        receive = if we_are_low then high_to_low_key else low_to_high_key;
        next_counter = 0;
        peer_public = theirs;
        window = default;
        confirmed = false;
      }
