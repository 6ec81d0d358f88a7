-- ===== src/Link/Libraries.antt =====
-- What src/network/encryption.rs calls of its libraries: x25519-dalek, hkdf with sha2, aes-gcm,
-- ed25519-dalek and data-encoding. Keys, texts and signatures are lists of bytes.
use jamjam_client.Prelude.{ℕ, ◌+◌, ◌^◌, ◌<◌, ◌≡◌, Bool, true, Option, some, List, length}

pub record Crypto : Type 0 where
  -- `PublicKey::from`, `diffie_hellman` and `was_contributory`.
  pub public_key : List ℕ → List ℕ
  pub diffie_hellman : List ℕ → List ℕ → List ℕ
  pub was_contributory : List ℕ → Bool
  -- 32 bytes of HKDF-SHA256, of the salt, the shared secret and the purpose.
  pub hkdf : List ℕ → List ℕ → List ℕ → List ℕ
  -- AES-256-GCM, of the key, the nonce, the text and the associated data.
  pub encrypt : List ℕ → List ℕ → List ℕ → List ℕ → Option (List ℕ)
  pub decrypt : List ℕ → List ℕ → List ℕ → List ℕ → Option (List ℕ)
  -- Ed25519: `verifying_key`, `sign`, `Signature::from_slice`, `verify` and
  -- `VerifyingKey::from_bytes`.
  pub verifying_key : List ℕ → List ℕ
  pub sign : List ℕ → List ℕ → List ℕ
  pub signature_from_slice : List ℕ → Option (List ℕ)
  pub verify : List ℕ → List ℕ → List ℕ → Bool
  pub verifying_key_from_bytes : List ℕ → Option (List ℕ)
  -- `BASE64.decode`
  pub base64_decode : List ℕ → Option (List ℕ)

-- What AES-256-GCM promises: it encrypts any text of less than 2 ^ 36 bytes, the tag is 16 bytes, and
-- what it encrypts it decrypts.
pub record SealLaws (c : Crypto) : Type 0 where
  pub encrypts :
      (key nonce text aad : List ℕ)
      → length text < 2 ^ 36
      → (sealed : List ℕ) × (c.encrypt key nonce text aad ≡ some sealed)
  pub length-encrypt :
      (key nonce text aad sealed : List ℕ)
      → c.encrypt key nonce text aad ≡ some sealed
      → length sealed ≡ length text + 16
  pub decrypt-encrypt :
      (key nonce text aad sealed : List ℕ)
      → c.encrypt key nonce text aad ≡ some sealed
      → c.decrypt key nonce sealed aad ≡ some text

-- What X25519 promises: both ends compute the same secret, and a public key is 32 bytes.
pub record ExchangeLaws (c : Crypto) : Type 0 where
  pub length-public_key : (secret : List ℕ) → length (c.public_key secret) ≡ 32
  pub diffie_hellman_comm :
      (a b : List ℕ) → c.diffie_hellman a (c.public_key b) ≡ c.diffie_hellman b (c.public_key a)

-- What Ed25519 promises: a signature is 64 bytes, and the key that made it verifies it.
pub record SignatureLaws (c : Crypto) : Type 0 where
  pub length-sign : (key text : List ℕ) → length (c.sign key text) ≡ 64
  pub signature_from_slice-sign :
      (key text : List ℕ) → c.signature_from_slice (c.sign key text) ≡ some (c.sign key text)
  pub verify-sign :
      (key text : List ℕ) → c.verify (c.verifying_key key) text (c.sign key text) ≡ true
