-- ===== src/External.antt =====
-- What the program takes from crates and from the platform: cryptography, fuzzy message detection,
-- serialization and randomness. Their types and operations are parameters of the model.
use kassandra_service.Common.{ℕ, Bool, List, Option, some, ◌≡◌}
use Prim.Native.String.{String}

pub record External : Type 1 where
  -- The crate `fmd`: detection keys, the flags of transactions, and `detect` of the scheme that
  -- the enclave builds at its start.
  pub DetectionKey : Type 0
  pub FlagCiphertexts : Type 0
  pub detect : DetectionKey → FlagCiphertexts → Bool
  -- ChaCha20Poly1305: key, nonce and text. `none` is an error of the cipher, with its message.
  pub encrypt : List ℕ → List ℕ → List ℕ → Option (List ℕ)
  pub decrypt : List ℕ → List ℕ → List ℕ → Option (List ℕ)
  pub aead_error : String
  -- SHA-256 and `hex::encode`.
  pub sha256 : List ℕ → List ℕ
  pub hex_encode : List ℕ → String
  -- x25519: ephemeral secrets, their public keys, and the shared secret.
  pub EphemeralSecret : Type 0
  pub public_key : EphemeralSecret → List ℕ
  pub diffie_hellman : EphemeralSecret → List ℕ → List ℕ
  pub was_contributory : List ℕ → Bool
  -- The random number generator of the process.
  pub Rng : Type 0
  pub clone_rng : Rng → Rng
  pub random_from_rng : Rng → EphemeralSecret
  pub fill_bytes : ℕ → Rng → List ℕ × Rng
  -- Errors of the framing and of CBOR, as text.
  pub CobsError : Type 0
  pub CborError : Type 0
  pub cobs_text : CobsError → String
  pub cbor_text : CborError → String
  pub debug_bytes : List ℕ → String

-- The authenticated cipher gives back what it encrypted under the same key and nonce.
pub record IsAead (e : External) : Type 0 where
  pub decrypt-encrypt :
      (key nonce text cipher : List ℕ)
      → e.encrypt key nonce text ≡ some cipher
      → e.decrypt key nonce cipher ≡ some text

-- Both sides of the key exchange arrive at one shared secret.
pub record IsKeyExchange (e : External) : Type 0 where
  pub diffie_hellman_comm :
      (s t : e.EphemeralSecret)
      → e.diffie_hellman s (e.public_key t) ≡ e.diffie_hellman t (e.public_key s)
