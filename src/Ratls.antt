-- ===== src/Ratls.antt =====
-- shared/src/ratls.rs: the connection of the RA-TLS handshake, and key registrations.
pub mod Session
use kassandra_service.Common.{ℕ, List, Option, none, some, if◌then◌else◌, Outcome, ok, panic}
use kassandra_service.External.{External}
use kassandra_service.Messages.{Result, TlsCiphertext, ClientMsg, MsgToHost}

pub data RatlsError (C : Type 0) : Type 0 where
  already_initialized : RatlsError C
  non_contributory : RatlsError C
  not_initialized : RatlsError C
  decryption : RatlsError C
  deserialize : C → RatlsError C

module _ (e : External) where
  open e use {
    DetectionKey, EphemeralSecret, Rng, CborError, encrypt, decrypt, public_key, diffie_hellman,
    was_contributory, random_from_rng, fill_bytes,
  }

  pub record FmdKeyRegistration : Type 0 where
    pub fmd_key : DetectionKey
    pub enc_key : List ℕ
    pub birthday : Option ℕ

  -- The cipher of an initialized connection is kept as its key.
  pub data Connection : Type 0 where
    handshake : EphemeralSecret → Connection
    initialized : List ℕ → Connection

  -- `Connection::new`
  unfoldable pub new : Rng → Connection
  new rng = handshake (random_from_rng rng)

  unfoldable pub client_send : Connection → ℕ → Result ClientMsg (RatlsError CborError)
  client_send (handshake key) nonce = Result.ok (ClientMsg.register_key nonce (public_key key))
  client_send (initialized key) nonce = Result.err already_initialized

  unfoldable pub enclave_reply : Connection → List ℕ → Result MsgToHost (RatlsError CborError)
  enclave_reply (handshake key) report = Result.ok (MsgToHost.ratls report)
  enclave_reply (initialized key) report = Result.err already_initialized

  unfoldable pub initialize : Connection → List ℕ → Result Connection (RatlsError CborError)
  initialize (initialized key) pk = Result.err already_initialized
  initialize (handshake key) pk =
      if was_contributory (diffie_hellman key pk)
      then Result.ok (initialized (diffie_hellman key pk))
      else Result.err non_contributory

  unfoldable pub sealed :
      Option (List ℕ) → List ℕ → Outcome (Result TlsCiphertext (RatlsError CborError))
  sealed none nonce = panic
  sealed (some c) nonce = ok (Result.ok (record { payload = c; nonce = nonce }))

  -- The nonce of 12 bytes is drawn from the generator; an error of the cipher is unwrapped.
  unfoldable pub encrypt_msg :
      Connection → List ℕ → Rng → Outcome (Result TlsCiphertext (RatlsError CborError)) × Rng
  unfolding sealed
  encrypt_msg (handshake key) payload rng = (ok (Result.err not_initialized), rng)
  encrypt_msg (initialized key) payload rng =
      let (nonce, rng') = fill_bytes 12 rng in (sealed (encrypt key nonce payload) nonce, rng')

  pub opened :
      {A : Type 0}
      → (List ℕ → Result A CborError)
      → Option (List ℕ)
      → Result A (RatlsError CborError)
  opened from_slice none = Result.err decryption
  opened from_slice (some p) = elim (from_slice p) [
    | Result.ok a ↦ Result.ok a
    | Result.err c ↦ Result.err (deserialize c)
  ]

  -- `from_slice` is serde_cbor's, at the type that is read.
  unfoldable pub decrypt_msg :
      {A : Type 0}
      → (List ℕ → Result A CborError)
      → Connection
      → TlsCiphertext
      → Result A (RatlsError CborError)
  unfolding opened
  decrypt_msg from_slice (handshake key) msg = Result.err not_initialized
  decrypt_msg from_slice (initialized key) msg =
      opened from_slice (decrypt key msg.nonce msg.payload)
