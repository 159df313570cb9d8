-- ===== src/Ratls/Session.antt =====
-- The session of one key registration, from both sides.
use kassandra_service.Common.{ℕ, List, Option, none, some, ◌≡◌, refl, arith, ok, ap}
use kassandra_service.External.{External, IsAead, IsKeyExchange}
use kassandra_service.Messages.{Result, TlsCiphertext}
use kassandra_service.Ratls.{
  Connection, handshake, initialized, initialize, encrypt_msg, decrypt_msg, sealed, opened,
}

module _ (e : External) where
  open e use {EphemeralSecret, Rng, CborError, public_key, diffie_hellman, was_contributory}

  -- If the shared secret is contributory, both sides of a handshake get the same connection from
  -- each other's public keys, and if it is not, both are refused.
  pub initialize_agree :
      IsKeyExchange e
      → (s t : EphemeralSecret)
      → initialize e (handshake s) (public_key t) ≡ initialize e (handshake t) (public_key s)
  unfolding initialize
  initialize_agree h s t = rw (h.diffie_hellman_comm s t)

  initialized_ok :
      (s : EphemeralSecret) (pk : List ℕ) (c : Connection e)
      → initialize e (handshake s) pk ≡ Result.ok c
      → c ≡ initialized (diffie_hellman s pk)
  unfolding initialize
  initialized_ok s pk c h = ground arith

  encrypted_ok :
      (key payload : List ℕ) (rng rng' : Rng) (msg : TlsCiphertext)
      → encrypt_msg e (initialized key) payload rng ≡ (ok (Result.ok msg), rng')
      → e.encrypt key msg.nonce payload ≡ some msg.payload
  unfolding encrypt_msg
  encrypted_ok key payload rng rng' msg h =
      sealed_ok (e.encrypt key nonce payload) nonce msg refl (ap (λ p. p.0) h)
    where
      nonce : List ℕ
      nonce = (e.fill_bytes 12 rng).0

      sealed_ok :
          (o : Option (List ℕ)) (n : List ℕ) (msg : TlsCiphertext)
          → e.encrypt key nonce payload ≡ o
          → sealed e o nonce ≡ ok (Result.ok msg)
          → e.encrypt key msg.nonce payload ≡ some msg.payload
      sealed_ok none n msg q r = cc
      sealed_ok (some x) n msg q r = ground arith

  pub encrypt_msg_ok :
      (key text cipher : List ℕ) (rng : Rng)
      → e.encrypt key (e.fill_bytes 12 rng).0 text ≡ some cipher
      → encrypt_msg e (initialized key) text rng ≡ (
        ok (Result.ok (record { payload = cipher; nonce = (e.fill_bytes 12 rng).0 })),
        (e.fill_bytes 12 rng).1,
      )
  unfolding encrypt_msg sealed
  encrypt_msg_ok key text cipher rng h = rw (encrypt_msg, h) refl

  opened_ok :
      {A : Type 0}
      → (from_slice : List ℕ → Result A CborError) (p : List ℕ) (a : A) → from_slice p ≡ Result.ok a
      → opened e from_slice (some p) ≡ Result.ok a
  unfolding opened
  opened_ok from_slice p a h = rw (h, opened)

  -- If two sides have initialized their connections with each other's public keys, what one of
  -- them encrypts the other decrypts, and reads back what CBOR reads in the plain text.
  pub decrypt-encrypt_msg :
      {A : Type 0}
      → IsAead e
      → IsKeyExchange e
      → (from_slice : List ℕ → Result A CborError) (s t : EphemeralSecret) (c d : Connection e)
      → (payload : List ℕ) (rng rng' : Rng) (msg : TlsCiphertext) (a : A)
      → initialize e (handshake s) (public_key t) ≡ Result.ok c
      → initialize e (handshake t) (public_key s) ≡ Result.ok d
      → encrypt_msg e c payload rng ≡ (ok (Result.ok msg), rng')
      → from_slice payload ≡ Result.ok a
      → decrypt_msg e from_slice d msg ≡ Result.ok a
  unfolding decrypt_msg
  decrypt-encrypt_msg aead kx from_slice s t c d payload rng rng' msg a hc hd he hp =
      let key = diffie_hellman s (public_key t) in
      let c_key : c ≡ initialized key = initialized_ok s (public_key t) c hc in
      let d_key : d ≡ initialized key =
        rw (kx.diffie_hellman_comm s t) (initialized_ok t (public_key s) d hd) in
      let sent = encrypted_ok key payload rng rng' msg (rw c_key at he) in
      rw (d_key, decrypt_msg, aead.decrypt-encrypt key msg.nonce payload msg.payload sent)
        (opened_ok from_slice payload a hp)
