-- ===== src/Client/Register/Handshake.antt =====
-- A registration from the client's handshake to the key that the enclave keeps.
use kassandra_service.Common.{
  ℕ, ◌≡◌, refl, ◌∙◌, ap, true, List, [], ◌∷◌, ◌++◌, some, take, take-append, length, replicate,
}
use kassandra_service.External.{External, IsAead, IsKeyExchange}
use kassandra_service.Messages.{Result, TlsCiphertext, AckType, ClientMsg, ServerMsg}
use kassandra_service.Ratls.{
  FmdKeyRegistration, handshake, initialized, new, initialize, client_send,
}
use kassandra_service.Ratls.Session.{decrypt-encrypt_msg, encrypt_msg_ok}
use kassandra_service.Process.{feed}
use kassandra_service.Enclave.{State, report_data, add_key}
use kassandra_service.Host.{FromClient}
use kassandra_service.Host.Session.{finished, idle}
use kassandra_service.Host.Registration.{secret, shared, session, quoted, session_registers}
use kassandra_service.Client.Register.{
  register_fmd_key_to_service, reported, attested, connected, send_key, Run,
}
use kassandra_service.Common.Bytes.{to_le_bytes}
use mathlib.Core.List.{append_assoc}
use Prim.Native.String.{String}

module _ (e : External) {V : Type 0} (verify_quote : List ℕ → ℕ → Result (List ℕ) V)
    (verify_text : V → String) (to_vec : FmdKeyRegistration e → List ℕ)
    (get_quote : List ℕ → List ℕ) (from_slice : List ℕ → Result (FmdKeyRegistration e) e.CborError)
    (rng later : e.Rng) (nonce : ℕ) (key_reg : FmdKeyRegistration e) (st : State e)
    (rest : List (FromClient e)) (sent : List ServerMsg) where
  open e use {public_key, diffie_hellman, random_from_rng, was_contributory, encrypt, fill_bytes}

  abbrev client_secret : e.EphemeralSecret
  client_secret = random_from_rng rng

  abbrev pub pk : List ℕ
  pk = public_key client_secret

  abbrev enclave_secret : e.EphemeralSecret
  enclave_secret = secret e get_quote from_slice st nonce pk rest sent

  abbrev pub enclave_pk : List ℕ
  enclave_pk = public_key enclave_secret

  abbrev client : Run e verify_quote verify_text to_vec
  client = register_fmd_key_to_service e verify_quote verify_text to_vec rng later nonce key_reg

  take-report_data : length enclave_pk ≡ 32 → take 32 (report_data enclave_pk nonce) ≡ enclave_pk
  unfolding report_data
  take-report_data n =
      ap (take 32) (append_assoc enclave_pk (to_le_bytes 8 nonce) (replicate 24 0))
      ∙ take-append 32 enclave_pk _ n

  abbrev key : List ℕ
  key = diffie_hellman client_secret enclave_pk

  -- The client's part, if the key is encrypted.
  client_done :
      (cipher : List ℕ)
      → length enclave_pk ≡ 32
      → verify_quote (get_quote (report_data enclave_pk nonce)) nonce
        ≡ Result.ok (report_data enclave_pk nonce)
      → initialize e (handshake client_secret) enclave_pk ≡ Result.ok (initialized key)
      → encrypt key (fill_bytes 12 later).0 (to_vec key_reg) ≡ some cipher
      → feed client (
          Result.ok (quoted e get_quote from_slice st nonce pk rest sent)
          ∷ Result.ok ServerMsg.key_reg_success
          ∷ [])
        ≡ (
          ClientMsg.register_key nonce pk
              ∷ ClientMsg.ratls_ack
                  (AckType.success (record { payload = cipher; nonce = (fill_bytes 12 later).0 }))
              ∷ [],
          some (Result.ok tt),
        )
  unfolding register_fmd_key_to_service feed client_send new
  client_done cipher n v i c =
      rw
        (
          reported,
          v,
          attested,
          take-report_data n,
          i,
          connected,
          encrypt_msg_ok e key (to_vec key_reg) cipher later c,
          send_key,
        )
        refl

  initialize_ok :
      (s : e.EphemeralSecret) (k : List ℕ)
      → was_contributory (diffie_hellman s k) ≡ true
      → initialize e (handshake s) k ≡ Result.ok (initialized (diffie_hellman s k))
  unfolding initialize
  initialize_ok s k c = rw c refl

  pub registers :
      IsAead e
      → IsKeyExchange e
      → (cipher : List ℕ) → length enclave_pk ≡ 32
      → was_contributory key ≡ true
      → verify_quote (get_quote (report_data enclave_pk nonce)) nonce
        ≡ Result.ok (report_data enclave_pk nonce)
      → encrypt key (fill_bytes 12 later).0 (to_vec key_reg) ≡ some cipher
      → from_slice (to_vec key_reg) ≡ Result.ok key_reg
      → (msg : TlsCiphertext) × (feed client (
            Result.ok (quoted e get_quote from_slice st nonce pk rest sent)
            ∷ Result.ok ServerMsg.key_reg_success
            ∷ [])
          ≡ (
            ClientMsg.register_key nonce pk ∷ ClientMsg.ratls_ack (AckType.success msg) ∷ [],
            some (Result.ok tt),
          ))
        × (session e get_quote from_slice st nonce pk rest sent
              (some (Result.ok (ClientMsg.ratls_ack (AckType.success msg))) ∷ rest)
            ≡ finished tt (
                idle e get_quote from_slice
                  (add_key e get_quote from_slice st (some key_reg))
                  rest
                  ((sent ++ quoted e get_quote from_slice st nonce pk rest sent ∷ [])
                    ++ ServerMsg.key_reg_success ∷ [])))
  registers aead kx cipher n c v encrypted read_back =
      let contributory : was_contributory (shared e get_quote from_slice st nonce pk rest sent)
          ≡ true =
        rw (kx.diffie_hellman_comm enclave_secret client_secret) c in
      let ours = initialize_ok client_secret enclave_pk c in
      let theirs = initialize_ok enclave_secret pk contributory in
      let msg : TlsCiphertext = record { payload = cipher; nonce = (fill_bytes 12 later).0 } in
      let opened =
        decrypt-encrypt_msg e aead kx from_slice client_secret enclave_secret _ _ (to_vec key_reg)
          later (fill_bytes 12 later).1 msg key_reg ours theirs
          (encrypt_msg_ok e key (to_vec key_reg) cipher later encrypted) read_back in
      (
        msg,
        client_done cipher n v ours encrypted,
        session_registers e get_quote from_slice st nonce pk rest sent msg key_reg contributory
            opened,
      )
