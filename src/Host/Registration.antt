-- ===== src/Host/Registration.antt =====
-- The registration of a key, from the host's `handle_key_registration` to the enclave's
-- `register_key`: how each session ends.
pub mod Ends
use kassandra_service.Common.{ℕ, List, [], ◌∷◌, ◌++◌, none, some, ◌≡◌, ◌∙◌, refl, true, false}
use kassandra_service.External.{External}
use kassandra_service.Messages.{Result, AckType, MsgFromHost, ClientMsg, ServerMsg, TlsCiphertext}
use kassandra_service.Ratls.{
  FmdKeyRegistration, RatlsError, Connection, handshake, initialized, decrypt_msg, initialize,
}
use kassandra_service.Process.{settle, ret, ◌>>=◌}
use kassandra_service.Enclave.{
  State, handle, register_key, add_key, report_data, ratls_text, shaken, received,
}
use kassandra_service.Host.{
  FromClient, read_enclave, first_round, final_round, handle_key_registration,
}
use kassandra_service.Host.Session.{World, Ended, finished, waits, exec, idle}
use Prim.Native.String.{String}
use Prim.Native.String

module _ (e : External) (get_quote : List ℕ → List ℕ)
    (from_slice : List ℕ → Result (FmdKeyRegistration e) e.CborError) (st : State e) (nonce : ℕ)
    (pk : List ℕ) (rest : List (FromClient e)) (sent : List ServerMsg) where
  open e use {diffie_hellman, was_contributory, public_key, random_from_rng, clone_rng}

  abbrev pub secret : e.EphemeralSecret
  secret = random_from_rng (clone_rng st.rng)

  abbrev pub shared : List ℕ
  shared = diffie_hellman secret pk

  -- What the client gets as the report: the quote over the enclave's public key and the nonce.
  abbrev pub quoted : ServerMsg
  quoted = ServerMsg.ratls (get_quote (report_data (public_key secret) nonce))

  abbrev pub session : List (FromClient e) → Ended e get_quote from_slice (Unit {0})
  session script =
      exec e get_quote from_slice (handle_key_registration e (MsgFromHost.register_key nonce pk))
        (idle e get_quote from_slice st script sent)

  -- The session from the outcome of the key exchange on.
  pub after_exchange :
      Result (Connection e) (RatlsError e.CborError)
      → List (FromClient e)
      → Ended e get_quote from_slice (Unit {0})
  after_exchange r script =
      let (out, next) = settle (handle e get_quote from_slice) (
        shaken e get_quote from_slice (public_key secret) nonce r >>= λ key.
        ret (add_key e get_quote from_slice st key)) in
      exec e get_quote from_slice (read_enclave (first_round e))
        (record { enclave = next; replies = out; script = script; sent = sent })

  session_exchange :
      (script : List (FromClient e))
      → session script ≡ after_exchange (initialize e (handshake secret) pk) script
  unfolding after_exchange exec handle_key_registration handle register_key
  session_exchange script = refl

  initialize_contributory :
      was_contributory shared ≡ true
      → initialize e (handshake secret) pk ≡ Result.ok (initialized shared)
  unfolding initialize
  initialize_contributory c = rw c

  initialize_refused :
      was_contributory shared ≡ false
      → initialize e (handshake secret) pk ≡ Result.err RatlsError.non_contributory
  unfolding initialize
  initialize_refused c = rw c

  pub session_contributory :
      (script : List (FromClient e))
      → was_contributory shared ≡ true
      → session script ≡ after_exchange (Result.ok (initialized shared)) script
  session_contributory script c = session_exchange script ∙ rw (initialize_contributory c)

  pub session_refused :
      (script : List (FromClient e))
      → was_contributory shared ≡ false
      → session script ≡ after_exchange (Result.err RatlsError.non_contributory) script
  session_refused script c = session_exchange script ∙ rw (initialize_refused c)

  -- The enclave inside `register_key`, waiting for the acknowledgement of the client, who was told
  -- so much.
  abbrev pub handshaking : List (FromClient e) → List ServerMsg → World e get_quote from_slice
  handshaking script told = record {
    enclave =
        (settle (handle e get_quote from_slice) (
          shaken e get_quote from_slice (public_key secret) nonce (Result.ok (initialized shared))
          >>= λ key. ret (add_key e get_quote from_slice st key))).1;
    replies = [];
    script = script;
    sent = told;
  }

  -- The session from what the enclave decrypts on.
  after_decryption :
      Result (FmdKeyRegistration e) (RatlsError e.CborError)
      → Ended e get_quote from_slice (Unit {0})
  after_decryption r =
      let (out, next) = settle (handle e get_quote from_slice) (
        received e get_quote from_slice r >>= λ key. ret (add_key e get_quote from_slice st key)) in
      exec e get_quote from_slice (read_enclave (final_round e))
        (record { enclave = next; replies = out; script = rest; sent = sent ++ quoted ∷ [] })

  acknowledged_session :
      (cipher : TlsCiphertext)
      → after_exchange
          (Result.ok (initialized shared))
          (some (Result.ok (ClientMsg.ratls_ack (AckType.success cipher))) ∷ rest)
        ≡ after_decryption (decrypt_msg e from_slice (initialized shared) cipher)
  unfolding after_exchange after_decryption exec settle shaken first_round
  acknowledged_session cipher = refl

  -- If the shared secret is contributory and the client answers the report with a message that
  -- decrypts to a registration, the client is sent the report and the success, and the enclave is
  -- back in its main loop with the key added at its birthday.
  pub session_registers :
      (cipher : TlsCiphertext) (key : FmdKeyRegistration e)
      → was_contributory shared ≡ true
      → decrypt_msg e from_slice (initialized shared) cipher ≡ Result.ok key
      → session (some (Result.ok (ClientMsg.ratls_ack (AckType.success cipher))) ∷ rest)
        ≡ finished tt (
            idle e get_quote from_slice
              (add_key e get_quote from_slice st (some key))
              rest
              ((sent ++ quoted ∷ []) ++ ServerMsg.key_reg_success ∷ []))
  session_registers cipher key c d =
      session_contributory _ c
      ∙ acknowledged_session cipher
      ∙ rw d (unfold after_decryption exec settle received final_round in refl)

  -- If the shared secret is contributory and the message of the client does not decrypt to a
  -- registration, the client is sent the report and the error, and the enclave is back in its main
  -- loop with no key added.
  pub session_rejects :
      (cipher : TlsCiphertext) (x : RatlsError e.CborError)
      → was_contributory shared ≡ true
      → decrypt_msg e from_slice (initialized shared) cipher ≡ Result.err x
      → session (some (Result.ok (ClientMsg.ratls_ack (AckType.success cipher))) ∷ rest)
        ≡ finished tt (
            idle e get_quote from_slice st rest (
              (sent ++ quoted ∷ [])
              ++ ServerMsg.error (String.◌++◌ "Error receiving fmd key: " (ratls_text e x)) ∷ []))
  session_rejects cipher x c d =
      session_contributory _ c
      ∙ acknowledged_session cipher
      ∙ rw d (unfold add_key after_decryption exec settle received final_round in refl)

  -- If the shared secret is contributory and the time for an answer is over at the first poll, the
  -- host aborts: the enclave is back in its main loop with no key added, and nothing is left on the
  -- way.
  pub session_aborts :
      was_contributory shared ≡ true
      → session (none ∷ rest)
        ≡ finished tt (idle e get_quote from_slice st rest (sent ++ quoted ∷ []))
  session_aborts c =
      session_contributory _ c
      ∙ (unfold add_key after_exchange exec settle shaken first_round in refl)

  -- If the shared secret is contributory and the client answers the report with a failed
  -- acknowledgement, the host ends waiting for an answer of the enclave, which is back in its main
  -- loop and waits for the host.
  pub session_rejected_report_waits :
      was_contributory shared ≡ true
      → session (some (Result.ok (ClientMsg.ratls_ack AckType.fail)) ∷ rest)
        ≡ waits (idle e get_quote from_slice st rest (sent ++ quoted ∷ []))
  session_rejected_report_waits c =
      session_contributory _ c
      ∙ (unfold add_key after_exchange exec settle shaken first_round in refl)

  -- If the shared secret is not contributory, the client is sent the error, and if it answers with
  -- any acknowledgement, the host ends waiting for an answer of the enclave, which is back in its
  -- main loop and waits for the host.
  pub session_refused_key_waits :
      (ack : AckType)
      → was_contributory shared ≡ false
      → session (some (Result.ok (ClientMsg.ratls_ack ack)) ∷ rest)
        ≡ waits (
            idle e get_quote from_slice st rest
              (sent ++ ServerMsg.error "Failed to initialize TLS connection." ∷ []))
  session_refused_key_waits ack c =
      session_refused _ c
      ∙ (unfold add_key after_exchange exec settle shaken first_round handle in refl)
