-- ===== src/Enclave.antt =====
-- enclave/src/lib.rs and enclave/src/ratls.rs: the enclave process. Each pass of its main loop
-- reads a message and answers it; the registration of a key reads a second one.
use kassandra_service.Common.{ℕ, List, [], ◌∷◌, ◌++◌, map, Option, none, some, replicate}
use kassandra_service.Common.Bytes.{to_le_bytes}
use kassandra_service.External.{External}
use kassandra_service.Messages.{Result, AckType, MsgToHost, MsgFromHost, MsgError}
use kassandra_service.Ratls.{RatlsError, FmdKeyRegistration, Connection, handshake, initialized}
use kassandra_service.Ratls
use kassandra_service.IndexSet.{IndexSet, from_height, next, check_flags}
use kassandra_service.Process.{Proc, ret, read, write, crash, ◌>>=◌}
use Prim.Native.String.{String}
use Prim.Native.String

-- The 64 bytes of `report_data`: the public key, the nonce, and zeros.
unfoldable pub report_data : List ℕ → ℕ → List ℕ
report_data enclave_pk nonce = enclave_pk ++ to_le_bytes 8 nonce ++ replicate 24 0

-- `key.birthday.unwrap_or(1)`
unfoldable pub birthday_or_one : Option ℕ → ℕ
birthday_or_one none = 1
birthday_or_one (some h) = h

module _ (e : External) where
  open e use {FlagCiphertexts, Rng, CobsError, CborError, clone_rng, public_key}

  -- The texts of `RatlsError` and `MsgError`.
  unfoldable pub ratls_text : RatlsError CborError → String
  ratls_text RatlsError.already_initialized =
      "Cannot perform Diffie-Hellman on a connection that is already initialized"
  ratls_text RatlsError.non_contributory =
      "Shared Secret was non-contributory. This suggests a man-in-the-middle attack."
  ratls_text RatlsError.not_initialized = "Cannot encrypt to a non-initialized channel"
  ratls_text RatlsError.decryption = "Could not decrypt message"
  ratls_text (RatlsError.deserialize c) =
      String.◌++◌ "Failed to deserialize message with: " (e.cbor_text c)

  unfoldable pub msg_text : MsgError CobsError CborError → String
  msg_text (MsgError.decode c) =
      String.◌++◌ "COBS failed to decode message from COM 2 with: " (e.cobs_text c)
  msg_text (MsgError.deserialize c) =
      String.◌++◌ "Failed to deserialize CBOR with: " (e.cbor_text c)
  msg_text (MsgError.utf8 b) = String.◌++◌ "Input bytes were not valid utf-8: " (e.debug_bytes b)

  -- What the enclave reads.
  abbrev pub Incoming : Type 0
  Incoming = Result (MsgFromHost FlagCiphertexts) (MsgError CobsError CborError)

  abbrev pub Run : Type 0 → Type 0
  Run A = Proc Incoming MsgToHost A

  -- The registered keys and the generator, of `main` and its `Ctx`.
  pub record State : Type 0 where
    pub rng : Rng
    pub registered_keys : List (FmdKeyRegistration e × IndexSet)

  module _ (get_quote : List ℕ → List ℕ)
      (from_slice : List ℕ → Result (FmdKeyRegistration e) CborError) where
    -- The end of `register_key`, from what the connection decrypts on.
    unfoldable pub received :
        Result (FmdKeyRegistration e) (RatlsError CborError) → Run (Option (FmdKeyRegistration e))
    received (Result.ok key) = write MsgToHost.key_reg_success (ret (some key))
    received (Result.err x) =
        write (MsgToHost.error_for_client (String.◌++◌ "Error receiving fmd key: " (ratls_text x)))
          (ret none)

    unfoldable pub acknowledged : Connection e → Incoming → Run (Option (FmdKeyRegistration e))
    unfolding received
    acknowledged conn (Result.ok (MsgFromHost.ratls_ack (AckType.success cipher))) =
        received (Ratls.decrypt_msg e from_slice conn cipher)
    acknowledged conn (Result.ok (MsgFromHost.ratls_ack AckType.fail)) = ret none
    acknowledged conn _ = write (MsgToHost.error "Received unexpected message") (ret none)

    unfoldable pub shaken :
        List ℕ
        → ℕ
        → Result (Connection e) (RatlsError CborError)
        → Run (Option (FmdKeyRegistration e))
    unfolding acknowledged
    shaken enclave_pk nonce (Result.err x) =
        write (MsgToHost.error_for_client "Failed to initialize TLS connection.") (ret none)
    shaken enclave_pk nonce (Result.ok conn) =
        write (MsgToHost.ratls (get_quote (report_data enclave_pk nonce)))
          (read (acknowledged conn))

    -- The ephemeral key is drawn from a copy of the generator.
    unfoldable pub register_key : State → List ℕ → ℕ → Run (Option (FmdKeyRegistration e))
    unfolding shaken
    register_key ctx pk nonce =
        let secret = e.random_from_rng (clone_rng ctx.rng) in
        shaken (public_key secret) nonce (Ratls.initialize e (handshake secret) pk)

    unfoldable pub add_key : State → Option (FmdKeyRegistration e) → State
    add_key st none = st
    add_key st (some key) = record st {
      registered_keys =
          st.registered_keys ++ (key, from_height (birthday_or_one key.birthday)) ∷ [];
    }

    unfoldable pub answer_flags :
        State → Option (List (FmdKeyRegistration e × IndexSet) × Rng × MsgToHost) → Run State
    answer_flags st none = crash
    answer_flags st (some (keys, rng, response)) =
        write response (ret (record { rng = rng; registered_keys = keys }))

    -- One pass of the loop of `main`, from the message read on.
    unfoldable pub handle : State → Incoming → Run State
    unfolding add_key answer_flags
    handle st (Result.ok (MsgFromHost.register_key nonce pk)) = do
      key ← register_key st pk nonce
      ret (add_key st key)
    handle st (Result.ok (MsgFromHost.request_report user_data)) =
        write (MsgToHost.report (get_quote user_data)) (ret st)
    handle st (Result.ok MsgFromHost.required_blocks) =
        write (MsgToHost.block_requests (map (λ k. next k.1) st.registered_keys)) (ret st)
    handle st (Result.ok (MsgFromHost.requested_flags synced_to flags)) =
        answer_flags st (check_flags e st.registered_keys synced_to flags st.rng)
    handle st (Result.err x) = write (MsgToHost.error (msg_text x)) (ret st)
    handle st (Result.ok _) = ret st
