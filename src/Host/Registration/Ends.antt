-- ===== src/Host/Registration/Ends.antt =====
-- How the registration of a key can end, whatever the client does.
use kassandra_service.Common.{
  ℕ, List, [], ◌∷◌, ◌++◌, Option, none, some, ◌≡◌, ◌⊎◌, inl, inr, ◌∙◌, ap, refl, true, false,
  Bool-cases,
}
use kassandra_service.External.{External}
use kassandra_service.Messages.{Result, Result-cases, AckType, ClientMsg, ServerMsg, TlsCiphertext}
use kassandra_service.Ratls.{FmdKeyRegistration, RatlsError, Connection, initialized, decrypt_msg}
use kassandra_service.Process.{settle, ret, ◌>>=◌}
use kassandra_service.Enclave.{State, handle, add_key, shaken}
use kassandra_service.Host.{FromClient, relay_ack, abort_tls, first_round}
use kassandra_service.Host.Session.{World, Ended, finished, waits, hangs, exec, idle}
use kassandra_service.Host.Registration.{
  shared, secret, session, quoted, after_exchange, session_contributory, session_refused,
  session_registers, session_rejects, session_rejected_report_waits, session_refused_key_waits,
  handshaking,
}

module _ (e : External) (get_quote : List ℕ → List ℕ)
    (from_slice : List ℕ → Result (FmdKeyRegistration e) e.CborError) (st : State e) (nonce : ℕ)
    (pk : List ℕ) (sent : List ServerMsg) where
  open e use {was_contributory}

  abbrev pub registration : List (FromClient e) → Ended e get_quote from_slice (Unit {0})
  registration script = session e get_quote from_slice st nonce pk [] sent script

  -- Finished, the enclave in its main loop with at most one key more, and nothing on the way.
  abbrev pub Finishes : List (FromClient e) → Type 0
  Finishes script =
      (key : Option (FmdKeyRegistration e)) × (rest : List (FromClient e)) × (told : List ServerMsg)
      × (registration script
          ≡ finished tt
              (idle e get_quote from_slice (add_key e get_quote from_slice st key) rest told))

  -- Waiting for the enclave, which is in its main loop, behind an acknowledgement of the client
  -- that the enclave does not answer.
  abbrev pub Strands : List (FromClient e) → Type 0
  Strands script =
      (ack : AckType) × (rest : List (FromClient e)) × (told : List ServerMsg) × (script
        ≡ some (Result.ok (ClientMsg.ratls_ack ack)) ∷ rest)
      × ((ack ≡ AckType.fail)
          ⊎ (was_contributory (shared e get_quote from_slice st nonce pk [] sent) ≡ false))
      × (registration script ≡ waits (idle e get_quote from_slice st rest told))

  -- What the client is sent before it answers.
  abbrev report_told : List ServerMsg
  report_told = sent ++ quoted e get_quote from_slice st nonce pk [] sent ∷ []

  abbrev refusal_told : List ServerMsg
  refusal_told = sent ++ ServerMsg.error "Failed to initialize TLS connection." ∷ []

  -- Reading from a client that sends nothing behind its key: with the enclave inside the handshake,
  -- or, where the key exchange was refused, in its main loop.
  abbrev pub Hangs : List (FromClient e) → Type 0
  Hangs script =
      (script ≡ [])
      × (((was_contributory (shared e get_quote from_slice st nonce pk [] sent) ≡ true)
            × (registration script
                ≡ hangs (handshaking e get_quote from_slice st nonce pk [] sent [] report_told)))
          ⊎ ((was_contributory (shared e get_quote from_slice st nonce pk [] sent) ≡ false)
              × (registration script ≡ hangs (idle e get_quote from_slice st [] refusal_told))))

  contributory_cases :
      (was_contributory (shared e get_quote from_slice st nonce pk [] sent) ≡ true)
      ⊎ (was_contributory (shared e get_quote from_slice st nonce pk [] sent) ≡ false)
  contributory_cases =
      Bool-cases (was_contributory (shared e get_quote from_slice st nonce pk [] sent))

  -- The enclave behind the key exchange, with the client told of it.
  abbrev exchanged :
      Result (Connection e) (RatlsError e.CborError)
      → List (FromClient e)
      → List ServerMsg
      → World e get_quote from_slice
  exchanged r rest told = record {
    enclave =
        (settle (handle e get_quote from_slice) (
          shaken e get_quote from_slice
            (e.public_key (secret e get_quote from_slice st nonce pk [] sent)) nonce r
          >>= λ key. ret (add_key e get_quote from_slice st key))).1;
    replies = [];
    script = rest;
    sent = told;
  }

  aborted :
      (x : FromClient e) (rest : List (FromClient e))
      → relay_ack e x ≡ abort_tls e
      → Finishes (x ∷ rest)
  unfolding add_key after_exchange exec settle shaken first_round handle
  aborted x rest a = elim contributory_cases [
    | inl c ↦ (
      none,
      rest,
      report_told,
      session_contributory e get_quote from_slice st nonce pk [] sent (x ∷ rest) c
          ∙ ap
              (λ p. exec e get_quote from_slice p (
                exchanged
                  (Result.ok (initialized (shared e get_quote from_slice st nonce pk [] sent))) rest
                  report_told))
              a
          ∙ refl,
    )
    | inr c ↦ (
      none,
      rest,
      refusal_told,
      session_refused e get_quote from_slice st nonce pk [] sent (x ∷ rest) c
          ∙ ap
              (λ p.
                exec e get_quote from_slice p
                  (exchanged (Result.err RatlsError.non_contributory) rest refusal_told))
              a
          ∙ refl,
    )
  ]

  silent : Hangs []
  unfolding add_key after_exchange exec settle shaken first_round handle
  silent = elim contributory_cases [
    | inl c ↦
        (refl, inl (c, session_contributory e get_quote from_slice st nonce pk [] sent [] c ∙ refl))
    | inr c ↦
        (refl, inr (c, session_refused e get_quote from_slice st nonce pk [] sent [] c ∙ refl))
  ]

  decided :
      (cipher : TlsCiphertext) (rest : List (FromClient e))
      → was_contributory (shared e get_quote from_slice st nonce pk [] sent) ≡ true
      → Finishes (some (Result.ok (ClientMsg.ratls_ack (AckType.success cipher))) ∷ rest)
  unfolding add_key
  decided cipher rest c =
      elim (Result-cases (
        decrypt_msg e from_slice (initialized (shared e get_quote from_slice st nonce pk [] sent))
          cipher)) [
            | inl (key, d) ↦ (
              some key,
              rest,
              _,
              session_registers e get_quote from_slice st nonce pk rest sent cipher key c d,
            )
            | inr (x, d) ↦ (
              none,
              rest,
              _,
              session_rejects e get_quote from_slice st nonce pk rest sent cipher x c d,
            )
          ]

  pub session_ends :
      (script : List (FromClient e)) → Finishes script ⊎ Strands script ⊎ Hangs script
  unfolding abort_tls relay_ack
  session_ends [] = inr (inr silent)
  session_ends (none ∷ rest) = inl (aborted none rest refl)
  session_ends (some (Result.err x) ∷ rest) = inl (aborted _ rest refl)
  session_ends (some (Result.ok (ClientMsg.register_key n k)) ∷ rest) = inl (aborted _ rest refl)
  session_ends (some (Result.ok (ClientMsg.request_report d)) ∷ rest) = inl (aborted _ rest refl)
  session_ends (some (Result.ok ClientMsg.request_uuid) ∷ rest) = inl (aborted _ rest refl)
  session_ends (some (Result.ok (ClientMsg.request_indices h)) ∷ rest) = inl (aborted _ rest refl)
  session_ends (some (Result.ok (ClientMsg.ratls_ack (AckType.success cipher))) ∷ rest) =
      elim contributory_cases [
        | inl c ↦ inl (decided cipher rest c)
        | inr c ↦ inr (
            inl (
              _,
              rest,
              _,
              refl,
              inr c,
              session_refused_key_waits e get_quote from_slice st nonce pk rest sent
                  (AckType.success cipher) c,
            ))
      ]
  session_ends (some (Result.ok (ClientMsg.ratls_ack AckType.fail)) ∷ rest) =
      elim contributory_cases [
        | inl c ↦ inr (
            inl (
              _,
              rest,
              _,
              refl,
              inl refl,
              session_rejected_report_waits e get_quote from_slice st nonce pk rest sent c,
            ))
        | inr c ↦ inr (
            inl (
              _,
              rest,
              _,
              refl,
              inr c,
              session_refused_key_waits e get_quote from_slice st nonce pk rest sent AckType.fail c,
            ))
      ]
