-- ===== src/Host/Serve/Step.antt =====
-- What a client and a round of detection leave behind in the enclave.
use kassandra_service.Common.{
  ℕ, List, [], ◌∷◌, ◌++◌, map, Option, none, some, ◌≡◌, inl, inr, ◌∙◌, ap, refl, sym, ok, panic,
  ltb, Outcome, Bool-cases,
}
use mathlib.Core.Path.{subst}
use mathlib.Core.List.{append-nil, map-append, append_assoc}
use kassandra_service.External.{External}
use kassandra_service.Messages.{Result, ClientMsg, ServerMsg, EncryptedResponse}
use kassandra_service.Ratls.{FmdKeyRegistration}
use kassandra_service.IndexSet.Round.{advanced, Flags, Keys}
use kassandra_service.Enclave.{State, add_key}
use kassandra_service.Database.{Sql, Db, fetch_indices, synced_height}
use kassandra_service.Host.{FromClient, handle_connection, handle_fmd, answer_indices}
use kassandra_service.Host.Session.{Ended, exec, idle}
use kassandra_service.Host.Registration.Ends.{session_ends}
use kassandra_service.Host.Detection.Outcomes.{round_cases}
use kassandra_service.Host.Serve.Keeps.{Ends}
use Prim.Native.String.{String}

module _ (e : External) (q : Sql e) (get_quote : List ℕ → List ℕ)
    (from_slice : List ℕ → Result (FmdKeyRegistration e) e.CborError) where
  abbrev pub keys_of : State e → List (FmdKeyRegistration e)
  keys_of st = map (λ k. k.0) st.registered_keys

  -- The keys of the first state come first in the second.
  abbrev pub Kept : State e → State e → Type 0
  Kept st st' = (more : List (FmdKeyRegistration e)) × (keys_of st' ≡ keys_of st ++ more)

  -- A run that panicked, or at whose end the enclave is in its main loop, or in a handshake that the
  -- host hangs in, with all its keys and nothing on the way.
  abbrev pub InStep : {A : Type 0} → State e → Ended e get_quote from_slice A → Type 0
  InStep st = Ends e get_quote from_slice (λ a. Kept st) (Kept st)

  -- At most one key more, from its birthday on.
  abbrev pub Added : State e → State e → Type 0
  Added st st' =
      (key : Option (FmdKeyRegistration e)) × (st' ≡ add_key e get_quote from_slice st key)

  pub kept : (st : State e) → Kept st st
  kept st = ([], sym (append-nil (keys_of st)))

  pub Kept-trans : (r s t : State e) → Kept r s → Kept s t → Kept r t
  Kept-trans r s t (more, p) (more', p') =
      (more ++ more', p' ∙ ap (λ k. k ++ more') p ∙ append_assoc (keys_of r) more more')

  keys_of-advanced :
      (n : ℕ) (flags : Flags e) (keys : Keys e)
      → map (λ k. k.0) (map (advanced e n flags) keys) ≡ map (λ k. k.0) keys
  unfolding advanced
  keys_of-advanced n flags [] = refl
  keys_of-advanced n flags ((key, set) ∷ r) = elim (Bool-cases (ltb set.synced_to n)) [
    | inl p ↦ rw (p) (ap (◌∷◌ key) (keys_of-advanced n flags r))
    | inr p ↦ rw (p) (ap (◌∷◌ key) (keys_of-advanced n flags r))
  ]

  pub round-InStep :
      (db : Db e q) (st : State e) (script : List (FromClient e)) (sent : List ServerMsg)
      → InStep st (
          exec e get_quote from_slice
            (handle_fmd e q db)
            (idle e get_quote from_slice st script sent))
  round-InStep db st script sent = elim (round_cases e q get_quote from_slice db st script sent) [
    | inl (p, why) ↦ subst (InStep st) (sym p) tt
    | inr m ↦ subst (InStep st) (sym m.ended) (
      m.st_after,
      script,
      sent,
      refl,
      (
        [],
        ap (map (λ k. k.0)) m.keys_advanced
            ∙ keys_of-advanced (synced_height e q db) m.flags st.registered_keys
            ∙ sym (append-nil (keys_of st)),
      ),
    )
  ]

  pub Added-kept : (st st' : State e) → Added st st' → Kept st st'
  unfolding add_key
  Added-kept st st' (none, p) = rw p (kept st)
  Added-kept st st' (some key, p) = rw p (key ∷ [], map-append (λ k. k.0) st.registered_keys _)

  unchanged : (st : State e) → Added st st
  unfolding add_key
  unchanged st = (none, refl)

  -- A client that was served, or with which the host waits or hangs.
  abbrev pub Served : State e → Ended e get_quote from_slice (Unit {0}) → Type 0
  Served st = Ends e get_quote from_slice (λ x. Added st) (Added st)

  answer_indices-Served :
      (host_uuid fetch_error : String) (o : Outcome (Option EncryptedResponse)) (st : State e)
      (script : List (FromClient e)) (sent : List ServerMsg)
      → Served st (
          exec e get_quote from_slice
            (answer_indices e q host_uuid fetch_error o)
            (idle e get_quote from_slice st script sent))
  unfolding exec answer_indices
  answer_indices-Served host_uuid fetch_error panic st script sent = tt
  answer_indices-Served host_uuid fetch_error (ok none) st script sent =
      (st, script, _, refl, unchanged st)
  answer_indices-Served host_uuid fetch_error (ok (some resp)) st script sent =
      (st, script, _, refl, unchanged st)

  pub connection-Served :
      (host_uuid fetch_error : String) (db : Db e q) (st : State e) (script : List (FromClient e))
      (sent : List ServerMsg)
      → Served st (
          exec e get_quote from_slice
            (handle_connection e q host_uuid fetch_error db)
            (idle e get_quote from_slice st script sent))
  unfolding exec handle_connection
  connection-Served host_uuid fetch_error db st [] sent = inl (st, [], sent, refl, unchanged st)
  connection-Served host_uuid fetch_error db st (none ∷ rest) sent =
      (st, rest, sent, refl, unchanged st)
  connection-Served host_uuid fetch_error db st (some (Result.err x) ∷ rest) sent =
      (st, rest, sent, refl, unchanged st)
  connection-Served host_uuid fetch_error db st
        (some (Result.ok (ClientMsg.request_report d)) ∷ rest) sent =
      (st, rest, sent, refl, unchanged st)
  connection-Served host_uuid fetch_error db st (some (Result.ok (ClientMsg.ratls_ack a)) ∷ rest)
        sent =
      (st, rest, sent, refl, unchanged st)
  connection-Served host_uuid fetch_error db st (some (Result.ok ClientMsg.request_uuid) ∷ rest)
        sent =
      (st, rest, _, refl, unchanged st)
  connection-Served host_uuid fetch_error db st
        (some (Result.ok (ClientMsg.request_indices h)) ∷ rest) sent =
      answer_indices-Served host_uuid fetch_error (fetch_indices e q db h) st rest sent
  connection-Served host_uuid fetch_error db st
        (some (Result.ok (ClientMsg.register_key nonce pk)) ∷ rest) sent =
      elim (session_ends e get_quote from_slice st nonce pk sent rest) [
        | inl (key, rest', told, p) ↦ subst (Served st) (sym p) (_, rest', told, refl, (key, refl))
        | inr (inl (ack, rest', told, s, why, p)) ↦
            subst (Served st) (sym p) (st, rest', told, refl, unchanged st)
        | inr (inr (s, inl (c, p))) ↦
            subst (Served st) (sym p) (inr (st, nonce, pk, sent, _, c, refl, unchanged st))
        | inr (inr (s, inr (c, p))) ↦
            subst (Served st) (sym p) (inl (st, [], _, refl, unchanged st))
      ]
