-- ===== src/Host.antt =====
-- host/src/main.rs: what the host does for a client and for a round of detection, as programs that
-- talk to the enclave and to the client.
pub mod Session
pub mod Registration
pub mod Detection
pub mod Serve
use kassandra_service.Common.{
  ℕ, List, [], ◌∷◌, ◌++◌, Option, none, some, Bool, true, false, Outcome, ok, panic, ◌>>=◌, leb,
  ◌==◌, if◌then◌else◌,
}
use kassandra_service.External.{External}
use kassandra_service.Index.{Index}
use kassandra_service.Messages.{
  Result, EncryptedResponse, AckType, MsgToHost, MsgFromHost, ClientMsg, ServerMsg, MsgError,
  to_enclave, to_client,
}
use kassandra_service.Database.{Sql, Db, get_height, update_indices, fetch_indices, synced_height}
use Prim.Native.String.{String}

-- `sort` and `dedup` of the requested heights.
unfoldable pub insort : ℕ → List ℕ → List ℕ
insort x [] = x ∷ []
insort x (y ∷ ys) = let rest = insort x ys in if leb x y then x ∷ y ∷ ys else y ∷ rest

unfoldable pub sort : List ℕ → List ℕ
unfolding insort
sort [] = []
sort (x ∷ xs) = insort x (sort xs)

unfoldable pub dedup_from : ℕ → List ℕ → List ℕ
dedup_from x [] = x ∷ []
dedup_from x (y ∷ ys) = let rest = dedup_from y ys in if x == y then rest else x ∷ rest

unfoldable pub dedup : List ℕ → List ℕ
unfolding dedup_from
dedup [] = []
dedup (x ∷ xs) = dedup_from x xs

module _ (e : External) where
  open e use {FlagCiphertexts, CobsError, CborError}

  abbrev pub FromEnclave : Type 0
  FromEnclave = Result MsgToHost (MsgError CobsError CborError)

  -- `timed_read`: nothing, if its time is over at the first poll, or a message or an error of its
  -- framing.
  abbrev pub FromClient : Type 0
  FromClient = Option (Result ClientMsg (MsgError CobsError CborError))

  -- A program of the host, by its next exchange.
  pub data Program (A : Type 0) : Type 0 where
    done : A → Program A
    write_enclave : MsgFromHost FlagCiphertexts → Program A → Program A
    read_enclave : (FromEnclave → Program A) → Program A
    write_client : ServerMsg → Program A → Program A
    read_client : (FromClient → Program A) → Program A
    panics : Program A

  -- `abort_tls!`
  unfoldable pub abort_tls : Program (Unit {0})
  abort_tls = write_enclave (MsgFromHost.ratls_ack AckType.fail) (done tt)

  unfoldable pub relay_last : Option ServerMsg → Program (Unit {0})
  unfolding abort_tls
  relay_last (some resp) = write_client resp (done tt)
  relay_last none = abort_tls

  -- The final acknowledgement round.
  unfoldable pub final_round : FromEnclave → Program (Unit {0})
  unfolding relay_last to_client
  final_round (Result.ok msg) = relay_last (to_client msg)
  final_round (Result.err x) = done tt

  -- The answer of the client is sent on if it is an acknowledgement.
  unfoldable pub relay_ack : FromClient → Program (Unit {0})
  unfolding abort_tls final_round
  relay_ack (some (Result.ok (ClientMsg.ratls_ack val))) =
      write_enclave (MsgFromHost.ratls_ack val) (read_enclave final_round)
  relay_ack _ = abort_tls

  unfoldable pub relay_report : Option ServerMsg → Program (Unit {0})
  unfolding relay_ack
  relay_report (some resp) = write_client resp (read_client relay_ack)
  relay_report none = abort_tls

  unfoldable pub first_round : FromEnclave → Program (Unit {0})
  unfolding relay_report to_client
  first_round (Result.ok msg) = relay_report (to_client msg)
  first_round (Result.err x) = read_enclave final_round

  unfoldable pub handle_key_registration : MsgFromHost FlagCiphertexts → Program (Unit {0})
  unfolding first_round
  handle_key_registration msg = write_enclave msg (read_enclave first_round)

  module _ (q : Sql e) (host_uuid : String) (fetch_error : String) where
    unfoldable pub answer_indices : Outcome (Option EncryptedResponse) → Program (Unit {0})
    answer_indices panic = panics
    answer_indices (ok none) = write_client (ServerMsg.error fetch_error) (done tt)
    answer_indices (ok (some resp)) = write_client (ServerMsg.indices_response resp) (done tt)

    unfoldable pub register : Option (MsgFromHost FlagCiphertexts) → Program (Unit {0})
    unfolding handle_key_registration
    register none = panics
    register (some msg) = handle_key_registration msg

    unfoldable pub answer_client : Db e q → FromClient → Program (Unit {0})
    unfolding register answer_indices to_enclave
    answer_client db (some (Result.ok (ClientMsg.register_key nonce pk))) =
        register (to_enclave (ClientMsg.register_key nonce pk))
    answer_client db (some (Result.ok ClientMsg.request_uuid)) =
        write_client (ServerMsg.uuid host_uuid) (done tt)
    answer_client db (some (Result.ok (ClientMsg.request_indices key_hash))) =
        answer_indices (fetch_indices e q db key_hash)
    answer_client db _ = done tt

    unfoldable pub handle_connection : Db e q → Program (Unit {0})
    unfolding answer_client
    handle_connection db = read_client (answer_client db)

  module _ (q : Sql e) where
    unfoldable pub flags_of : Db e q → List ℕ → Outcome (List (Index × Option FlagCiphertexts))
    flags_of db [] = ok []
    flags_of db (h ∷ hs) = do flags ← get_height e q db h; rest ← flags_of db hs; ok (flags ++ rest)

    -- The update is unwrapped.
    unfoldable pub stored : Db e q × Bool → Program (Db e q)
    stored (db, true) = done db
    stored (db, false) = panics

    unfoldable pub store_results : Db e q → FromEnclave → Program (Db e q)
    unfolding stored
    store_results db (Result.ok (MsgToHost.fmd_results results)) =
        stored (update_indices e q db results)
    store_results db _ = done db

    unfoldable pub send_flags :
        Db e q → Outcome (List (Index × Option FlagCiphertexts)) → Program (Db e q)
    unfolding store_results
    send_flags db panic = panics
    send_flags db (ok flags) =
        write_enclave (MsgFromHost.requested_flags (synced_height e q db) flags)
          (read_enclave (store_results db))

    unfoldable pub for_heights : Db e q → List ℕ → Program (Db e q)
    unfolding send_flags flags_of
    for_heights db [] = done db
    for_heights db (h ∷ hs) = send_flags db (flags_of db (h ∷ hs))

    unfoldable pub requested : Db e q → FromEnclave → Program (Db e q)
    unfolding for_heights sort dedup
    requested db (Result.ok (MsgToHost.block_requests ranges)) =
        for_heights db (dedup (sort ranges))
    requested db _ = done db

    unfoldable pub handle_fmd : Db e q → Program (Db e q)
    unfolding requested
    handle_fmd db = write_enclave MsgFromHost.required_blocks (read_enclave (requested db))
