-- ===== src/Runs/Sessions.antt =====
-- Sessions of client, host and enclave, and rounds of detection.
use kassandra_service.Common.{
  ℕ, ◌≡◌, ◌⊎◌, refl, List, [], ◌∷◌, ◌++◌, none, some, ok, map, replicate,
}
use kassandra_service.IndexSet.{next, check_flags}
use kassandra_service.IndexSet.Round.{Keys, Flags, advanced, Answers, Refused, check_flags_lem}
use kassandra_service.Messages.{
  Result, EncryptedResponse, TlsCiphertext, AckType, MsgToHost, ClientMsg, ServerMsg,
}
use kassandra_service.Ratls.{
  RatlsError, FmdKeyRegistration, handshake, initialized, initialize, encrypt_msg, decrypt_msg,
}
use kassandra_service.Enclave.{State}
use kassandra_service.Database.{Db, get_height, synced_height}
use kassandra_service.Host.{FromClient, flags_of, sort, dedup}
use kassandra_service.Host.Session.{finished, waits, idle}
use kassandra_service.Host.Registration.{
  quoted, session, session_rejected_report_waits, session_refused_key_waits,
}
use kassandra_service.Host.Detection.{heights, round, idle_with, advanced_with, Stores, round_lem}
use kassandra_service.Runs.{plain, rows}

abbrev registration : FmdKeyRegistration plain
registration = record { fmd_key = 5; enc_key = 7 ∷ []; birthday = some 3 }

-- A registration is written as one byte; nothing else is read back.
abbrev to_vec : FmdKeyRegistration plain → List ℕ
to_vec key = 1 ∷ []

abbrev pub from_slice : List ℕ → Result (FmdKeyRegistration plain) (Unit {0})
from_slice [] = Result.err tt
from_slice (x ∷ xs) = Result.ok registration

-- The report is the data.
abbrev pub quote : List ℕ → List ℕ
quote report = report

abbrev pub start : State plain
start = record { rng = 4; registered_keys = [] }

abbrev pub pk : List ℕ
pk = 3 ∷ replicate 31 0

abbrev pub message : TlsCiphertext
message = record { payload = 1 ∷ []; nonce = [] }

abbrev pub ack : AckType → FromClient plain
ack a = some (Result.ok (ClientMsg.ratls_ack a))

opened : decrypt_msg plain from_slice (initialized (7 ∷ [])) message ≡ Result.ok registration
unfolding decrypt_msg
opened = refl

abbrev empty_message : TlsCiphertext
empty_message = record { payload = []; nonce = [] }

unreadable :
    decrypt_msg plain from_slice (initialized (7 ∷ [])) empty_message
    ≡ Result.err (RatlsError.deserialize tt)
unfolding decrypt_msg
unreadable = refl

session_rejected_report_waits_example :
    session plain quote from_slice start 9 pk [] [] (ack AckType.fail ∷ [])
    ≡ waits (
        idle plain quote from_slice start []
          ([] ++ quoted plain quote from_slice start 9 pk [] [] ∷ []))
session_rejected_report_waits_example =
    session_rejected_report_waits plain quote from_slice start 9 pk [] [] refl

-- A generator whose secret, with the client's, gives a secret that is not contributory.
abbrev zeros : State plain
zeros = record { rng = 0; registered_keys = [] }

session_refused_key_waits_example :
    session plain quote from_slice zeros 9 (replicate 32 0) [] [] (ack AckType.fail ∷ [])
    ≡ waits (
        idle plain quote from_slice zeros []
          ([] ++ ServerMsg.error "Failed to initialize TLS connection." ∷ []))
session_refused_key_waits_example =
    session_refused_key_waits plain quote from_slice zeros 9 (replicate 32 0) [] [] AckType.fail
      refl

client_joined :
    initialize plain (handshake 3) (4 ∷ replicate 31 0) ≡ Result.ok (initialized (7 ∷ []))
unfolding initialize
client_joined = refl

enclave_joined : initialize plain (handshake 4) pk ≡ Result.ok (initialized (7 ∷ []))
unfolding initialize
enclave_joined = refl

abbrev sealed_message : TlsCiphertext
sealed_message = record { payload = 1 ∷ []; nonce = replicate 12 3 }

client_encrypted :
    encrypt_msg plain (initialized (7 ∷ [])) (1 ∷ []) 3 ≡ (ok (Result.ok sealed_message), 4)
unfolding encrypt_msg
client_encrypted = refl

abbrev keys : Keys plain
keys = (registration, record { synced_to = 3; indices = [] }) ∷ []

abbrev flags : Flags plain
flags = (record { height = 4; tx = 0 }, none) ∷ []

check_flags_lem_example :
    (rng : ℕ) × (sent : MsgToHost) × (check_flags plain keys 9 flags 4
      ≡ some (map (advanced plain 9 flags) keys, rng, sent))
    × (((sent ≡ MsgToHost.error "aead::Error") × Refused plain 9 flags keys)
        ⊎ ((after : List EncryptedResponse) × (sent ≡ MsgToHost.fmd_results after)
            × Answers plain 9 flags keys [] after))
check_flags_lem_example = check_flags_lem plain keys 9 flags 4

abbrev pub with_key : State plain
with_key = record { rng = 4; registered_keys = keys }

abbrev pub db : Db plain rows
db = record { masp = 4; fmd = []; synced_to = some 9 }

flags_read : flags_of plain rows db (4 ∷ []) ≡ ok flags
unfolding flags_of get_height
flags_read = refl

one_height : heights plain rows quote from_slice db with_key [] [] ≡ 4 ∷ []
unfolding sort dedup next
one_height = refl

round_lem_example :
    (rng : ℕ) × ((Refused plain (synced_height plain rows db) flags keys
        × (round plain rows quote from_slice db with_key [] []
            ≡ finished db (
                idle_with plain rows quote from_slice db with_key [] []
                  (advanced_with plain rows quote from_slice db with_key [] [] flags rng))))
      ⊎ ((after : List EncryptedResponse) × Answers plain
            (synced_height plain rows db)
            flags
            keys
            []
            after
          × Stores plain rows quote from_slice db with_key [] [] after
              (advanced_with plain rows quote from_slice db with_key [] [] flags rng)))
unfolding sort dedup next
round_lem_example =
    round_lem plain rows quote from_slice db with_key [] [] 4 [] flags one_height flags_read
