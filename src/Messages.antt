-- ===== src/Messages.antt =====
-- shared/src/communication/mod.rs: the messages between client, host and enclave, and which of
-- them are passed on. Also the types of shared/src/db.rs and shared/src/ratls.rs that they carry.
pub mod EncKey
pub mod Ciphertext
use kassandra_service.Common.{ℕ, List, Option, none, some, ◌≡◌, ◌⊎◌, inl, inr, refl}
use kassandra_service.Index.{Index}
use Prim.Native.String.{String}

-- `Result<T, E>` of the source.
pub data Result {ℓ κ} (A : Type ℓ) (E : Type κ) : Type (ℓ ⊔ κ) where
  ok : A → Result A E
  err : E → Result A E

pub Result-cases :
    {A B : Type 0} (r : Result A B) → ((a : A) × (r ≡ Result.ok a)) ⊎ ((b : B) × (r ≡ Result.err b))
Result-cases (Result.ok a) = inl (a, refl)
Result-cases (Result.err b) = inr (b, refl)

pub record EncryptedResponse : Type 0 where
  pub owner : String
  pub nonce : List ℕ
  pub indices : List ℕ
  pub height : ℕ

pub record TlsCiphertext : Type 0 where
  pub payload : List ℕ
  pub nonce : List ℕ

pub data AckType : Type 0 where
  success : TlsCiphertext → AckType
  fail : AckType

pub data MsgToHost : Type 0 where
  basic : String → MsgToHost
  error : String → MsgToHost
  error_for_client : String → MsgToHost
  ratls : List ℕ → MsgToHost
  report : List ℕ → MsgToHost
  key_reg_success : MsgToHost
  block_requests : List ℕ → MsgToHost
  fmd_results : List EncryptedResponse → MsgToHost

-- `F` is the type of flag ciphertexts.
pub data MsgFromHost (F : Type 0) : Type 0 where
  basic : String → MsgFromHost F
  register_key : ℕ → List ℕ → MsgFromHost F
  request_report : List ℕ → MsgFromHost F
  ratls_ack : AckType → MsgFromHost F
  required_blocks : MsgFromHost F
  requested_flags : ℕ → List (Index × Option F) → MsgFromHost F

pub data ClientMsg : Type 0 where
  register_key : ℕ → List ℕ → ClientMsg
  request_report : List ℕ → ClientMsg
  ratls_ack : AckType → ClientMsg
  request_uuid : ClientMsg
  request_indices : String → ClientMsg

pub data ServerMsg : Type 0 where
  ratls : List ℕ → ServerMsg
  error : String → ServerMsg
  key_reg_success : ServerMsg
  uuid : String → ServerMsg
  indices_response : EncryptedResponse → ServerMsg

-- `TryFrom<&ClientMsg> for MsgFromHost`; the error is one fixed text.
unfoldable pub to_enclave : {F : Type 0} → ClientMsg → Option (MsgFromHost F)
to_enclave (ClientMsg.register_key nonce pk) = some (MsgFromHost.register_key nonce pk)
to_enclave (ClientMsg.request_report user_data) = some (MsgFromHost.request_report user_data)
to_enclave (ClientMsg.ratls_ack v) = some (MsgFromHost.ratls_ack v)
to_enclave _ = none

-- `TryFrom<MsgToHost> for ServerMsg`
unfoldable pub to_client : MsgToHost → Option ServerMsg
to_client (MsgToHost.ratls r) = some (ServerMsg.ratls r)
to_client (MsgToHost.error_for_client e) = some (ServerMsg.error e)
to_client MsgToHost.key_reg_success = some ServerMsg.key_reg_success
to_client _ = none

-- What `read` of a framed connection can fail with: the errors of COBS and of CBOR.
pub data MsgError (D C : Type 0) : Type 0 where
  decode : D → MsgError D C
  deserialize : C → MsgError D C
  utf8 : List ℕ → MsgError D C
