-- ===== src/Client/Query.antt =====
-- client/src/query.rs: what the client makes of the answer of a service.
pub mod Answer
pub mod Found
pub mod Exact
use kassandra_service.Common.{
  ℕ, Bool, true, false, not, List, [], ◌∷◌, Option, none, some, if◌then◌else◌,
}
use kassandra_service.External.{External}
use kassandra_service.Index.{Index}
use kassandra_service.IndexList.{IndexList, try_from_bytes}
use kassandra_service.IndexSet.{hash}
use kassandra_service.Messages.{Result, EncryptedResponse, ServerMsg}
use kassandra_service.Client.Config.{Service, Config, get_services}
use Prim.Native.String.{String}
use Prim.Native.String
use text.Mathlib.Text.{◌==◌ as str_eq}

-- The errors of the client: the text of the server, or of `Io` and `MsgError`.
pub data Error : Type 0 where
  server_error : String → Error
  io : String → Error
  msg_error : String → Error
  ratls : String → Error

unfoldable pub service_error : String → String → Error
service_error uuid text =
    server_error (String.◌++◌ "Service < " (String.◌++◌ uuid (String.◌++◌ " >: " text)))

module _ (e : External) where
  open e use {decrypt}

  unfoldable pub parsed : String → Option IndexList → Result IndexList Error
  unfolding service_error
  parsed uuid none =
      Result.err (service_error uuid "Could not deserialize decrypted response as MASP indices")
  parsed uuid (some list) = Result.ok list

  unfoldable pub decrypted : String → Option (List ℕ) → Result IndexList Error
  unfolding parsed
  decrypted uuid none =
      Result.err (service_error uuid "Failed to decrypt the response from the service")
  decrypted uuid (some index_bytes) = parsed uuid (try_from_bytes index_bytes)

  -- `query_service` from the answer on that is read behind the request.
  unfoldable pub query_service : String → List ℕ → Result ServerMsg Error → Result IndexList Error
  unfolding decrypted
  query_service uuid enc_key (Result.ok (ServerMsg.indices_response encrypted)) =
      if not (str_eq encrypted.owner (hash e enc_key))
      then Result.err (service_error uuid "Received response for data owned by a different key")
      else decrypted uuid (decrypt enc_key encrypted.nonce encrypted.indices)
  query_service uuid enc_key (Result.ok (ServerMsg.error err)) =
      Result.err (service_error uuid (String.◌++◌ "Error reported by server: " err))
  query_service uuid enc_key _ =
      Result.err (service_error uuid "Unable to parse response from the service.")

-- The loop of `query_fmd_key`: `ask` is the exchange with one service.
unfoldable pub query_all :
    (Service → Result IndexList Error) → List Service → Result (List IndexList) Error
query_all ask [] = Result.ok []
query_all ask (s ∷ ss) = elim (ask s) [
  | Result.err x ↦ Result.err x
  | Result.ok list ↦ elim (query_all ask ss) [
    | Result.err x ↦ Result.err x
    | Result.ok lists ↦ Result.ok (list ∷ lists)
  ]
]

unfoldable pub query_fmd_key :
    (Service → Result IndexList Error) → Config → String → Result (List IndexList) Error
unfolding query_all
query_fmd_key ask config key_hash = query_all ask (get_services config key_hash)
