-- ===== src/Host/Serve/Loop.antt =====
-- The main loop of the host keeps in step with the enclave, which keeps its keys.
use kassandra_service.Common.{ℕ, List, [], ◌∷◌, All}
use kassandra_service.External.{External}
use kassandra_service.Messages.{Result, ServerMsg}
use kassandra_service.Ratls.{FmdKeyRegistration}
use kassandra_service.Enclave.{State}
use kassandra_service.Database.{Sql, Db}
use kassandra_service.Host.{FromClient}
use kassandra_service.Host.Session.{idle}
use kassandra_service.Host.Serve.{Turn, serve}
use Prim.Native.String.{String}
use kassandra_service.Host.Serve.Keeps.{Ends-map, FetchesKeeping, serve-Keeps}
use kassandra_service.Host.Serve.Step.{
  Kept, Added, InStep, kept, Kept-trans, Added-kept, round-InStep, connection-Served,
}

module _ (e : External) (q : Sql e) (get_quote : List ℕ → List ℕ)
    (from_slice : List ℕ → Result (FmdKeyRegistration e) e.CborError)
    (host_uuid fetch_error : String) (AcceptError : Type 0) where
  any_fetch :
      (P : State e → Type 0)
      (turns : List (Turn e q get_quote from_slice host_uuid fetch_error AcceptError))
      → All
          (FetchesKeeping e get_quote from_slice q host_uuid fetch_error AcceptError (λ db. P) P)
          turns
  any_fetch P [] = tt
  any_fetch P (turn ∷ turns) = (λ db st p. p, any_fetch P turns)

  -- Whatever clients come and whatever they send, whatever the fetch job does to the tables, and
  -- whenever rounds of detection are run: the main loop of the host, begun with the enclave in
  -- its main loop and nothing on the way, panics, or else is interrupted, goes on, waits for the
  -- enclave, or hangs at a client that sends nothing more, each with all keys of the enclave kept in
  -- their order and no reply left unread. The enclave is in its main loop, or, if the host hangs, it may
  -- be in a handshake whose key exchange was accepted, waiting for the client's acknowledgement.
  pub serve-InStep :
      (turns : List (Turn e q get_quote from_slice host_uuid fetch_error AcceptError)) (db : Db e q)
      (st : State e) (script : List (FromClient e)) (sent : List ServerMsg)
      → InStep e q get_quote from_slice st (
          serve e q get_quote from_slice host_uuid fetch_error AcceptError turns db
            (idle e get_quote from_slice st script sent))
  serve-InStep turns db st script sent =
      serve-Keeps e get_quote from_slice q host_uuid fetch_error AcceptError
        (λ db. Kept e q get_quote from_slice st) (Kept e q get_quote from_slice st)
        (λ d s c t k.
          Ends-map e get_quote from_slice _ (λ x r. added s r k) (λ r. added s r k)
            (connection-Served e q get_quote from_slice host_uuid fetch_error d s c t))
        (λ d s c t k.
          Ends-map e get_quote from_slice _ (λ x r. Kept-trans e q get_quote from_slice st s r k)
            (λ r. Kept-trans e q get_quote from_slice st s r k)
            (round-InStep e q get_quote from_slice d s c t))
        turns (any_fetch (Kept e q get_quote from_slice st) turns) db st script sent
        (kept e q get_quote from_slice st)
    where
      added :
          (s r : State e)
          → Kept e q get_quote from_slice st s
          → Added e q get_quote from_slice s r
          → Kept e q get_quote from_slice st r
      added s r k a =
          Kept-trans e q get_quote from_slice st s r k (Added-kept e q get_quote from_slice s r a)
