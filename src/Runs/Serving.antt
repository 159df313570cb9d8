-- ===== src/Runs/Serving.antt =====
-- The main loop of the host: a client that registers, one that is timed out, a round of detection
-- and an interrupt.
use kassandra_service.Common.{ℕ, Bool, true, false, List, [], ◌∷◌, Option, none, some}
use kassandra_service.Messages.{Result, AckType, ClientMsg}
use kassandra_service.Host.{FromClient}
use kassandra_service.Host.Session.{idle}
use kassandra_service.Host.Serve.{Turn, serve}
use kassandra_service.Host.Serve.Step.{InStep}
use kassandra_service.Host.Serve.Loop.{serve-InStep}
use kassandra_service.Runs.{plain, rows}
use kassandra_service.Runs.Sessions.{from_slice, quote, pk, message, ack, with_key, db}

abbrev turn :
    Bool → Option (List (FromClient plain)) → Turn plain rows quote from_slice "uuid" "error" ℕ
turn dropped none = record {
  query = record { dropped = dropped; accepted = none; timeout = true };
  fetched = λ d. d;
}
turn dropped (some client) = record {
  query = record { dropped = dropped; accepted = some (Result.ok client); timeout = true };
  fetched = λ d. d;
}

abbrev key_sent : FromClient plain
key_sent = some (Result.ok (ClientMsg.register_key 9 pk))

abbrev turns : List (Turn plain rows quote from_slice "uuid" "error" ℕ)
turns =
    turn false (some (key_sent ∷ ack (AckType.success message) ∷ []))
    ∷ turn false (some (key_sent ∷ none ∷ []))
    ∷ turn false none
    ∷ turn true none
    ∷ []

serve-InStep_example : InStep plain rows quote from_slice with_key (
    serve plain rows quote from_slice "uuid" "error" ℕ turns db
      (idle plain quote from_slice with_key [] []))
serve-InStep_example =
    serve-InStep plain rows quote from_slice "uuid" "error" ℕ turns db with_key [] []
