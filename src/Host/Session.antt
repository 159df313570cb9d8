-- ===== src/Host/Session.antt =====
-- The host and the enclave together, over channels that lose nothing: the host runs a program, the
-- enclave answers what it is sent, and the client's messages are a script.
use kassandra_service.Common.{ℕ, List, [], ◌∷◌, ◌++◌}
use kassandra_service.External.{External}
use kassandra_service.Messages.{Result, MsgToHost, ServerMsg}
use kassandra_service.Ratls.{FmdKeyRegistration}
use kassandra_service.Process.{settle}
use kassandra_service.Enclave.{State, Incoming, Run, handle}
use kassandra_service.Host.{
  Program, done, write_enclave, read_enclave, write_client, read_client, panics, FromClient,
}

module _ (e : External) (get_quote : List ℕ → List ℕ)
    (from_slice : List ℕ → Result (FmdKeyRegistration e) e.CborError) where
  -- What the enclave does with its next message, its replies that the host has not read, the
  -- messages of the client to come, and what the client was sent.
  pub record World : Type 0 where
    pub enclave : Incoming e → Run e (State e)
    pub replies : List MsgToHost
    pub script : List (FromClient e)
    pub sent : List ServerMsg

  -- `waits`: the host reads from the enclave, which reads from the host, and nothing is on the way.
  -- `hangs`: the host reads from a client that sends nothing more, or no whole frame.
  pub data Ended (A : Type 0) : Type 0 where
    finished : A → World → Ended A
    waits hangs : World → Ended A
    panicked : Ended A

  -- With the script at its end the client is silent, and `timed_read` blocks for good, as
  -- Framing.Timed shows; `none` in the script is a time that is over at the first poll.
  unfoldable pub exec : {A : Type 0} → Program e A → World → Ended A
  exec (done a) w = finished a w
  exec (write_enclave m p) w =
      let (out, next) = settle (handle e get_quote from_slice) (w.enclave (Result.ok m)) in
      exec p (record w { enclave = next; replies = w.replies ++ out })
  exec (read_enclave f) w = elim w.replies [
    | [] ↦ waits w
    | r ∷ rs ↦ exec (f (Result.ok r)) (record w { replies = rs })
  ]
  exec (write_client m p) w = exec p (record w { sent = w.sent ++ m ∷ [] })
  exec (read_client f) w = elim w.script [
    | [] ↦ hangs w
    | x ∷ xs ↦ exec (f x) (record w { script = xs })
  ]
  exec panics w = panicked

  -- The enclave in its main loop with its state, and nothing on the way.
  abbrev pub idle : State e → List (FromClient e) → List ServerMsg → World
  idle st script sent = record {
    enclave = handle e get_quote from_slice st;
    replies = [];
    script = script;
    sent = sent;
  }
