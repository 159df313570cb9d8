-- ===== src/Host/Serve.antt =====
-- host/src/main.rs: the main loop of the host, with the clients and the rounds of detection that
-- the scheduler gives it.
pub mod Keeps
pub mod Step
pub mod Exact
pub mod CatchUp
pub mod Loop
use kassandra_service.Common.{ℕ, List, [], ◌∷◌, Option, none, some}
use kassandra_service.External.{External}
use kassandra_service.Messages.{Result}
use kassandra_service.Ratls.{FmdKeyRegistration}
use kassandra_service.Scheduler.{NextEvent, NextQuery, poll}
use kassandra_service.Database.{Sql, Db}
use kassandra_service.Host.{FromClient, handle_connection, handle_fmd}
use kassandra_service.Host.Session.{World, Ended, finished, waits, hangs, panicked, exec}
use Prim.Native.String.{String}

module _ (e : External) (q : Sql e) (get_quote : List ℕ → List ℕ)
    (from_slice : List ℕ → Result (FmdKeyRegistration e) e.CborError)
    (host_uuid fetch_error : String) (AcceptError : Type 0) where
  -- One poll of the scheduler: what the futures say, with the messages that an incoming client is
  -- going to send; and what the fetch job did to the tables since the last one.
  pub record Turn : Type 0 where
    pub query : NextQuery (List (FromClient e)) AcceptError
    pub fetched : Db e q → Db e q

  abbrev pub Loop : Type 0
  Loop = Db e q → World e get_quote from_slice → Ended e get_quote from_slice (Db e q)

  -- On with the loop, if a client was served.
  unfoldable pub served :
      Db e q
      → Loop
      → Ended e get_quote from_slice (Unit {0})
      → Ended e get_quote from_slice (Db e q)
  served db loop (finished x w) = loop db w
  served db loop (waits w) = waits w
  served db loop (hangs w) = hangs w
  served db loop panicked = panicked

  -- On with the loop, if a round of detection ended.
  unfoldable pub detected :
      Loop → Ended e get_quote from_slice (Db e q) → Ended e get_quote from_slice (Db e q)
  detected loop (finished db w) = loop db w
  detected loop (waits w) = waits w
  detected loop (hangs w) = hangs w
  detected loop panicked = panicked

  unfoldable pub handle_event : Loop → Option (NextEvent (List (FromClient e))) → Loop
  unfolding served detected
  handle_event loop none db w = loop db w
  handle_event loop (some NextEvent.interrupt) db w = finished db w
  handle_event loop (some (NextEvent.accept script)) db w = served db loop (
      exec e get_quote from_slice (handle_connection e q host_uuid fetch_error db)
        (record w { script = script; sent = [] }))
  handle_event loop (some NextEvent.perform_fmd) db w =
      detected loop (exec e get_quote from_slice (handle_fmd e q db) w)

  -- The loop of `main`, for these polls.
  unfoldable pub serve : List Turn → Loop
  unfolding handle_event
  serve [] db w = finished db w
  serve (turn ∷ turns) db w = handle_event (serve turns) (poll turn.query) (turn.fetched db) w
