-- ===== src/Scheduler.antt =====
-- host/src/scheduler.rs: the next event of the host, from what the futures that it awaits say.
use kassandra_service.Common.{Bool, true, false, Option, none, some}
use kassandra_service.Messages.{Result}

-- `S` is the stream of an incoming client.
pub data NextEvent (S : Type 0) : Type 0 where
  interrupt perform_fmd : NextEvent S
  accept : S → NextEvent S

-- What `poll` finds of the three futures: whether the interrupt flag was dropped, what `accept` of
-- the listener says if it is ready, and whether the sleep is over.
pub record NextQuery (S E : Type 0) : Type 0 where
  pub dropped : Bool
  pub accepted : Option (Result S E)
  pub timeout : Bool

timed_out : {S : Type 0} → Bool → Option (NextEvent S)
timed_out true = some NextEvent.perform_fmd
timed_out false = none

module _ {S E : Type 0} where
  unfoldable poll_accept : Option (Result S E) → Bool → Option (NextEvent S)
  unfolding timed_out
  poll_accept (some (Result.ok stream)) timeout = some (NextEvent.accept stream)
  poll_accept (some (Result.err e)) timeout = some NextEvent.perform_fmd
  poll_accept none timeout = timed_out timeout

  -- `none` is `Poll::Pending`.
  unfoldable pub poll : NextQuery S E → Option (NextEvent S)
  unfolding poll_accept
  poll self = elim (self.dropped) [
    | true ↦ some NextEvent.interrupt
    | false ↦ poll_accept self.accepted self.timeout
  ]
