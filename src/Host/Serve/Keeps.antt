-- ===== src/Host/Serve/Keeps.antt =====
-- What holds of the tables and of the enclave's state all through the main loop of the host.
use kassandra_service.Common.{
  ℕ, List, [], ◌∷◌, Option, none, some, ◌≡◌, ◌⊎◌, inl, inr, refl, sym, true, All,
}
use mathlib.Core.Path.{subst}
use kassandra_service.External.{External}
use kassandra_service.Messages.{Result, ServerMsg}
use kassandra_service.Ratls.{FmdKeyRegistration}
use kassandra_service.Scheduler.{NextEvent, poll}
use kassandra_service.Enclave.{State}
use kassandra_service.Database.{Sql, Db}
use kassandra_service.Host.{FromClient, handle_connection, handle_fmd}
use kassandra_service.Host.Session.{World, Ended, finished, waits, hangs, panicked, exec, idle}
use kassandra_service.Host.Registration.{shared, handshaking}
use kassandra_service.Host.Serve.{Turn, Loop, served, detected, handle_event, serve}
use Prim.Native.String.{String}

module _ (e : External) (get_quote : List ℕ → List ℕ)
    (from_slice : List ℕ → Result (FmdKeyRegistration e) e.CborError) where
  -- A world whose enclave is in its main loop, nothing on the way, with such a state.
  abbrev pub Idle : (State e → Type 0) → World e get_quote from_slice → Type 0
  Idle P w =
      (st : State e) × (script : List (FromClient e)) × (sent : List ServerMsg) × (w
        ≡ idle e get_quote from_slice st script sent)
      × P st

  -- A world whose enclave is in the handshake with a client, begun in such a state, and waits for
  -- the acknowledgement.
  abbrev pub Handshaking : (State e → Type 0) → World e get_quote from_slice → Type 0
  Handshaking P w =
      (st : State e) × (nonce : ℕ) × (pk : List ℕ) × (sent told : List ServerMsg)
      × (e.was_contributory (shared e get_quote from_slice st nonce pk [] sent) ≡ true)
      × (w ≡ handshaking e get_quote from_slice st nonce pk [] sent [] told)
      × P st

  -- A run that panicked; or at whose end the enclave is idle, be the host done or waiting for it; or
  -- that hangs at a client, with the enclave idle or in the handshake.
  abbrev pub Ends :
      {A : Type 0}
      → (A → State e → Type 0)
      → (State e → Type 0)
      → Ended e get_quote from_slice A
      → Type 0
  Ends R Q (finished a w) = Idle (R a) w
  Ends R Q (waits w) = Idle Q w
  Ends R Q (hangs w) = Idle Q w ⊎ Handshaking Q w
  Ends R Q panicked = Unit {0}

  pub Ends-map :
      {A : Type 0} {R R' : A → State e → Type 0} {Q Q' : State e → Type 0}
      (end : Ended e get_quote from_slice A)
      → ((a : A) (st : State e) → R a st → R' a st)
      → ((st : State e) → Q st → Q' st)
      → Ends R Q end
      → Ends R' Q' end
  Ends-map (finished a w) f g (st, script, sent, p, r) = (st, script, sent, p, f a st r)
  Ends-map (waits w) f g (st, script, sent, p, r) = (st, script, sent, p, g st r)
  Ends-map (hangs w) f g (inl (st, script, sent, p, r)) = inl (st, script, sent, p, g st r)
  Ends-map (hangs w) f g (inr (st, nonce, pk, sent, told, c, p, r)) =
      inr (st, nonce, pk, sent, told, c, p, g st r)
  Ends-map panicked f g r = tt

  module _ (q : Sql e) (host_uuid fetch_error : String) (AcceptError : Type 0)
      (P : Db e q → State e → Type 0) (Q : State e → Type 0) where
    abbrev Keeps : Loop e q get_quote from_slice host_uuid fetch_error AcceptError → Type 0
    Keeps loop =
        (db : Db e q) (st : State e) (script : List (FromClient e)) (sent : List ServerMsg)
        → P db st
        → Ends P Q (loop db (idle e get_quote from_slice st script sent))

    -- A client, served with these tables, leaves what holds.
    abbrev pub ServesKeeping : Type 0
    ServesKeeping =
        (db : Db e q) (st : State e) (script : List (FromClient e)) (sent : List ServerMsg)
        → P db st
        → Ends (λ x. P db) Q
            (exec e get_quote from_slice (handle_connection e q host_uuid fetch_error db)
              (idle e get_quote from_slice st script sent))

    -- A round of detection leaves what holds.
    abbrev pub DetectsKeeping : Type 0
    DetectsKeeping =
        (db : Db e q) (st : State e) (script : List (FromClient e)) (sent : List ServerMsg)
        → P db st
        → Ends P Q (
            exec e get_quote from_slice (handle_fmd e q db)
              (idle e get_quote from_slice st script sent))

    -- The fetch job leaves what holds.
    abbrev pub FetchesKeeping :
        Turn e q get_quote from_slice host_uuid fetch_error AcceptError → Type 0
    FetchesKeeping turn = (db : Db e q) (st : State e) → P db st → P (turn.fetched db) st

    resume :
        (loop : Loop e q get_quote from_slice host_uuid fetch_error AcceptError) (db : Db e q)
        (w : World e get_quote from_slice)
        → Keeps loop
        → Idle (P db) w
        → Ends P Q (loop db w)
    resume loop db w k (st, script, sent, p, r) =
        subst (λ v. Ends P Q (loop db v)) (sym p) (k db st script sent r)

    served-Keeps :
        (loop : Loop e q get_quote from_slice host_uuid fetch_error AcceptError) (db : Db e q)
        (end : Ended e get_quote from_slice (Unit {0}))
        → Keeps loop
        → Ends (λ x. P db) Q end
        → Ends P Q (served e q get_quote from_slice host_uuid fetch_error AcceptError db loop end)
    unfolding served
    served-Keeps loop db (finished x w) k r = resume loop db w k r
    served-Keeps loop db (waits w) k r = r
    served-Keeps loop db (hangs w) k r = r
    served-Keeps loop db panicked k r = tt

    detected-Keeps :
        (loop : Loop e q get_quote from_slice host_uuid fetch_error AcceptError)
        (end : Ended e get_quote from_slice (Db e q))
        → Keeps loop
        → Ends P Q end
        → Ends P Q (detected e q get_quote from_slice host_uuid fetch_error AcceptError loop end)
    unfolding detected
    detected-Keeps loop (finished db w) k r = resume loop db w k r
    detected-Keeps loop (waits w) k r = r
    detected-Keeps loop (hangs w) k r = r
    detected-Keeps loop panicked k r = tt

    module _ (serves : ServesKeeping) (detects : DetectsKeeping) where
      handle_event-Keeps :
          (loop : Loop e q get_quote from_slice host_uuid fetch_error AcceptError)
          (event : Option (NextEvent (List (FromClient e))))
          → Keeps loop
          → Keeps
              (handle_event e q get_quote from_slice host_uuid fetch_error AcceptError loop event)
      unfolding handle_event
      handle_event-Keeps loop none k db st script sent r = k db st script sent r
      handle_event-Keeps loop (some NextEvent.interrupt) k db st script sent r =
          (st, script, sent, refl, r)
      handle_event-Keeps loop (some (NextEvent.accept client)) k db st script sent r =
          served-Keeps loop db _ k (serves db st client [] r)
      handle_event-Keeps loop (some NextEvent.perform_fmd) k db st script sent r =
          detected-Keeps loop _ k (detects db st script sent r)

      -- What clients, rounds of detection and the fetch job all leave, the main loop keeps.
      pub serve-Keeps :
          (turns : List (Turn e q get_quote from_slice host_uuid fetch_error AcceptError))
          → All FetchesKeeping turns
          → Keeps (serve e q get_quote from_slice host_uuid fetch_error AcceptError turns)
      unfolding serve
      serve-Keeps [] f db st script sent r = (st, script, sent, refl, r)
      serve-Keeps (turn ∷ turns) f db st script sent r =
          handle_event-Keeps
            (serve e q get_quote from_slice host_uuid fetch_error AcceptError turns)
            (poll turn.query) (serve-Keeps turns f.1) (turn.fetched db) st script sent (f.0 db st r)
