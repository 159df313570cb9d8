-- ===== src/Host/Serve/Exact.antt =====
-- What the enclave has found for each key, all through the main loop of the host.
use kassandra_service.Common.{ℕ, List, All}
use kassandra_service.External.{External}
use kassandra_service.Messages.{Result}
use kassandra_service.Ratls.{FmdKeyRegistration}
use kassandra_service.IndexSet.Round.{Flags}
use kassandra_service.Enclave.{State}
use kassandra_service.Database.{Sql, Db}
use kassandra_service.Host.Detection.Matches.{IsView}
use kassandra_service.Host.Detection.Onward.{Exact}
use Prim.Native.String.{String}

module _ (e : External) (q : Sql e) (get_quote : List ℕ → List ℕ)
    (from_slice : List ℕ → Result (FmdKeyRegistration e) e.CborError) (chain : ℕ → Flags e) where
  abbrev pub IsExact : State e → Type 0
  IsExact st = All (Exact e chain) st.registered_keys

  -- The tables are a view of the chain, and each set is exact.
  abbrev pub IsSound : Db e q → State e → Type 0
  IsSound db st = IsView e q chain db × IsExact st
