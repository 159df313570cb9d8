-- ===== src/Runs/Detecting.antt =====
-- Rounds of detection over a chain with one transaction, at height 4, and what a client reads.
use kassandra_service.Common.{
  ℕ, zero, suc, ◌+◌, ◌≡◌, length, inl, inr, refl, true, false, List, [], ◌∷◌, none, some, ok, map,
  ◌==◌, ==_iff, sym, if◌then◌else◌, All, arith, Bool-cases, replicate, value_unique, ◌∙◌,
}
use kassandra_service.Scheduler.{poll}
use kassandra_service.Index.{Index}
use kassandra_service.IndexSet.{
  IndexSet, check_flags, check_loop, check_key, hash, index_bytes, next,
}
use kassandra_service.IndexSet.Round.{Flags, advanced, Refused}
use kassandra_service.Messages.{Result, EncryptedResponse, ServerMsg}
use kassandra_service.Ratls.{FmdKeyRegistration}
use kassandra_service.Process.{settle}
use kassandra_service.Enclave.{State, handle, birthday_or_one}
use kassandra_service.Database.{
  Db, read_rows, get_height, update_indices, fetch_indices, synced_height,
}
use kassandra_service.Host.{handle_fmd, flags_of, sort, dedup}
use kassandra_service.Host.Session.{World, finished, exec, idle}
use kassandra_service.Host.Detection.{round}
use kassandra_service.Host.Detection.Matches.{IsView}
use kassandra_service.Host.Detection.Onward.{Exact, passed}
use kassandra_service.Host.Serve.{Turn, serve}
use kassandra_service.Host.Serve.CatchUp.{caught_up, serve-catches_up}
use kassandra_service.Client.Query.{query_service}
use kassandra_service.Client.Query.Exact.{IsWords, query-Exact}
use kassandra_service.Runs.{plain, plain-IsAead, rows, rows-IsKeyed}
use kassandra_service.Runs.Sessions.{from_slice, quote}

abbrev chain : ℕ → Flags plain
chain h = if 4 == h then (record { height = h; tx = 0 }, none) ∷ [] else []

abbrev synced_db : Db plain rows
synced_db = record { masp = 4; fmd = []; synced_to = some 5 }

reads_chain : (h : ℕ) → get_height plain rows synced_db h ≡ ok (chain h)
unfolding get_height read_rows
reads_chain h = elim (Bool-cases (4 == h)) [ inl p ↦ rw p refl | inr p ↦ rw p refl ]

chain_dated : (h : ℕ) → All (λ r. r.0.height ≡ h) (chain h)
chain_dated h = elim (Bool-cases (4 == h)) [ inl p ↦ rw p (refl, tt) | inr p ↦ rw p tt ]

synced-IsView : IsView plain rows chain synced_db
unfolding synced_height
synced-IsView = record {
  dated = λ h flags g.
      let p : chain h ≡ flags = value_unique (sym (reads_chain h) ∙ g) in rw p at (chain_dated h);
  whole = λ h flags l g. value_unique (sym g ∙ reads_chain h);
  word = omega arith;
}

abbrev key : FmdKeyRegistration plain
key = record { fmd_key = 5; enc_key = 7 ∷ []; birthday = some 3 }

abbrev set : IndexSet
set = record { synced_to = 3; indices = [] }

abbrev registered : State plain
registered = record { rng = 4; registered_keys = (key, set) ∷ [] }

set-Exact : Exact plain chain (key, set)
unfolding birthday_or_one passed
set-Exact = (0, refl, refl)

abbrev detect : Turn plain rows quote from_slice "uuid" "error" ℕ
detect = record {
  query = record { dropped = false; accepted = none; timeout = true };
  fetched = λ d. d;
}

serve-catches_up_example :
    (db' : Db plain rows) × (st' : State plain) × (serve plain rows quote from_slice "uuid" "error"
        ℕ
        (detect ∷ detect ∷ [])
        synced_db
        (idle plain quote from_slice registered [] [])
      ≡ finished db' (idle plain quote from_slice st' [] []))
    × (st'.registered_keys ≡ map (caught_up plain chain 5) registered.registered_keys)
unfolding synced_height poll
serve-catches_up_example =
    serve-catches_up plain chain rows quote from_slice "uuid" "error" ℕ 5 (detect ∷ detect ∷ [])
      synced_db registered [] [] (λ t r. (r ∷ t, refl)) ((refl, λ d v. v), ((refl, λ d v. v), tt))
      (synced-IsView, refl, λ h. (chain h, reads_chain h)) (omega arith, tt)

-- The row of height 4.
abbrev flags : Flags plain
flags = chain 4

abbrev reached : List Index
reached = (advanced plain 5 flags (key, set)).1.indices

abbrev sent : EncryptedResponse
sent = record { owner = "01"; nonce = replicate 12 4; indices = index_bytes reached; height = 3 }

chain-IsWords : IsWords plain chain
chain-IsWords h = elim (Bool-cases (4 == h)) [
  | inr p ↦ rw p tt
  | inl p ↦ let four : 4 ≡ h = (==_iff 4 h).0 p in rw p ((omega (arith, four), omega arith), tt)
]

looked_up : flags_of plain rows synced_db (dedup (sort (4 ∷ []))) ≡ ok flags
unfolding flags_of get_height read_rows sort dedup
looked_up = refl

drawn_length : (n x : ℕ) → length (replicate n x) ≡ n
drawn_length zero x = refl
drawn_length (suc n) x = omega (arith, drawn_length n x)

taken : ¬ Refused plain (synced_height plain rows synced_db) flags ((key, set) ∷ [])
taken (inl (behind, rng, refused)) = cc
taken (inr none_left) = none_left

abbrev stored_db : Db plain rows
stored_db = record synced_db { fmd = sent ∷ [] }

ended : World plain quote from_slice
ended =
    idle plain quote from_slice
      (record { rng = 5; registered_keys = map (advanced plain 5 flags) ((key, set) ∷ []) }) [] []

round_ended :
    round plain rows quote from_slice synced_db registered [] [] ≡ finished stored_db ended
unfolding ended exec handle_fmd settle handle get_height next check_flags check_loop synced_height
    check_key update_indices hash advanced
round_ended = refl

query-Exact_example :
    (n : ℕ) × (3 + 1 ≡ 3 + n)
    × (r : EncryptedResponse) × (fetch_indices plain rows stored_db (hash plain (7 ∷ []))
        ≡ ok (some r))
    × (query_service plain "uuid" (7 ∷ []) (Result.ok (ServerMsg.indices_response r))
        ≡ Result.ok (passed plain chain 5 3 n))
unfolding hash synced_height birthday_or_one next
query-Exact_example =
    query-Exact plain chain rows quote from_slice [] [] key set flags synced_db stored_db 4 [] []
      ended "uuid" plain-IsAead drawn_length rows-IsKeyed chain-IsWords synced-IsView set-Exact refl
      tt looked_up taken round_ended
