-- ===== src/Client/Query/Exact.antt =====
-- What a client reads behind a round of detection, told by the chain.
use kassandra_service.Common.{
  ℕ, zero, suc, ◌+◌, ◌≡◌, refl, ◌∙◌, ap, inl, inr, true, List, [], ◌∷◌, ◌++◌, map, some, ok, All,
  All-append, length, ltb, Bool-cases, List-cases,
}
use kassandra_service.External.{External, IsAead}
use kassandra_service.Index.{IsIndex}
use kassandra_service.IndexSet.{IndexSet, hash, next, matches}
use kassandra_service.IndexSet.Round.{Keys, Flags, advanced, Answers, Refused}
use kassandra_service.Messages.{Result, EncryptedResponse, ServerMsg}
use kassandra_service.Ratls.{FmdKeyRegistration}
use kassandra_service.Enclave.{State, birthday_or_one}
use kassandra_service.Database.{Sql, IsKeyed, Db, update_indices, fetch_indices, synced_height}
use kassandra_service.Host.{FromClient, flags_of, sort, dedup}
use kassandra_service.Host.Session.{World, finished}
use kassandra_service.Host.Detection.{round, round_lem}
use kassandra_service.Host.Detection.Heights.{among, heights_empty}
use kassandra_service.Host.Detection.Matches.{matching, IsView}
use kassandra_service.Host.Detection.Onward.{
  Exact, passed, onward, onward-Exact, advanced-onward, own_asked,
}
use kassandra_service.Client.Query.{query_service}
use kassandra_service.Client.Query.Found.{IsOther, query-round}
use Prim.Native.String.{String}

module _ (e : External) (chain : ℕ → Flags e) where
  -- The transactions of the chain stand at machine words.
  abbrev pub IsWords : Type 0
  IsWords = (h : ℕ) → All (λ r. IsIndex r.0) (chain h)

  matching-IsIndex :
      (key : e.DetectionKey) (flags : Flags e)
      → All (λ r. IsIndex r.0) flags
      → All IsIndex (matching e key flags)
  unfolding matching
  matching-IsIndex key [] w = tt
  matching-IsIndex key ((ix, flag) ∷ r) w = elim (Bool-cases (matches e key flag)) [
    | inl p ↦ rw p (w.0, matching-IsIndex key r w.1)
    | inr p ↦ rw p (matching-IsIndex key r w.1)
  ]

  passed-IsIndex :
      IsWords → (key : e.DetectionKey) (start n : ℕ) → All IsIndex (passed e chain key start n)
  unfolding passed
  passed-IsIndex w key start zero = tt
  passed-IsIndex w key start (suc n) =
      All-append IsIndex (passed e chain key start n) (matching e key (chain (start + suc n)))
        (passed-IsIndex w key start n)
        (matching-IsIndex key (chain (start + suc n)) (w (start + suc n)))

  -- Nonces are drawn with the length that was asked for.
  abbrev pub IsRandom : Type 0
  IsRandom = (n : ℕ) (rng : e.Rng) → length (e.fill_bytes n rng).0 ≡ n

  answered_nonces :
      IsRandom
      → (n : ℕ) (flags : Flags e) (keys : Keys e) (before after : List EncryptedResponse)
      → All (λ r. length r.nonce ≡ 12) before
      → Answers e n flags keys before after
      → All (λ r. length r.nonce ≡ 12) after
  answered_nonces law n flags [] before after b a = rw a b
  answered_nonces law n flags ((key, set) ∷ keys) before after b a =
      elim (Bool-cases (ltb set.synced_to n)) [
        | inr synced ↦ answered_nonces law n flags keys before after b (rw synced at a)
        | inl behind ↦
            let (x, rng, drawn, owner, height, sealed, rest) = rw behind at a in
            answered_nonces law n flags keys (before ++ x ∷ []) after
              (All-append (λ r. length r.nonce ≡ 12) before (x ∷ []) b (rw drawn (law 12 rng), tt))
              rest
      ]

  paired : {A B : Type 0} (x : A × B) (a : A) (b : B) → x.0 ≡ a → x.1 ≡ b → x ≡ (a, b)
  paired x a b p q = rw (← p, ← q) refl

  module _ (q : Sql e) (get_quote : List ℕ → List ℕ)
      (from_slice : List ℕ → Result (FmdKeyRegistration e) e.CborError) (db : Db e q) (rng : e.Rng)
      (keys : Keys e) (script : List (FromClient e)) (sent : List ServerMsg) where
    abbrev pub registered : State e
    registered = record { rng = rng; registered_keys = keys }

    -- A round that the host finishes, with no key that the cipher refuses, stored what the enclave
    -- answered.
    round_stored :
        (x : FmdKeyRegistration e × IndexSet) (flags : Flags e) (db' : Db e q)
        (w : World e get_quote from_slice)
        → among (next x.1) (map (λ k. next k.1) keys) ≡ true
        → flags_of e q db (dedup (sort (map (λ k. next k.1) keys))) ≡ ok flags
        → ¬ Refused e (synced_height e q db) flags keys
        → round e q get_quote from_slice db registered script sent ≡ finished db' w
        → (after : List EncryptedResponse) × Answers e (synced_height e q db) flags keys [] after
          × (update_indices e q db after ≡ (db', true))
    round_stored x flags db' w asked f taken done =
        elim (List-cases (dedup (sort (map (λ k. next k.1) keys)))) [
          | inl p ↦ cc (rw (heights_empty (map (λ k. next k.1) keys) p) at asked)
          | inr (h, hs, p) ↦
              elim (round_lem e q get_quote from_slice db registered script sent h hs flags p f).1 [
                | inl (refused, t) ↦ absurd (taken refused)
                | inr (after, a, inl (stored, t)) ↦
                    (after, a, paired (update_indices e q db after) db' true (cc) stored)
                | inr (after, a, inr (failed, t)) ↦ cc
              ]
        ]

  -- After a round that the host finishes, none of whose keys the cipher refuses, over tables that are
  -- a view of the chain, a client whose key was behind with an exact set, and shares its hash with
  -- no key registered later, reads from the row that the host finds for it the matches of the chain
  -- for its key at all heights above its birthday, up to the one behind the height that the key had
  -- reached. It is assumed that nonces are drawn with their length.
  pub query-Exact :
      (q : Sql e) (get_quote : List ℕ → List ℕ)
      (from_slice : List ℕ → Result (FmdKeyRegistration e) e.CborError) (front back : Keys e)
      (key : FmdKeyRegistration e) (set : IndexSet) (flags : Flags e) (db db' : Db e q)
      (rng : e.Rng) (script : List (FromClient e)) (sent : List ServerMsg)
      (w : World e get_quote from_slice) (uuid : String)
      → IsAead e
      → IsRandom
      → IsKeyed e q
      → IsWords
      → IsView e q chain db
      → Exact e chain (key, set)
      → ltb set.synced_to (synced_height e q db) ≡ true
      → All (IsOther e (synced_height e q db) flags (hash e key.enc_key)) back
      → flags_of e q db (dedup (sort (map (λ k. next k.1) (front ++ (key, set) ∷ back)))) ≡ ok flags
      → ¬ Refused e (synced_height e q db) flags (front ++ (key, set) ∷ back)
      → round e q get_quote from_slice db
          (registered q get_quote from_slice db rng (front ++ (key, set) ∷ back) script sent)
          script
          sent
        ≡ finished db' w
      → (n : ℕ) × (set.synced_to + 1 ≡ birthday_or_one key.birthday + n)
        × (r : EncryptedResponse) × (fetch_indices e q db' (hash e key.enc_key) ≡ ok (some r))
        × (query_service e uuid key.enc_key (Result.ok (ServerMsg.indices_response r))
            ≡ Result.ok (passed e chain key.fmd_key (birthday_or_one key.birthday) n))
  unfolding onward
  query-Exact q get_quote from_slice front back key set flags db db' rng script sent w uuid aead law
        keyed words view exact behind o f taken done =
      let asked = own_asked e chain front (key, set) back in
      let (after, a, u) =
        round_stored q get_quote from_slice db rng (front ++ (key, set) ∷ back) script sent
          (key, set) flags db' w asked f taken done in
      let own : advanced e (synced_height e q db) flags (key, set)
          ≡ onward e chain (synced_height e q db) (key, set) =
        advanced-onward e chain q db view (map (λ k. next k.1) (front ++ (key, set) ∷ back)) flags f
          (key, set) asked in
      let (n, level, found) = onward-Exact e chain (synced_height e q db) (key, set) exact in
      let holds : (advanced e (synced_height e q db) flags (key, set)).1.indices
          ≡ passed e chain key.fmd_key (birthday_or_one key.birthday) n =
        ap (λ k. k.1.indices) own ∙ rw behind (rw behind at found) in
      let (r, row, read) =
        query-round e (synced_height e q db) flags q front back key set after db db' uuid aead keyed
          behind o a u
          (answered_nonces law (synced_height e q db) flags (front ++ (key, set) ∷ back) [] after tt
            a)
          (rw holds (passed-IsIndex words key.fmd_key (birthday_or_one key.birthday) n)) in
      (n, rw behind at level, r, row, read ∙ ap Result.ok holds)
