-- ===== src/Client/Query/Found.antt =====
-- From a round of detection over the table of the host to what the client reads.
use kassandra_service.Common.{
  ℕ, ◌≡◌, ◌≢◌, ◌⊎◌, inl, inr, refl, sym, ◌∙◌, true, List, [], ◌∷◌, ◌++◌, Option, none, some, ok,
  All, length, ltb, if◌then◌else◌, Bool-cases,
}
use kassandra_service.External.{External, IsAead}
use kassandra_service.Index.{IsIndex}
use kassandra_service.IndexList.{IndexList}
use kassandra_service.IndexSet.{IndexSet, hash, index_bytes}
use kassandra_service.IndexSet.Round.{Keys, Flags, advanced, Answers}
use kassandra_service.Messages.{Result, EncryptedResponse, ServerMsg}
use kassandra_service.Ratls.{FmdKeyRegistration}
use kassandra_service.Database.{Sql, IsKeyed, Db, update_indices, fetch_indices}
use kassandra_service.Database.Tables.{latest, fetch-update_indices}
use kassandra_service.Client.Query.{query_service}
use kassandra_service.Client.Query.Answer.{query-response}
use Prim.Native.String.{String}
use text.Mathlib.Text.{◌==◌ as str_eq}
use text.Mathlib.TextEquality.{eq_iff}

latest-append :
    (rs : List EncryptedResponse) (r : EncryptedResponse) (user : String)
    (b : Option EncryptedResponse)
    → latest (rs ++ r ∷ []) user b ≡ (if str_eq r.owner user then some r else latest rs user b)
latest-append [] r user b = refl
latest-append (x ∷ rs) r user b =
    latest-append rs r user (if str_eq x.owner user then some x else b)

own_row :
    (rs : List EncryptedResponse) (r : EncryptedResponse) (user : String)
    (b : Option EncryptedResponse)
    → r.owner ≡ user
    → latest (rs ++ r ∷ []) user b ≡ some r
own_row rs r user b own = latest-append rs r user b ∙ rw ((eq_iff r.owner user).1 own) refl

other_row :
    (rs : List EncryptedResponse) (r : EncryptedResponse) (user owner : String)
    (b : Option EncryptedResponse)
    → r.owner ≡ owner
    → owner ≢ user
    → latest (rs ++ r ∷ []) user b ≡ latest rs user b
other_row rs r user owner b same other =
    latest-append rs r user b ∙ elim (Bool-cases (str_eq r.owner user)) [
      | inl own ↦ absurd (other (sym same ∙ (eq_iff r.owner user).0 own))
      | inr differs ↦ rw differs refl
    ]

latest-All :
    (P : EncryptedResponse → Type 0) (rs : List EncryptedResponse) (user : String)
    (b : Option EncryptedResponse) (r : EncryptedResponse)
    → All P rs
    → latest rs user b ≡ some r
    → (b ≡ some r) ⊎ P r
latest-All P [] user b r a e = inl e
latest-All P (x ∷ rs) user b r a e = elim (Bool-cases (str_eq x.owner user)) [
  | inl same ↦ elim (latest-All P rs user (some x) r a.1 (rw same at e)) [
    | inl p ↦ let q : x ≡ r = cc in inr (rw q at a.0)
    | inr p ↦ inr p
  ]
  | inr other ↦ latest-All P rs user b r a.1 (rw other at e)
]

module _ (e : External) (n : ℕ) (flags : Flags e) where
  abbrev pub IsOther : String → FmdKeyRegistration e × IndexSet → Type 0
  IsOther user (key, set) = hash e key.enc_key ≢ user

  latest-others :
      (ks : Keys e) (before after : List EncryptedResponse) (user : String)
      (b : Option EncryptedResponse)
      → All (IsOther user) ks
      → Answers e n flags ks before after
      → latest after user b ≡ latest before user b
  latest-others [] before after user b o a = rw a refl
  latest-others ((key, set) ∷ ks) before after user b o a =
      elim (Bool-cases (ltb set.synced_to n)) [
        | inr synced ↦ latest-others ks before after user b o.1 (rw synced at a)
        | inl behind ↦
            let (x, rng, drawn, owner, height, sealed, rest) = rw behind at a in
            latest-others ks (before ++ x ∷ []) after user b o.1 rest
            ∙ other_row before x user (hash e key.enc_key) b owner o.0
      ]

  query-owned :
      (r : EncryptedResponse) (key : List ℕ) (uuid : String) (l : IndexList)
      → IsAead e
      → r.owner ≡ hash e key
      → All IsIndex l
      → e.encrypt key r.nonce (index_bytes l) ≡ some r.indices
      → query_service e uuid key (Result.ok (ServerMsg.indices_response r)) ≡ Result.ok l
  query-owned r key uuid l aead owner words sealed =
      rw (sym owner) at (query-response e aead uuid key r.nonce r.indices r.height l words sealed)

  latest-own :
      (front back : Keys e) (key : FmdKeyRegistration e) (set : IndexSet)
      (before after : List EncryptedResponse)
      → ltb set.synced_to n ≡ true
      → All (IsOther (hash e key.enc_key)) back
      → Answers e n flags (front ++ (key, set) ∷ back) before after
      → (r : EncryptedResponse) × (r.owner ≡ hash e key.enc_key)
        × (e.encrypt key.enc_key r.nonce (index_bytes (advanced e n flags (key, set)).1.indices)
            ≡ some r.indices)
        × ((b : Option EncryptedResponse) → latest after (hash e key.enc_key) b ≡ some r)
  latest-own [] back key set before after behind o a =
      let (x, rng, drawn, owner, height, sealed, rest) = rw behind at a in
      (
        x,
        owner,
        sealed,
        λ b.
            latest-others back (before ++ x ∷ []) after (hash e key.enc_key) b o rest
            ∙ own_row before x (hash e key.enc_key) b owner,
      )
  latest-own ((k, s) ∷ front) back key set before after behind o a =
      elim (Bool-cases (ltb s.synced_to n)) [
        | inr synced ↦ latest-own front back key set before after behind o (rw synced at a)
        | inl late ↦
            let (x, rng, drawn, owner, height, sealed, rest) = rw late at a in
            latest-own front back key set (before ++ x ∷ []) after behind o rest
      ]

  -- After a round whose results the table took, all their nonces of 12 bytes, a client whose key
  -- was behind, and shares its hash with no key registered later, reads from the row that the host
  -- finds for it the indices that the enclave holds for the key, if they are machine words.
  pub query-round :
      (q : Sql e) (front back : Keys e) (key : FmdKeyRegistration e) (set : IndexSet)
      (after : List EncryptedResponse) (db db' : Db e q) (uuid : String)
      → IsAead e
      → IsKeyed e q
      → ltb set.synced_to n ≡ true
      → All (IsOther (hash e key.enc_key)) back
      → Answers e n flags (front ++ (key, set) ∷ back) [] after
      → update_indices e q db after ≡ (db', true)
      → All (λ r. length r.nonce ≡ 12) after
      → All IsIndex (advanced e n flags (key, set)).1.indices
      → (r : EncryptedResponse) × (fetch_indices e q db' (hash e key.enc_key) ≡ ok (some r))
        × (query_service e uuid key.enc_key (Result.ok (ServerMsg.indices_response r))
            ≡ Result.ok (advanced e n flags (key, set)).1.indices)
  query-round q front back key set after db db' uuid aead keyed behind o a u nonces words =
      let (r, owner, sealed, found) = latest-own front back key set [] after behind o a in
      let twelve : length r.nonce ≡ 12 =
        elim (latest-All (λ r. length r.nonce ≡ 12) after (hash e key.enc_key) none r nonces
          (found none)) [ inl p ↦ cc | inr p ↦ p ] in
      (
        r,
        fetch-update_indices e q keyed db db' after (hash e key.enc_key) r u
            (found (q.select_owner db.fmd (hash e key.enc_key))) twelve,
        query-owned r key.enc_key uuid (advanced e n flags (key, set)).1.indices aead owner words
            sealed,
      )
