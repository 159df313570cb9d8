-- ===== src/Client/Query/Answer.antt =====
-- What the client reads from the answers that the enclave made for its key, and for another.
use kassandra_service.Common.{
  ℕ, ◌≡◌, refl, true, List, [], ◌∷◌, ◌++◌, some, All, inl, inr, Bool-cases, ◌≢◌,
}
use kassandra_service.External.{External, IsAead}
use kassandra_service.Index.{IsIndex}
use kassandra_service.IndexList.{IndexList}
use kassandra_service.IndexSet.{IndexSet, hash, index_bytes, add_result}
use kassandra_service.IndexSet.Codec.{try_from-index_bytes}
use kassandra_service.Messages.{Result, EncryptedResponse, MsgToHost, ServerMsg}
use kassandra_service.Client.Query.{service_error, query_service}
use Prim.Native.String.{String}
use text.Mathlib.Text.{◌==◌ as str_eq}
use text.Mathlib.TextEquality.{eq_iff}

module _ (e : External) where
  -- From the response that the enclave makes of an index list under a key, the client with this
  -- key reads the list.
  pub query-response :
      IsAead e
      → (uuid : String) (key nonce cipher : List ℕ) (height : ℕ) (l : IndexList) → All IsIndex l
      → e.encrypt key nonce (index_bytes l) ≡ some cipher
      → query_service e uuid key (
          Result.ok (
            ServerMsg.indices_response
              (record { owner = hash e key; nonce = nonce; indices = cipher; height = height })))
        ≡ Result.ok l
  unfolding query_service
  query-response aead uuid key nonce cipher height l h sealed =
      let same : str_eq (hash e key) (hash e key) ≡ true =
        (eq_iff (hash e key) (hash e key)).1 refl in
      rw
        (
          same,
          aead.decrypt-encrypt key nonce (index_bytes l) cipher sealed,
          try_from-index_bytes l h,
        )
        refl

  -- If the cipher does not fail and the indices are machine words, `add_result` appends to the
  -- results of a round a response that the client with the same key reads as the indices of the
  -- set.
  pub query-add_result :
      IsAead e
      → (uuid : String) (key nonce cipher : List ℕ) (set : IndexSet)
        (results : List EncryptedResponse)
      → All IsIndex set.indices
      → e.encrypt key nonce (index_bytes set.indices) ≡ some cipher
      → (r : EncryptedResponse) × (add_result e set key nonce (MsgToHost.fmd_results results)
          ≡ some (MsgToHost.fmd_results (results ++ r ∷ [])))
        × (query_service e uuid key (Result.ok (ServerMsg.indices_response r))
            ≡ Result.ok set.indices)
  unfolding add_result
  query-add_result aead uuid key nonce cipher set results h sealed = (
    record { owner = hash e key; nonce = nonce; indices = cipher; height = set.synced_to },
    rw (add_result, sealed) refl,
    query-response aead uuid key nonce cipher set.synced_to set.indices h sealed,
  )

  -- A response whose owner is not the hash of the client's key is refused, whatever it holds.
  pub query-other_owner :
      (uuid : String) (key : List ℕ) (r : EncryptedResponse)
      → r.owner ≢ hash e key
      → query_service e uuid key (Result.ok (ServerMsg.indices_response r))
        ≡ Result.err (service_error uuid "Received response for data owned by a different key")
  unfolding query_service
  query-other_owner uuid key r other = elim (Bool-cases (str_eq r.owner (hash e key))) [
    | inl same ↦ absurd (other ((eq_iff r.owner (hash e key)).0 same))
    | inr differs ↦ rw differs refl
  ]
