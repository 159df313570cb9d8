-- ===== src/IndexSet.antt =====
-- enclave/src/fmd.rs: the index set of a registered key, and one round of detection.
pub mod Codec
pub mod Round
use kassandra_service.Common.{
  ℕ, ◌+◌, ◌%◌, ◌^◌, Bool, true, false, List, [], ◌∷◌, ◌++◌, Option, none, some, ltb, ◌==◌,
  if◌then◌else◌,
}
use kassandra_service.External.{External}
use kassandra_service.Index.{Index, as_bytes}
use kassandra_service.Messages.{EncryptedResponse, MsgToHost}
use Prim.Native.String.{String}
use kassandra_service.Ratls.{FmdKeyRegistration}

pub record IndexSet : Type 0 where
  pub synced_to : ℕ
  pub indices : List Index

-- `Default` and `From<u64>`
abbrev pub default : IndexSet
default = record { synced_to = 1; indices = [] }

unfoldable pub from_height : ℕ → IndexSet
from_height value = record { synced_to = value; indices = [] }

-- Additions on u64 wrap around.
unfoldable pub next : IndexSet → ℕ
next self = (self.synced_to + 1) % 2 ^ 64

unfoldable pub advance : IndexSet → IndexSet
advance self = record self { synced_to = (self.synced_to + 1) % 2 ^ 64 }

unfoldable pub index_bytes : List Index → List ℕ
index_bytes [] = []
index_bytes (ix ∷ r) = as_bytes ix ++ index_bytes r

-- `EncKey::hash` of shared/src/db.rs.
unfoldable pub hash : External → List ℕ → String
hash e key = e.hex_encode (e.sha256 key)

infixl 5 ◌>>=◌
abbrev ◌>>=◌ : {A B : Type 0} → Option A → (A → Option B) → Option B
none >>= f = none
some a >>= f = f a

-- `unreachable!()` is `none`.
unfoldable pub add_response : EncryptedResponse → MsgToHost → Option MsgToHost
add_response r (MsgToHost.error x) = some (MsgToHost.error x)
add_response r (MsgToHost.fmd_results results) = some (MsgToHost.fmd_results (results ++ r ∷ []))
add_response r _ = none

module _ (e : External) where
  open e use {DetectionKey, FlagCiphertexts, Rng, detect, encrypt, fill_bytes}

  unfoldable pub add_result : IndexSet → List ℕ → List ℕ → MsgToHost → Option MsgToHost
  unfolding add_response
  add_result self enc_key nonce msg = elim (encrypt enc_key nonce (index_bytes self.indices)) [
    | none ↦ some (MsgToHost.error e.aead_error)
    | some c ↦
        add_response
          (record { owner = hash e enc_key; nonce = nonce; indices = c; height = self.synced_to })
          msg
  ]

  -- A transaction with no flag is always kept.
  unfoldable pub matches : DetectionKey → Option FlagCiphertexts → Bool
  matches key none = true
  matches key (some flag) = detect key flag

  -- The inner loop: the flags of one height, of those that match the indices.
  unfoldable pub detected : DetectionKey → ℕ → List (Index × Option FlagCiphertexts) → List Index
  unfolding matches
  detected key height [] = []
  detected key height ((ix, flag) ∷ r) =
      let rest = detected key height r in
      if ix.height == height then (if matches key flag then ix ∷ rest else rest) else rest

  -- One registered key that is behind, with the generator and the response so far.
  unfoldable pub check_key :
      FmdKeyRegistration e
      → IndexSet
      → List (Index × Option FlagCiphertexts)
      → Rng
      → MsgToHost
      → IndexSet × Rng × Option MsgToHost
  unfolding detected add_result advance
  check_key key set flags rng response =
      let found = record set {
        indices = set.indices ++ detected key.fmd_key ((set.synced_to + 1) % 2 ^ 64) flags;
      } in
      let (nonce, rng') = fill_bytes 12 rng in
      (advance found, rng', add_result found key.enc_key nonce response)

  -- The outer loop, over the registered keys that have not reached `synced_to`.
  unfoldable pub check_loop :
      List (FmdKeyRegistration e × IndexSet)
      → ℕ
      → List (Index × Option FlagCiphertexts)
      → Rng
      → MsgToHost
      → Option (List (FmdKeyRegistration e × IndexSet) × Rng × MsgToHost)
  check_loop [] synced_to flags rng response = some ([], rng, response)
  check_loop ((key, set) ∷ r) synced_to flags rng response = elim (ltb set.synced_to synced_to) [
    | false ↦ do
      (keys, rng', response') ← check_loop r synced_to flags rng response
      some ((key, set) ∷ keys, rng', response')
    | true ↦ do
      let (set', rng', sent) = check_key key set flags rng response
      response' ← sent
      (keys, rng'', response'') ← check_loop r synced_to flags rng' response'
      some ((key, set') ∷ keys, rng'', response'')
  ]

  unfoldable pub check_flags :
      List (FmdKeyRegistration e × IndexSet)
      → ℕ
      → List (Index × Option FlagCiphertexts)
      → Rng
      → Option (List (FmdKeyRegistration e × IndexSet) × Rng × MsgToHost)
  check_flags keys synced_to flags rng =
      check_loop keys synced_to flags rng (MsgToHost.fmd_results [])
