-- ===== src/Database.antt =====
-- host/src/db.rs: the tables of the host. SQLite and the decoders of its columns are parameters.
pub mod Tables
pub mod Files
use kassandra_service.Common.{
  ℕ, Bool, true, false, List, [], ◌∷◌, Option, none, some, ◌≡◌, Outcome, ok, panic, ◌>>=◌, length,
  ◌==◌, if◌then◌else◌,
}
use kassandra_service.External.{External}
use kassandra_service.Index.{Index}
use kassandra_service.Messages.{EncryptedResponse}
use Prim.Native.String.{String}
use text.Mathlib.Text.{◌==◌ as str_eq}

-- The tables `Txs` and `Indices`, the statements that the host runs, and the decoders of a row.
pub record Sql (e : External) : Type 1 where
  pub Txs : Type 0
  pub Indices : Type 0
  -- SELECT idx, flag FROM Txs WHERE height=?1
  pub select_height : Txs → ℕ → List (List ℕ × String)
  -- INSERT OR REPLACE INTO Indices(nonce, idx_set, owner, height); `none` is an error.
  pub replace : Indices → EncryptedResponse → Option Indices
  -- SELECT owner, nonce, idx_set, height FROM Indices WHERE owner=?1
  pub select_owner : Indices → String → Option EncryptedResponse
  -- Borsh `IndexedTx`, and serde_json `FlagCiphertexts`.
  pub read_index : List ℕ → Option Index
  pub read_flag : String → Option e.FlagCiphertexts

-- `owner` is the primary key: a replaced row is what its owner finds, and no other row changes.
pub record IsKeyed (e : External) (q : Sql e) : Type 0 where
  pub select-replace :
      (t t' : q.Indices) (r : EncryptedResponse) (user : String)
      → q.replace t r ≡ some t'
      → q.select_owner t' user ≡ (if str_eq r.owner user then some r else q.select_owner t user)

module _ (e : External) (q : Sql e) where
  open e use {FlagCiphertexts}

  pub record Db : Type 0 where
    pub masp : q.Txs
    pub fmd : q.Indices
    -- The last value on the channel of the fetch job, if it was started.
    pub synced_to : Option ℕ

  -- A row whose index cannot be read is a panic; an unreadable flag is no flag.
  unfoldable pub read_rows :
      List (List ℕ × String) → Outcome (List (Index × Option FlagCiphertexts))
  read_rows [] = ok []
  read_rows ((idx, flag_str) ∷ r) = elim (q.read_index idx) [
    | none ↦ panic
    | some ix ↦ do rest ← read_rows r; ok ((ix, q.read_flag flag_str) ∷ rest)
  ]

  unfoldable pub get_height : Db → ℕ → Outcome (List (Index × Option FlagCiphertexts))
  unfolding read_rows
  get_height self height = read_rows (q.select_height self.masp height)

  -- The table after the rows that were written, and whether all were.
  unfoldable pub replace_all : q.Indices → List EncryptedResponse → q.Indices × Bool
  replace_all t [] = (t, true)
  replace_all t (r ∷ rs) = elim (q.replace t r) [ none ↦ (t, false) | some t' ↦ replace_all t' rs ]

  unfoldable pub update_indices : Db → List EncryptedResponse → Db × Bool
  unfolding replace_all
  update_indices self new_indices =
      let (t, done) = replace_all self.fmd new_indices in (record self { fmd = t }, done)

  -- `none` is the error of a query that finds no row; a nonce that is not of 12 bytes is a panic.
  unfoldable pub fetch_indices : Db → String → Outcome (Option EncryptedResponse)
  fetch_indices self user = elim (q.select_owner self.fmd user) [
    | none ↦ ok none
    | some r ↦ if length r.nonce == 12 then ok (some r) else panic
  ]

  unfoldable pub synced_height : Db → ℕ
  synced_height self = elim self.synced_to [ none ↦ 1 | some h ↦ h ]
