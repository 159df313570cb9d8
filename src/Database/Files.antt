-- ===== src/Database/Files.antt =====
-- host/src/db.rs, `DB::new`: the files of the host, which it creates or opens, and the UUID that it
-- keeps in one of them. SQLite's statements may fail.
pub mod Restart
pub mod Starts
use kassandra_service.Common.{Bool, true, false, List, [], ◌∷◌, Option, none, some}
use kassandra_service.External.{External}
use kassandra_service.Database.{Sql}
use Prim.Native.String.{String}

-- What the statements that follow say, and the files. A statement of which nothing is said succeeds;
-- `none` is an error, which is passed on, and the files stay as they are then.
abbrev pub Attempt : Type 0 → Type 0 → Type 0
Attempt F A = List Bool → F → F × List Bool × Option A

unfoldable pub resume :
    {F A B : Type 0} → (A → Attempt F B) → F × List Bool × Option A → F × List Bool × Option B
resume f (files, script, none) = (files, script, none)
resume f (files, script, some a) = f a script files

infixl 5 ◌>>=◌
unfoldable pub ◌>>=◌ : {F A B : Type 0} → Attempt F A → (A → Attempt F B) → Attempt F B
unfolding resume
(m >>= f) script files = resume f (m script files)

abbrev pub return : {F A : Type 0} → A → Attempt F A
return a script files = (files, script, some a)

abbrev pub fail : {F A : Type 0} → Attempt F A
fail script files = (files, script, none)

-- A statement, with what it does to the files.
unfoldable pub execute : {F : Type 0} → (F → F) → Attempt F (Unit {0})
execute change [] files = (change files, [], some tt)
execute change (true ∷ script) files = (change files, script, some tt)
execute change (false ∷ script) files = (files, script, none)

module _ (e : External) (q : Sql e) where
  -- `masp.db3`, with the table `Txs` once it is created.
  pub record MaspFile : Type 0 where
    pub txs : Option q.Txs

  -- `fmd.db3`, with the tables `Indices` and `UUID` once they are created.
  pub record FmdFile : Type 0 where
    pub indices : Option q.Indices
    pub uuids : Option (List String)

  pub record Files : Type 0 where
    pub masp : Option MaspFile
    pub fmd : Option FmdFile

  -- The tables of a file that may not be there yet.
  unfoldable pub with_fmd : (FmdFile → FmdFile) → Files → Files
  with_fmd change files = elim files.fmd [
    | none ↦ files
    | some file ↦ record files { fmd = some (change file) }
  ]

  module _ (no_txs : q.Txs) (no_indices : q.Indices) where
    -- `Connection::open` creates the file that it does not find.
    unfoldable pub open_masp : Option MaspFile → Attempt Files (Unit {0})
    open_masp none = do
      _ ← execute (λ files. record files { masp = some (record { txs = none }) })
      execute (λ files. record files { masp = some (record { txs = some no_txs }) })
    open_masp (some file) = execute (λ files. files)

    module _ {Uuid : Type 0} (from_str : String → Option Uuid) (to_string : Uuid → String) where
      -- The first row, if there is a table and it has one, and the parsing of its text.
      unfoldable pub first_uuid : Option (List String) → Attempt Files Uuid
      first_uuid (some (text ∷ rest)) = elim (from_str text) [
        | none ↦ fail
        | some uuid ↦ return uuid
      ]
      first_uuid (some []) = fail
      first_uuid none = fail

      -- `fresh` is the UUID that is drawn if there is no file.
      unfoldable pub open_fmd : Uuid → Option FmdFile → Attempt Files Uuid
      open_fmd fresh none = do
        _ ← execute (λ files. record files { fmd = some (record { indices = none; uuids = none }) })
        _ ← execute (with_fmd (λ file. record file { indices = some no_indices }))
        _ ← execute (with_fmd (λ file. record file { uuids = some [] }))
        _ ← execute (with_fmd (λ file. record file { uuids = some (to_string fresh ∷ []) }))
        return fresh
      open_fmd fresh (some file) = do
        -- The connection, and the query.
        _ ← execute (λ files. files)
        _ ← execute (λ files. files)
        first_uuid file.uuids

      unfoldable pub new : Uuid → Attempt Files Uuid
      new fresh script files =
          (open_masp files.masp >>= λ opened. open_fmd fresh files.fmd) script files

      -- One start of the host after another, each with a UUID that it may draw and what its
      -- statements say: the UUIDs that they come to.
      unfoldable pub starts : List (Uuid × List Bool) → Files → List (Option Uuid)
      starts [] files = []
      starts ((fresh, script) ∷ rest) files =
          let (files', script', result) = new fresh script files in result ∷ starts rest files'
