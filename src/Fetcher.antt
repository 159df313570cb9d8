-- ===== src/Fetcher.antt =====
-- host/src/db/fetch.rs: the job that downloads transactions, range by range, and stores them.
pub mod Plan
pub mod Progress
pub mod Done
pub mod Storage
pub mod Tasks
pub mod Run
use kassandra_service.Common.{
  ℕ, zero, suc, ◌+◌, ◌-◌, ◌%◌, ◌^◌, min, Bool, true, false, List, [], ◌∷◌, ◌++◌, Option, none, some,
  ltb, leb, if◌then◌else◌, Outcome, ok, panic, ◌>>=◌,
}
use kassandra_service.Ranges.{FetchedRanges, first, insert, blocks_left_to_fetch}

-- `BATCH_SIZE`
abbrev pub batch_size : ℕ
batch_size = 30

-- The jobs that `sync` spawns: the batches of `(from..=latest).step_by(BATCH_SIZE)`, with a round
-- of fuel for each.
unfoldable pub batches : ℕ → FetchedRanges → ℕ → ℕ → Outcome (List (ℕ × ℕ))
batches zero fetched from latest = ok []
batches (suc n) fetched from latest = elim (ltb latest from) [
  | true ↦ ok []
  | false ↦ do
    left ←
        blocks_left_to_fetch fetched from (min ((from + batch_size + 2 ^ 64 - 1) % 2 ^ 64) latest)
    rest ← batches n fetched (from + batch_size) latest
    ok (left ++ rest)
]

-- What one call of `sync` sets out to fetch, if the tip is at `latest`.
unfoldable pub plan : FetchedRanges → ℕ → Outcome (List (ℕ × ℕ))
unfolding batches
plan fetched latest = do
  from ← first fetched
  if ltb latest from then ok [] else batches (latest + 1 - from) fetched from latest

pub data FetcherState : Type 0 where
  normal interrupted : FetcherState

-- The types of the MASP client and of the SQL table, with what the code does with them:
-- `IndexedNoteData` is a map by note index, and the statement, if it can be prepared, inserts one row
-- or fails.
pub record NoteStore : Type 1 where
  pub Entry : Type 0
  pub Wal : Type 0
  pub Txs : Type 0
  pub empty : Wal
  pub extend : Wal → List Entry → Wal
  pub len : Wal → ℕ
  pub entries : Wal → List Entry
  pub prepare : Txs → Bool
  pub insert_row : Txs → Entry → Option Txs

module _ (n : NoteStore) where
  open n use {Entry, Wal, Txs, prepare, insert_row}

  pub record DbConn : Type 0 where
    pub conn : Txs
    pub wal : Wal
    pub max_wal_size : ℕ

  executed : Option Txs → Outcome Txs
  executed none = panic
  executed (some t) = ok t

  -- The loop over the entries of the log, each inserted as a row; what fails is unwrapped.
  unfoldable pub flush : Txs → List Entry → Outcome Txs
  unfolding executed
  flush t [] = ok t
  flush t (x ∷ xs) = do t' ← executed (insert_row t x); flush t' xs

  -- The statement is prepared, or its error unwrapped.
  unfoldable write_out : DbConn → List Entry → Outcome DbConn
  unfolding flush
  write_out self items = elim (prepare self.conn) [
    | false ↦ panic
    | true ↦ do t ← flush self.conn items; ok (record self { conn = t; wal = n.empty })
  ]

  unfoldable pub extend : DbConn → List Entry → Outcome DbConn
  unfolding write_out
  extend self items =
      let wal = n.extend self.wal items in
      if leb self.max_wal_size (n.len wal)
      then write_out self (n.entries wal)
      else ok (record self { wal = wal })

  -- `Drop for DbConn`: what the table holds then. The log is taken first, and lost where the statement
  -- cannot be prepared.
  unfoldable pub drop : DbConn → Outcome Txs
  unfolding flush
  drop self = elim (prepare self.conn) [
    | false ↦ ok self.conn
    | true ↦ flush self.conn (n.entries self.wal)
  ]

  -- `Fetched`: the answer of a task.
  pub data Fetched : Type 0 where
    fetched : ℕ → ℕ → List Entry → Fetched
    task_error : ℕ → ℕ → Fetched

  pub record Fetcher : Type 0 where
    pub fetched : FetchedRanges
    pub conn : DbConn
    pub interrupt_flag : Bool
    pub state : FetcherState
    -- The value of the watch channel.
    pub synced_to : ℕ

  -- Fetch again, unless the job was interrupted.
  retry : FetcherState → ℕ → ℕ → Option (ℕ × ℕ)
  retry normal from to = some (from, to)
  retry interrupted from to = none

  -- The fetcher after a message, and the range of the task that is spawned.
  unfoldable pub handle_fetched : Fetcher → Fetched → Outcome (Fetcher × Option (ℕ × ℕ))
  unfolding retry
  handle_fetched self (fetched from to items) = do
    ranges ← insert self.fetched from to
    height ← first ranges
    conn ← extend self.conn items
    ok (
      record self { fetched = ranges; synced_to = (height + 2 ^ 64 - 1) % 2 ^ 64; conn = conn },
      none,
    )
  handle_fetched self (task_error from to) = ok (self, retry self.state from to)

  interrupt : FetcherState → Bool → Fetcher → Fetcher
  interrupt normal true self = record self { interrupt_flag = true; state = interrupted }
  interrupt _ _ self = self

  -- `received` is the answer of the shutdown signal.
  unfoldable pub check_exit_conditions : Fetcher → Bool → Fetcher
  unfolding interrupt
  check_exit_conditions self received = interrupt self.state received self
