-- ===== src/Fetcher/Run.antt =====
-- host/src/db/fetch.rs, `Fetcher::run`: one call of `sync` after another.
pub mod UpTo
use kassandra_service.Common.{ℕ, ◌^◌, ◌<◌, ◌≡◌, false, List, [], ◌∷◌, ◌++◌, Option, none, some, ok}
use kassandra_service.Ranges.{FetchedRanges}
use kassandra_service.Fetcher.{NoteStore, Fetcher, normal}
use kassandra_service.Fetcher.Tasks.{
  System, finished, proceed, break, looping, synced, start, Moves,
}
use kassandra_service.Fetcher.Tasks.Tally.{sent}

-- The ranges in the file, or none yet.
unfoldable saved_ranges :
    {Bytes : Type 0} → (Bytes → Option FetchedRanges) → Option Bytes → Option FetchedRanges
saved_ranges try_from_slice none = some []
saved_ranges try_from_slice (some bytes) = try_from_slice bytes

module _ (n : NoteStore) where
  -- The passes of the loop of `run` that go on to the next, with the tips of the chain and the jobs
  -- of tasks that panicked, the latest first.
  pub data Passes (f : Fetcher n) : List ℕ → List (ℕ × ℕ) → Fetcher n → Type 0 where
    begin : Passes f [] [] f
    caught_up :
        {tips : List ℕ} {lost : List (ℕ × ℕ)} {g : Fetcher n} (latest : ℕ)
        → Passes f tips lost g
        → start n g (some latest) ≡ ok synced
        → Passes f (latest ∷ tips) lost g
    synced_up :
        {tips : List ℕ} {lost : List (ℕ × ℕ)} {g : Fetcher n} (latest : ℕ) (s t : System n)
        → Passes f tips lost g
        → start n g (some latest) ≡ ok (looping s)
        → s.count < 2 ^ 64
        → Moves n s t
        → t.at ≡ finished proceed
        → t.shutdown ≡ false
        → Passes f (latest ∷ tips) (t.panicked ++ lost) t.fetcher

  -- The jobs that are not done when a call of `sync` ends.
  abbrev pub unfinished : System n → List (ℕ × ℕ)
  unfinished t = t.running ++ (sent n t.channel ++ (t.panicked ++ t.stopped))

  -- `run` up to its end: between two calls of `sync`, by the shutdown signal or where the indexer
  -- gives no tip, which changes none of the ranges; or in a call, by the shutdown signal.
  pub data Stopped (f : Fetcher n) : List ℕ → List (ℕ × ℕ) → Fetcher n → Type 0 where
    between :
        {tips : List ℕ} {lost : List (ℕ × ℕ)} {g : Fetcher n}
        → Passes f tips lost g
        → Stopped f tips lost g
    within_sync :
        {tips : List ℕ} {lost : List (ℕ × ℕ)} {g : Fetcher n} (latest : ℕ) (s t : System n)
        → Passes f tips lost g
        → start n g (some latest) ≡ ok (looping s)
        → s.count < 2 ^ 64
        → Moves n s t
        → t.at ≡ finished break
        → Stopped f (latest ∷ tips) (unfinished t ++ lost) t.fetcher

  unfoldable fresh : n.Txs → ℕ → Option FetchedRanges → Option (Fetcher n)
  fresh conn max_wal_size none = none
  fresh conn max_wal_size (some fetched_ranges) = some (record {
    fetched = fetched_ranges;
    conn = record { conn = conn; wal = n.empty; max_wal_size = max_wal_size };
    interrupt_flag = false;
    state = normal;
    synced_to = 1;
  })

  -- `Fetcher::new`, with the bytes of `fetcher.dat` if it can be read: `none` where they cannot be
  -- deserialized. The watch channel holds 1 at first.
  unfoldable pub new :
      {Bytes : Type 0}
      → (Bytes → Option FetchedRanges)
      → Option Bytes
      → n.Txs
      → ℕ
      → Option (Fetcher n)
  unfolding saved_ranges fresh
  new try_from_slice file conn max_wal_size =
      fresh conn max_wal_size (saved_ranges try_from_slice file)

  unfoldable pub save : {Bytes : Type 0} → (FetchedRanges → Bytes) → Fetcher n → Bytes
  save serialize_to_vec self = serialize_to_vec self.fetched
