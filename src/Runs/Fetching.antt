-- ===== src/Runs/Fetching.antt =====
-- The fetcher, with notes that are numbers.
use kassandra_service.Common.{
  ℕ, ◌≤◌, ◌≡◌, ◌&&◌, ◌||◌, ◌⊎◌, not, Bool, true, false, refl, List, [], ◌∷◌, ok, none, leb, arith,
}
use kassandra_service.Ranges.{first, insert, blocks_left_to_fetch}
use kassandra_service.Ranges.Cover.{IsRanges, covers}
use kassandra_service.Ranges.Left.{bit, load}
use kassandra_service.Fetcher.{
  plan, batches, Fetcher, FetcherState, fetched, handle_fetched, drop, extend,
}
use kassandra_service.Fetcher.Plan.{plan-load}
use kassandra_service.Fetcher.Progress.{Sync, Step, fetches, IsAccounted}
use kassandra_service.Fetcher.Storage.{
  holds, handle_fetched-drop, announced_before_stored, announced_before_fetched,
}
use kassandra_service.Runs.{notes, notes-IsNoteStore}

abbrev one : List ℕ
one = 1 ∷ 7 ∷ []

one-IsRanges : IsRanges one
one-IsRanges = (omega arith, omega arith, omega arith, tt)

first_eight : first one ≡ ok 8
unfolding first
first_eight = refl

plan-load_example :
    (jobs : List (ℕ × ℕ)) × (plan one 50 ≡ ok jobs)
    × ((h : ℕ) → load jobs h ≡ bit (leb 8 h && leb h 50 && not (covers one h)))
plan-load_example = plan-load one 8 50 one-IsRanges first_eight (omega arith)

abbrev pub new_fetcher : Fetcher notes
new_fetcher = record {
  fetched = [];
  conn = record { conn = []; wal = []; max_wal_size = 10 };
  interrupt_flag = false;
  state = FetcherState.normal;
  synced_to = 0;
}

abbrev begun : Sync notes
begun = record { fetcher = new_fetcher; pending = (3, 5) ∷ [] }

abbrev ended : Sync notes
ended = record {
  fetcher = record new_fetcher {
    fetched = 3 ∷ 5 ∷ [];
    synced_to = 5;
    conn = record { conn = []; wal = 34 ∷ []; max_wal_size = 10 };
  };
  pending = [];
}

abbrev three_to_five : ℕ → Bool
three_to_five h = leb 3 h && leb h 5

begun-IsAccounted : IsAccounted notes three_to_five begun
unfolding covers
begun-IsAccounted = record {
  ranges = tt;
  jobs = ((omega arith, omega arith, omega arith), tt);
  accounts = λ h. ground arith;
  running = refl;
}

answered : handle_fetched notes new_fetcher (fetched 3 5 (34 ∷ [])) ≡ ok (ended.fetcher, none)
unfolding handle_fetched insert first extend
answered = refl

begun-ended : Step notes begun ended
begun-ended = fetches [] [] 3 5 (34 ∷ []) none refl answered refl

handle_fetched-drop_example :
    ((notes.prepare ended.fetcher.conn.conn ≡ true)
      × (notes-IsNoteStore.has_row (34 ∷ []) 34
          ≡ holds notes notes-IsNoteStore new_fetcher.conn 34
            || notes-IsNoteStore.has_item (34 ∷ []) 34))
    ⊎ ((notes.prepare ended.fetcher.conn.conn ≡ false) × (34 ∷ [] ≡ ended.fetcher.conn.conn))
unfolding drop
handle_fetched-drop_example =
    handle_fetched-drop notes notes-IsNoteStore new_fetcher ended.fetcher 3 5 (34 ∷ []) none
      (34 ∷ []) 34 answered refl

abbrev pub first_blocks : Fetcher notes
first_blocks = record new_fetcher {
  fetched = 1 ∷ 5 ∷ [];
  synced_to = 5;
  conn = record { conn = []; wal = 34 ∷ []; max_wal_size = 10 };
}

first_answered : handle_fetched notes new_fetcher (fetched 1 5 (34 ∷ [])) ≡ ok (first_blocks, none)
unfolding handle_fetched insert first extend
first_answered = refl

announced_before_stored_example :
    (first_blocks.synced_to ≡ 5) × (first_blocks.conn.conn ≡ new_fetcher.conn.conn)
announced_before_stored_example =
    announced_before_stored notes new_fetcher first_blocks 5 (34 ∷ []) none refl (omega arith)
      (omega arith) (omega arith) first_answered

announced_before_fetched_example : (2 ≤ 5) × (covers (3 ∷ 5 ∷ []) 2 ≡ false)
announced_before_fetched_example =
    announced_before_fetched notes new_fetcher ended.fetcher 3 5 (34 ∷ []) none 2 refl (omega arith)
      (omega arith) (omega arith) (omega arith) answered

-- From no blocks at all, with the tip at block 5.
abbrev spawned : Sync notes
spawned = record { fetcher = new_fetcher; pending = (1, 5) ∷ [] }

abbrev caught_up : Sync notes
caught_up = record { fetcher = first_blocks; pending = [] }

spawned_plan : plan [] 5 ≡ ok ((1, 5) ∷ [])
unfolding plan batches blocks_left_to_fetch first
spawned_plan = refl

pub first_block : first [] ≡ ok 1
unfolding first
first_block = refl
