-- ===== src/Fetcher/Done.antt =====
-- One call of `sync`: from the jobs that it spawns to the ranges when all are done.
use kassandra_service.Common.{
  ℕ, zero, suc, ◌+◌, ◌-◌, ◌%◌, ◌^◌, ◌≤◌, ◌<◌, ◌≡◌, sym, ◌∙◌, not, ◌&&◌, ◌||◌, List, [], ◌∷◌, ltb,
  leb, min, arith, ok, All, All-append, Outcome-cases, value_unique, Bool-cases, inl, inr,
}
use kassandra_service.Ranges.{FetchedRanges, first, blocks_left_to_fetch}
use kassandra_service.Ranges.Cover.{IsRanges, covers}
use kassandra_service.Ranges.First.{first_uncovered}
use kassandra_service.Ranges.Left.{bit, load}
use kassandra_service.Ranges.Intervals.{IsInterval, same_intervals, blocks_left_to_fetch-IsInterval}
use kassandra_service.Fetcher.{NoteStore, batch_size, batches, plan, normal}
use kassandra_service.Fetcher.Plan.{plan-load}
use kassandra_service.Fetcher.Progress.{Sync, Steps, IsJob, Steps-done}

batches-IsInterval :
    (n : ℕ) (l : FetchedRanges) (from latest : ℕ) (jobs : List (ℕ × ℕ))
    → batches n l from latest ≡ ok jobs
    → All IsInterval jobs
unfolding batches
batches-IsInterval zero l from latest jobs e = same_intervals e tt
batches-IsInterval (suc n) l from latest jobs e = elim (Bool-cases (ltb latest from)) [
  | inl past ↦ same_intervals (rw (batches, past) at e) tt
  | inr more ↦
      let to = min ((from + batch_size + 2 ^ 64 - 1) % 2 ^ 64) latest in
      elim (Outcome-cases (blocks_left_to_fetch l from to)) [
        | inl p ↦ cc (rw (batches, more, p) at e)
        | inr (left, p) ↦ elim (Outcome-cases (batches n l (from + batch_size) latest)) [
          | inl q ↦ cc (rw (batches, more, p, q) at e)
          | inr (rest, q) ↦ same_intervals (rw (batches, more, p, q) at e) (
              All-append IsInterval left rest (blocks_left_to_fetch-IsInterval l from to left p)
                (batches-IsInterval n l (from + batch_size) latest rest q))
        ]
      ]
]

pub plan-IsInterval :
    (l : FetchedRanges) (from latest : ℕ) (jobs : List (ℕ × ℕ))
    → first l ≡ ok from
    → plan l latest ≡ ok jobs
    → All IsInterval jobs
unfolding plan
plan-IsInterval l from latest jobs f e = elim (Bool-cases (ltb latest from)) [
  | inl past ↦ same_intervals (rw (f, past) at e) tt
  | inr more ↦ batches-IsInterval (latest + 1 - from) l from latest jobs (rw (f, more) at e)
]

pub load-IsJob :
    (jobs : List (ℕ × ℕ))
    → All IsInterval jobs
    → ((h : ℕ) → 1 ≤ load jobs h → (1 ≤ h) × (h + 1 < 2 ^ 64))
    → (n : NoteStore) → All (IsJob n) jobs
load-IsJob [] i p n = tt
load-IsJob ((a, b) ∷ r) i p n = (
  ((p a (ground (arith, i.0))).0, i.0, (p b (ground (arith, i.0))).1),
  load-IsJob r i.1 (λ h q. p h (omega arith)) n,
)

module _ (n : NoteStore) where
  -- From ranges in order, in a fetcher that is not interrupted, with the jobs of one call of
  -- `sync` pending and the tip more than 30 blocks below 2 ^ 64: whatever the order in which the
  -- tasks answer, and however often they fail and are tried again, once no job is left, the
  -- heights fetched are those fetched before and those from `first` to the tip.
  pub sync_done :
      (s t : Sync n) (from latest : ℕ)
      → IsRanges s.fetcher.fetched
      → s.fetcher.state ≡ normal
      → first s.fetcher.fetched ≡ ok from
      → latest + batch_size < 2 ^ 64
      → plan s.fetcher.fetched latest ≡ ok s.pending
      → Steps n s t
      → t.pending ≡ []
      → (h : ℕ)
      → covers t.fetcher.fetched h ≡ covers s.fetcher.fetched h || (leb from h && leb h latest)
  sync_done s t from latest r run f small p w none_left =
      let l = s.fetcher.fetched in
      let goal = λ (h : ℕ). covers l h || (leb from h && leb h latest) in
      let (jobs, e, w') = plan-load l from latest r f small in
      let same : jobs ≡ s.pending = value_unique (sym e ∙ p) in
      let count : (h : ℕ)
          → load s.pending h ≡ bit (leb from h && leb h latest && not (covers l h)) =
        λ h. rw same at (w' h) in
      Steps-done n goal s t
        (record {
          ranges = r;
          jobs =
              load-IsJob s.pending (plan-IsInterval l from latest s.pending f p)
                (λ h q. ground (arith, count h, (first_uncovered l from r f).0)) n;
          accounts = λ h. ground (arith, count h);
          running = run;
        })
        w none_left
