-- ===== src/Fetcher/Plan.antt =====
-- The jobs that a call of `sync` spawns.
use kassandra_service.Common.{
  ℕ, zero, suc, ◌+◌, ◌-◌, ◌%◌, ◌^◌, min, ◌≤◌, ◌<◌, ◌≡◌, refl, ◌∙◌, not, ◌&&◌, List, [], ◌∷◌, ◌++◌,
  ltb, leb, ok, arith, Bool-cases, inl, inr,
}
use kassandra_service.Ranges.{FetchedRanges, first}
use kassandra_service.Ranges.Cover.{IsRanges, covers}
use kassandra_service.Ranges.First.{first_uncovered}
use kassandra_service.Ranges.Left.{bit, load, blocks_left_to_fetch-load}
use kassandra_service.Fetcher.{batch_size, batches, plan}

pub load-append : (xs ys : List (ℕ × ℕ)) (h : ℕ) → load (xs ++ ys) h ≡ load xs h + load ys h
load-append [] ys h = omega arith
load-append ((a, b) ∷ xs) ys h = omega (arith, load-append xs ys h)

batches-load :
    (n : ℕ) (l : FetchedRanges) (from latest : ℕ)
    → IsRanges l
    → 1 ≤ from
    → latest + batch_size < 2 ^ 64
    → latest + 1 ≤ from + n
    → (jobs : List (ℕ × ℕ)) × (batches n l from latest ≡ ok jobs)
      × ((h : ℕ) → load jobs h ≡ bit (leb from h && leb h latest && not (covers l h)))
unfolding batches
batches-load zero l from latest s p q r = ([], refl, λ h. ground arith)
batches-load (suc n) l from latest s p q r = elim (Bool-cases (ltb latest from)) [
  | inl past ↦ ([], rw (past, batches), λ h. ground arith)
  | inr more ↦
      let to = min ((from + batch_size + 2 ^ 64 - 1) % 2 ^ 64) latest in
      let (left, e, w) = blocks_left_to_fetch-load l from to s p (ground arith) in
      let (rest, e', w') =
        batches-load n l (from + batch_size) latest s (omega arith) q (omega arith) in
      (
        left ++ rest,
        rw (more, batches, e, e'),
        λ h. load-append left rest h ∙ ground (arith, w h, w' h),
      )
]

-- For ranges in order and a tip more than 30 blocks below 2 ^ 64, what `sync` sets out to fetch
-- does not panic, and holds each height from `first` to the tip that is not yet fetched just once,
-- and no other height.
pub plan-load :
    (l : FetchedRanges) (from latest : ℕ)
    → IsRanges l
    → first l ≡ ok from
    → latest + batch_size < 2 ^ 64
    → (jobs : List (ℕ × ℕ)) × (plan l latest ≡ ok jobs)
      × ((h : ℕ) → load jobs h ≡ bit (leb from h && leb h latest && not (covers l h)))
unfolding plan
plan-load l from latest s f q = elim (Bool-cases (ltb latest from)) [
  | inl past ↦ ([], rw (f, past), λ h. ground arith)
  | inr more ↦
      let (jobs, e, w) =
        batches-load (latest + 1 - from) l from latest s (first_uncovered l from s f).0 q
          (omega arith) in
      (jobs, rw (f, more, e), w)
]
