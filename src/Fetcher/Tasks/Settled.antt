-- ===== src/Fetcher/Tasks/Settled.antt =====
-- After a call of `sync` that proceeds there is nothing left to fetch.
use kassandra_service.Common.{
  ℕ, ◌+◌, ◌^◌, ◌<◌, ◌≤◌, ◌≡◌, true, false, ◌&&◌, ◌||◌, [], ◌∷◌, some, ok, leb, ltb, arith,
  Bool-cases, Outcome-cases, inl, inr,
}
use kassandra_service.Ranges.{FetchedRanges, first}
use kassandra_service.Ranges.Cover.{IsRanges, covers, covers_below}
use kassandra_service.Ranges.First.{first_ok, first_uncovered}
use kassandra_service.Fetcher.{NoteStore, batch_size, Fetcher, normal}
use kassandra_service.Fetcher.Tasks.{
  System, finished, proceed, looping, synced, start, spawn, Moves,
}
use kassandra_service.Fetcher.Tasks.Finish.{start-Moves-IsTallied, sync_proceeds}

-- Above `first` are all heights from the end of the first range on.
first_above :
    (l r : FetchedRanges) (from latest h : ℕ)
    → IsRanges l
    → IsRanges r
    → first l ≡ ok from
    → first r ≡ ok h
    → from ≤ latest
    → ((x : ℕ) → covers r x ≡ covers l x || (leb from x && leb x latest))
    → latest < h
unfolding first covers
first_above [] [] from latest h s s' e e' le c = ground (arith, c 1)
first_above [] (a ∷ []) from latest h s s' e e' le c = absurd s'
first_above [] (a ∷ b ∷ r) from latest h s s' e e' le c =
    ground (arith, c h, first_uncovered (a ∷ b ∷ r) h s' e')
first_above (a ∷ []) r from latest h s s' e e' le c = absurd s
first_above (a ∷ b ∷ l) [] from latest h (x, y, z, s) s' e e' le c = ground (arith, c a)
first_above (a ∷ b ∷ l) (a' ∷ []) from latest h s s' e e' le c = absurd s'
first_above (a ∷ b ∷ l) (a' ∷ b' ∷ r) from latest h (x, y, z, s) (x', y', z', s') e e' le c =
    ground (
      arith,
      c h,
      c b',
      (first_uncovered (a' ∷ b' ∷ r) h (x', y', z', s') e').1,
      covers_below 1 (b + 1 + 1) l b' s,
    )

module _ (n : NoteStore) where
  -- Where `sync` goes into its loop, the tip is not below `first`.
  pub begins :
      (f : Fetcher n) (s : System n) (from latest : ℕ)
      → first f.fetched ≡ ok from
      → start n f (some latest) ≡ ok (looping s)
      → from ≤ latest
  unfolding start
  begins f s from latest e p = elim (Bool-cases (ltb latest from)) [
    | inl past ↦ cc (rw (e, past) at p)
    | inr more ↦ ground arith
  ]

  -- Where it does not, the tip is.
  pub caught :
      (f : Fetcher n) (from latest : ℕ)
      → first f.fetched ≡ ok from
      → start n f (some latest) ≡ ok synced
      → latest < from
  unfolding start
  caught f from latest e p = elim (Bool-cases (ltb latest from)) [
    | inl past ↦ ground arith
    | inr more ↦ elim (Outcome-cases (spawn n f latest)) [
      | inl q ↦ cc (rw (e, more, q) at p)
      | inr (s, q) ↦ cc (rw (e, more, q) at p)
    ]
  ]

  -- After a call of `sync` that proceeds without a panic of a task, another one with the same tip
  -- finds that all is synced: from a fetcher that was not interrupted, whose ranges were in order
  -- and end below the greatest u64, with the tip more than 30 blocks below 2 ^ 64 and fewer than 2
  -- ^ 64 tasks alive at a time.
  pub sync_settles :
      (f : Fetcher n) (s t : System n) (from latest : ℕ)
      → IsRanges f.fetched
      → ((h : ℕ) → covers f.fetched h ≡ true → h + 1 < 2 ^ 64)
      → f.state ≡ normal
      → f.interrupt_flag ≡ false
      → first f.fetched ≡ ok from
      → latest + batch_size < 2 ^ 64
      → start n f (some latest) ≡ ok (looping s)
      → s.count < 2 ^ 64
      → Moves n s t
      → t.at ≡ finished proceed
      → t.panicked ≡ []
      → start n t.fetcher (some latest) ≡ ok synced
  unfolding start
  sync_settles f s t from latest r low run flag e small p few w end calm =
      let ranges = (start-Moves-IsTallied n f s t from latest r run flag e small p few w).ranges in
      let same : (h : ℕ)
          → covers t.fetcher.fetched h ≡ covers f.fetched h || (leb from h && leb h latest) =
        λ h. ground (
          arith,
          rw calm at (sync_proceeds n f s t from latest r run flag e small p few w end h),
        ) in
      let (h, q) = first_ok t.fetcher.fetched ranges (λ h d. ground (arith, same h, low h)) in
      let above =
        first_above f.fetched t.fetcher.fetched from latest h r ranges e q
          (begins f s from latest e p) same in
      rw (q) (ground arith)
