-- ===== src/Fetcher/Tasks/Answer.antt =====
-- What one message changes, and what the shutdown signal does.
use kassandra_service.Common.{
  ℕ, ◌+◌, ◌≤◌, ◌≡◌, ◌⊎◌, refl, Bool, true, false, [], ◌∷◌, Option, length, ok, arith, inl, inr, All,
  Outcome-cases, value_unique,
}
use mathlib.Core.Path.{subst}
use kassandra_service.Ranges.{first}
use kassandra_service.Ranges.Cover.{IsRanges, covers}
use kassandra_service.Ranges.Left.{bit, load}
use kassandra_service.Fetcher.Progress.{IsJob, insert_job}
use kassandra_service.Fetcher.{
  NoteStore, Fetcher, FetcherState, Fetched, fetched, task_error, normal, interrupted, extend,
  handle_fetched, check_exit_conditions,
}
use kassandra_service.Fetcher.Tasks.{job_of, spawned, given_up}

pub FetcherState-cases : (x : FetcherState) → (x ≡ normal) ⊎ (x ≡ interrupted)
FetcherState-cases normal = inl refl
FetcherState-cases interrupted = inr refl

module _ (n : NoteStore) where
  -- Checking for the signal changes no range, changes nothing before the signal, and interrupts the
  -- fetcher after it.
  pub check_lem :
      (f : Fetcher n) (received : Bool)
      → ((check_exit_conditions n f received).fetched ≡ f.fetched)
        × (received ≡ false → check_exit_conditions n f received ≡ f)
        × (received ≡ true → (check_exit_conditions n f received).state ≡ interrupted)
  unfolding check_exit_conditions
  check_lem f true = elim (FetcherState-cases (f.state)) [
    | inl p ↦ rw (p) (refl, λ q. cc, λ q. refl)
    | inr p ↦ rw (p) (refl, λ q. refl, λ q. refl)
  ]
  check_lem f false = elim (FetcherState-cases (f.state)) [
    | inl p ↦ rw (p) (refl, λ q. refl, λ q. cc)
    | inr p ↦ rw (p) (refl, λ q. refl, λ q. cc)
  ]

  -- What is kept where `x` is what the fetcher `f` makes of a message: the tally, with the jobs of
  -- `rest`, and the state.
  abbrev pub IsAnswer :
      (ℕ → Bool) → Fetcher n → Fetched n → (ℕ → ℕ) → Fetcher n × Option (ℕ × ℕ) → Type 0
  IsAnswer goal f message rest (g, again) =
      IsRanges g.fetched
      × All (IsJob n) (spawned n again)
      × ((h : ℕ)
          → bit (covers g.fetched h)
              + (load (spawned n again) h + (load (given_up n message again) h + rest h))
            ≡ bit (goal h))
      × (length (spawned n again) ≤ 1)
      × (f.state ≡ normal → (g.state ≡ normal) × (given_up n message again ≡ []))
      × (g.interrupt_flag ≡ f.interrupt_flag)

  pub handle_fetched-IsAnswer :
      (goal : ℕ → Bool) (f : Fetcher n) (message : Fetched n) (x : Fetcher n × Option (ℕ × ℕ))
      (rest : ℕ → ℕ)
      → IsRanges f.fetched
      → IsJob n (job_of n message)
      → ((h : ℕ)
          → bit (covers f.fetched h) + (load (job_of n message ∷ []) h + rest h) ≡ bit (goal h))
      → handle_fetched n f message ≡ ok x
      → IsAnswer goal f message rest x
  unfolding handle_fetched
  handle_fetched-IsAnswer goal f (fetched from to items) x rest ranges job count e =
      let (r, e', ranges', count') =
        insert_job goal f.fetched from to rest ranges job (λ h. omega (arith, count h)) in
      elim (Outcome-cases (first r)) [
        | inl p ↦ cc (rw (e', p) at e)
        | inr (y, p) ↦ elim (Outcome-cases (extend n f.conn items)) [
          | inl c ↦ cc (rw (e', p, c) at e)
          | inr (d, c) ↦
              subst (IsAnswer goal f (fetched from to items) rest)
                (value_unique (rw (e', p, c) at e))
                (ranges', tt, λ h. omega (arith, count' h), omega arith, λ q. (q, refl), refl)
        ]
      ]
  handle_fetched-IsAnswer goal f (task_error from to) x rest ranges job count e =
      elim (FetcherState-cases (f.state)) [
        | inl p ↦
            subst (IsAnswer goal f (task_error from to) rest) (value_unique (rw (p) at e))
              (ranges, (job, tt), λ h. omega (arith, count h), omega arith, λ q. (refl, refl), refl)
        | inr p ↦
            subst (IsAnswer goal f (task_error from to) rest) (value_unique (rw (p) at e))
              (ranges, tt, λ h. omega (arith, count h), omega arith, λ q. cc, refl)
      ]
