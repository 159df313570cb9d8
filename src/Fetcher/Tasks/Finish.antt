-- ===== src/Fetcher/Tasks/Finish.antt =====
-- A whole call of `sync`, with its tasks: it never gets stuck, and what it has fetched in the end.
use kassandra_service.Common.{
  ℕ, ◌+◌, ◌^◌, ◌<◌, ◌≡◌, refl, sym, ◌∙◌, Bool, false, not, ◌&&◌, ◌||◌, some, ok, leb, ltb, arith,
  inl, inr, Outcome-cases, Bool-cases, value_unique,
}
use mathlib.Core.Path.{subst}
use kassandra_service.Ranges.{first}
use kassandra_service.Ranges.Cover.{IsRanges, covers}
use kassandra_service.Ranges.First.{first_uncovered}
use kassandra_service.Ranges.Unique.{covers_unique}
use kassandra_service.Ranges.Left.{within, within-load}
use kassandra_service.Fetcher.Plan.{plan-load}
use kassandra_service.Fetcher.Done.{plan-IsInterval, load-IsJob}
use kassandra_service.Fetcher.{NoteStore, batch_size, Fetcher, normal}
use kassandra_service.Fetcher.Tasks.{
  System, finished, proceed, looping, start, spawn, Moves, here, next,
}
use kassandra_service.Fetcher.Tasks.Tally.{IsTallied}
use kassandra_service.Fetcher.Tasks.Loop.{Move-IsTallied}

module _ (n : NoteStore) where
  Moves-IsTallied :
      (goal : ℕ → Bool) (s t : System n) → Moves n s t → IsTallied n goal s → IsTallied n goal t
  Moves-IsTallied goal s t here a = a
  Moves-IsTallied goal s t (next w small m) a =
      Move-IsTallied n goal _ t small m (Moves-IsTallied goal s _ w a)

  -- The blocks that a call of `sync` is to have fetched in the end.
  abbrev pub to_tip : Fetcher n → ℕ → ℕ → ℕ → Bool
  to_tip f from latest h = covers f.fetched h || (leb from h && leb h latest)

  start_inv :
      (f : Fetcher n) (s : System n) (from latest : ℕ)
      → first f.fetched ≡ ok from
      → start n f (some latest) ≡ ok (looping s)
      → spawn n f latest ≡ ok s
  unfolding start
  start_inv f s from latest e p = elim (Bool-cases (ltb latest from)) [
    | inl past ↦ cc (rw (e, past) at p)
    | inr more ↦ elim (Outcome-cases (spawn n f latest)) [
      | inl q ↦ cc (rw (e, more, q) at p)
      | inr (t, q) ↦ cc (rw (e, more, q) at p, q)
    ]
  ]

  start-IsTallied :
      (f : Fetcher n) (s : System n) (from latest : ℕ)
      → IsRanges f.fetched
      → f.state ≡ normal
      → f.interrupt_flag ≡ false
      → first f.fetched ≡ ok from
      → latest + batch_size < 2 ^ 64
      → start n f (some latest) ≡ ok (looping s)
      → s.count < 2 ^ 64
      → IsTallied n (to_tip f from latest) s
  unfolding spawn
  start-IsTallied f s from latest r run flag e small p few =
      let (jobs, q, w) = plan-load f.fetched from latest r e small in
      let s_is = value_unique (rw (q) at (start_inv f s from latest e p)) in
      subst (IsTallied n (to_tip f from latest)) s_is (record {
        ranges = r;
        running_jobs =
            load-IsJob jobs (plan-IsInterval f.fetched from latest jobs e q)
              (λ h d. ground (arith, w h, (first_uncovered f.fetched from r e).0)) n;
        held_jobs = tt;
        sent_jobs = tt;
        accounts = λ h. ground (arith, w h);
        counted = omega arith;
        bounded = rw (sym s_is) at few;
        calm = λ d. (flag, run, refl);
        rests = tt;
      })

  -- In every state that a call of `sync` can reach, from a fetcher that was not interrupted, whose
  -- ranges were in order, with the tip more than 30 blocks below 2 ^ 64 and fewer than 2 ^ 64
  -- tasks alive at a time: each height that was fetched before, or is from `first` to the tip, is
  -- fetched or in just one job, be it at a task, in a message, or given up after a panic or the
  -- shutdown signal; no other height is fetched or in a job; and the counter holds the number of
  -- tasks. Before the signal the fetcher is not interrupted and no job is given up after it; and
  -- where the loop has ended for another reason than the signal, no task runs and no message is
  -- left.
  pub start-Moves-IsTallied :
      (f : Fetcher n) (s t : System n) (from latest : ℕ)
      → IsRanges f.fetched
      → f.state ≡ normal
      → f.interrupt_flag ≡ false
      → first f.fetched ≡ ok from
      → latest + batch_size < 2 ^ 64
      → start n f (some latest) ≡ ok (looping s)
      → s.count < 2 ^ 64
      → Moves n s t
      → IsTallied n (to_tip f from latest) t
  start-Moves-IsTallied f s t from latest r run flag e small p few w =
      Moves-IsTallied (to_tip f from latest) s t w
        (start-IsTallied f s from latest r run flag e small p few)

  -- If `sync` returns that the fetcher is to proceed, from a fetcher that was not interrupted,
  -- whose ranges were in order, with the tip more than 30 blocks below 2 ^ 64 and fewer than 2 ^
  -- 64 tasks alive at a time: in whichever order its tasks ran, answered, failed and were tried
  -- again, the heights fetched are those fetched before and those from `first` to the tip, less
  -- those in the jobs of tasks that panicked.
  pub sync_proceeds :
      (f : Fetcher n) (s t : System n) (from latest : ℕ)
      → IsRanges f.fetched
      → f.state ≡ normal
      → f.interrupt_flag ≡ false
      → first f.fetched ≡ ok from
      → latest + batch_size < 2 ^ 64
      → start n f (some latest) ≡ ok (looping s)
      → s.count < 2 ^ 64
      → Moves n s t
      → t.at ≡ finished proceed
      → (h : ℕ)
      → covers t.fetcher.fetched h
        ≡ (covers f.fetched h || (leb from h && leb h latest)) && not (within t.panicked h)
  sync_proceeds f s t from latest r run flag e small p few w end h =
      let a = start-Moves-IsTallied f s t from latest r run flag e small p few w in
      let (idle, empty, none_stopped) = rw end at a.rests in
      let count = rw (end, idle, empty, none_stopped) at (a.accounts h) in
      ground (arith, count, within-load t.panicked h)

  -- The outcome does not depend on the schedule: two runs of one call of `sync` that both proceed,
  -- and in which tasks panicked with the same jobs, end with the same ranges; from a fetcher that
  -- was not interrupted, whose ranges were in order, with the tip more than 30 blocks below 2 ^ 64
  -- and fewer than 2 ^ 64 tasks alive at a time.
  pub sync_proceeds_same :
      (f : Fetcher n) (s t u : System n) (from latest : ℕ)
      → IsRanges f.fetched
      → f.state ≡ normal
      → f.interrupt_flag ≡ false
      → first f.fetched ≡ ok from
      → latest + batch_size < 2 ^ 64
      → start n f (some latest) ≡ ok (looping s)
      → s.count < 2 ^ 64
      → Moves n s t
      → t.at ≡ finished proceed
      → Moves n s u
      → u.at ≡ finished proceed
      → t.panicked ≡ u.panicked
      → t.fetcher.fetched ≡ u.fetcher.fetched
  sync_proceeds_same f s t u from latest r run flag e small p few w end w' end' same =
      covers_unique 0 t.fetcher.fetched u.fetcher.fetched
        (start-Moves-IsTallied f s t from latest r run flag e small p few w).ranges
        (start-Moves-IsTallied f s u from latest r run flag e small p few w').ranges
        (λ h.
          sync_proceeds f s t from latest r run flag e small p few w end h
          ∙ rw same refl
          ∙ sym (sync_proceeds f s u from latest r run flag e small p few w' end' h))
