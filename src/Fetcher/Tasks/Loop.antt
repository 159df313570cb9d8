-- ===== src/Fetcher/Tasks/Loop.antt =====
-- The loop of `sync` keeps the tally of the jobs.
use kassandra_service.Common.{
  ℕ, ◌+◌, ◌%◌, ◌^◌, ◌<◌, ◌≡◌, refl, ◌∙◌, Bool, true, List, [], ◌∷◌, ◌++◌, Option, length,
  length-append, ok, arith, inl, inr, All-append, Outcome-cases, Bool-cases, value_unique,
}
use mathlib.Core.Path.{subst}
use kassandra_service.Ranges.Left.{load}
use kassandra_service.Fetcher.Plan.{load-append}
use kassandra_service.Fetcher.Progress.{IsJob}
use kassandra_service.Fetcher.{NoteStore, Fetcher, Fetched, handle_fetched, check_exit_conditions}
use kassandra_service.Fetcher.Tasks.{
  System, Stage, calling, selecting, polled, drained, handling, finished, proceed, break, spawned,
  given_up, respond, close, flow, LoopMove, interrupts, selects, receives, counts_none, takes,
  misses, handles, closes, Move, task, loop, signal,
}
use kassandra_service.Fetcher.Tasks.Tally.{sent, Rests, IsTallied, TaskMove-IsTallied}
use kassandra_service.Fetcher.Tasks.Answer.{check_lem, handle_fetched-IsAnswer}

length_zero : {xs : List (ℕ × ℕ)} → length xs ≡ 0 → xs ≡ []
length_zero {xs = []} e = refl
length_zero {xs = x ∷ xs} e = absurd (omega arith)

module _ (n : NoteStore) where
  pub respond_inv :
      (s t : System n) (message : Fetched n)
      → respond n s message ≡ ok t
      → (x : Fetcher n × Option (ℕ × ℕ)) × (handle_fetched n
            (check_exit_conditions n s.fetcher s.shutdown)
            message
          ≡ ok x)
        × (record s {
          fetcher = x.0;
          running = s.running ++ spawned n x.1;
          count = (s.count + length (spawned n x.1)) % 2 ^ 64;
          stopped = given_up n message x.1 ++ s.stopped;
          at = calling;
        }
            ≡ t)
  unfolding respond
  respond_inv s t message e =
      elim (Outcome-cases
        (handle_fetched n (check_exit_conditions n s.fetcher s.shutdown) message)) [
          | inl p ↦ cc (rw (p) at e)
          | inr (x, p) ↦ (x, p, value_unique (rw (p) at e))
        ]

  respond-IsTallied :
      (goal : ℕ → Bool) (s t : System n) (message : Fetched n)
      → s.at ≡ handling message
      → s.count + 1 < 2 ^ 64
      → respond n s message ≡ ok t
      → IsTallied n goal s
      → IsTallied n goal t
  respond-IsTallied goal s t message at small e a =
      let (same, before, after) = check_lem n s.fetcher s.shutdown in
      let (x, e', t_is) = respond_inv s t message e in
      let rest = λ (h : ℕ).
        load s.running h + (load (sent n s.channel) h + (load s.panicked h + load s.stopped h)) in
      let (ranges, jobs, count, few, keeps, flag) =
        handle_fetched-IsAnswer n goal (check_exit_conditions n s.fetcher s.shutdown) message x rest
          (rw same a.ranges) (rw at at a.held_jobs).0
          (λ h. rw same (omega (arith, rw at at (a.accounts h)))) e' in
      subst (IsTallied n goal) t_is (record {
        ranges = ranges;
        running_jobs = All-append (IsJob n) s.running (spawned n x.1) a.running_jobs jobs;
        held_jobs = tt;
        sent_jobs = a.sent_jobs;
        accounts = λ h. omega (
          arith,
          count h,
          load-append s.running (spawned n x.1) h,
          load-append (given_up n message x.1) s.stopped h,
        );
        counted = omega (arith, a.counted, few, small, length-append s.running (spawned n x.1));
        bounded = omega (arith, few, small);
        calm = λ q.
            let (no_flag, runs, none_stopped) = a.calm q in
            let (state, none_given) = keeps (rw (before q) runs) in
            (rw (before q) at flag ∙ no_flag, state, rw (none_given, none_stopped) refl);
        rests = tt;
      })

  closed-Rests :
      (goal : ℕ → Bool) (s : System n)
      → s.at ≡ drained
      → IsTallied n goal s
      → Rests n s.running s.channel s.stopped s.shutdown
          (finished (flow n (check_exit_conditions n s.fetcher s.shutdown).state))
  closed-Rests goal s at a =
      let (same, before, after) = check_lem n s.fetcher s.shutdown in
      elim (Bool-cases s.shutdown) [
        | inl p ↦ rw (after p) tt
        | inr p ↦
            let (no_flag, runs, none_stopped) = a.calm p in
            let (idle, empty) = (rw at at a.rests) p in
            rw (before p, runs) (idle, empty, none_stopped)
      ]

  -- Closing the loop changes no range, and `sync` proceeds only where no signal came.
  close-IsTallied :
      (goal : ℕ → Bool) (s : System n)
      → s.at ≡ drained
      → IsTallied n goal s
      → IsTallied n goal (close n s)
  unfolding close
  close-IsTallied goal s at a =
      let (same, before, after) = check_lem n s.fetcher s.shutdown in
      record {
        ranges = rw same a.ranges;
        running_jobs = a.running_jobs;
        held_jobs = tt;
        sent_jobs = a.sent_jobs;
        accounts = λ h. rw same (rw at at (a.accounts h));
        counted = a.counted;
        bounded = a.bounded;
        calm = λ q. (rw (before q) (a.calm q).0, refl, (a.calm q).2);
        rests = closed-Rests goal s at a;
      }

  LoopMove-IsTallied :
      (goal : ℕ → Bool) (s t : System n)
      → s.count + 1 < 2 ^ 64
      → LoopMove n s t
      → IsTallied n goal s
      → IsTallied n goal t
  LoopMove-IsTallied goal s t small (interrupts e flag) a = record {
    ranges = a.ranges;
    running_jobs = a.running_jobs;
    held_jobs = tt;
    sent_jobs = a.sent_jobs;
    accounts = λ h. rw e at (a.accounts h);
    counted = a.counted;
    bounded = a.bounded;
    calm = a.calm;
    rests = λ q. cc (flag, (a.calm q).0);
  }
  LoopMove-IsTallied goal s t small (selects e flag) a = record {
    ranges = a.ranges;
    running_jobs = a.running_jobs;
    held_jobs = tt;
    sent_jobs = a.sent_jobs;
    accounts = λ h. rw e at (a.accounts h);
    counted = a.counted;
    bounded = a.bounded;
    calm = a.calm;
    rests = tt;
  }
  LoopMove-IsTallied goal s t small (receives message rest e c) a = record {
    ranges = a.ranges;
    running_jobs = a.running_jobs;
    held_jobs = ((rw c at a.sent_jobs).0, tt);
    sent_jobs = (rw c at a.sent_jobs).1;
    accounts = λ h. omega (arith, rw (e, c) at (a.accounts h));
    counted = a.counted;
    bounded = a.bounded;
    calm = a.calm;
    rests = tt;
  }
  LoopMove-IsTallied goal s t small (counts_none e z) a = record {
    ranges = a.ranges;
    running_jobs = a.running_jobs;
    held_jobs = tt;
    sent_jobs = a.sent_jobs;
    accounts = λ h. rw e at (a.accounts h);
    counted = a.counted;
    bounded = a.bounded;
    calm = a.calm;
    rests = length_zero (omega (arith, a.counted, z));
  }
  LoopMove-IsTallied goal s t small (takes message rest e c) a = record {
    ranges = a.ranges;
    running_jobs = a.running_jobs;
    held_jobs = ((rw c at a.sent_jobs).0, tt);
    sent_jobs = (rw c at a.sent_jobs).1;
    accounts = λ h. omega (arith, rw (e, c) at (a.accounts h));
    counted = a.counted;
    bounded = a.bounded;
    calm = a.calm;
    rests = tt;
  }
  LoopMove-IsTallied goal s t small (misses e c) a = record {
    ranges = a.ranges;
    running_jobs = a.running_jobs;
    held_jobs = tt;
    sent_jobs = a.sent_jobs;
    accounts = λ h. rw e at (a.accounts h);
    counted = a.counted;
    bounded = a.bounded;
    calm = a.calm;
    rests = λ q. (rw e at a.rests, c);
  }
  LoopMove-IsTallied goal s t small (handles message t' e r) a =
      respond-IsTallied goal s t message e small r a
  LoopMove-IsTallied goal s t small (closes e) a = close-IsTallied goal s e a

  signalled-Rests :
      (running stopped : List (ℕ × ℕ)) (channel : List (Fetched n)) (shutdown : Bool) (at : Stage n)
      → Rests n running channel stopped shutdown at
      → Rests n running channel stopped true at
  signalled-Rests _ _ _ _ polled r = r
  signalled-Rests _ _ _ _ drained r = λ q. cc
  signalled-Rests _ _ _ _ (finished proceed) r = r
  signalled-Rests _ _ _ _ (finished break) r = tt
  signalled-Rests _ _ _ _ calling r = tt
  signalled-Rests _ _ _ _ selecting r = tt
  signalled-Rests _ _ _ _ (handling m) r = tt

  pub Move-IsTallied :
      (goal : ℕ → Bool) (s t : System n)
      → s.count + 1 < 2 ^ 64
      → Move n s t
      → IsTallied n goal s
      → IsTallied n goal t
  Move-IsTallied goal s t small (task m) a = TaskMove-IsTallied n goal s t m a
  Move-IsTallied goal s t small (loop m) a = LoopMove-IsTallied goal s t small m a
  Move-IsTallied goal s t small signal a = record {
    ranges = a.ranges;
    running_jobs = a.running_jobs;
    held_jobs = a.held_jobs;
    sent_jobs = a.sent_jobs;
    accounts = a.accounts;
    counted = a.counted;
    bounded = a.bounded;
    calm = λ q. cc;
    rests = signalled-Rests s.running s.stopped s.channel s.shutdown s.at a.rests;
  }
