-- ===== src/Fetcher/Tasks/Tally.antt =====
-- The tasks and the loop of `sync` together: every block is fetched or in one job, in every state.
use kassandra_service.Common.{
  ℕ, suc, ◌+◌, ◌^◌, ◌<◌, ◌≡◌, refl, ap, Bool, false, List, [], ◌∷◌, ◌++◌, length, length-append,
  arith, All, All-append,
}
use kassandra_service.Ranges.Cover.{IsRanges, covers}
use kassandra_service.Ranges.Left.{bit, load}
use kassandra_service.Fetcher.Plan.{load-append}
use kassandra_service.Fetcher.Progress.{IsJob, load-middle, All-middle}
use kassandra_service.Fetcher.{NoteStore, Fetched, normal}
use kassandra_service.Fetcher.Tasks.{
  System, Stage, calling, selecting, polled, drained, handling, finished, proceed, break, job_of,
  TaskMove, sends, stops, panics, leaves,
}

busy :
    (running front back : List (ℕ × ℕ)) (job : ℕ × ℕ)
    → running ≡ front ++ job ∷ back
    → running ≡ []
    → ⊥
busy running [] back job e p = cc
busy running (x ∷ front) back job e p = cc

length-middle :
    (front back : List (ℕ × ℕ)) (job : ℕ × ℕ)
    → length (front ++ job ∷ back) ≡ suc (length (front ++ back))
length-middle front back job =
    omega (arith, length-append front (job ∷ back), length-append front back)

module _ (n : NoteStore) where
  abbrev pub held : Stage n → List (ℕ × ℕ)
  held (handling message) = job_of n message ∷ []
  held _ = []

  abbrev pub sent : List (Fetched n) → List (ℕ × ℕ)
  sent [] = []
  sent (message ∷ rest) = job_of n message ∷ sent rest

  sent-append :
      (xs : List (Fetched n)) (message : Fetched n)
      → sent (xs ++ message ∷ []) ≡ sent xs ++ job_of n message ∷ []
  sent-append [] message = refl
  sent-append (x ∷ xs) message = ap (◌∷◌ (job_of n x)) (sent-append xs message)

  -- What is known of the tasks once the loop waits for none.
  abbrev pub Rests : List (ℕ × ℕ) → List (Fetched n) → List (ℕ × ℕ) → Bool → Stage n → Type 0
  Rests running channel stopped shutdown polled = running ≡ []
  Rests running channel stopped shutdown drained =
      shutdown ≡ false → (running ≡ []) × (channel ≡ [])
  Rests running channel stopped shutdown (finished proceed) =
      (running ≡ []) × (channel ≡ []) × (stopped ≡ [])
  Rests _ _ _ _ _ = Unit {0}

  -- Each height of the goal is fetched or in just one job, wherever this is, and no other height
  -- is; and the counter holds the number of tasks.
  pub record IsTallied (goal : ℕ → Bool) (s : System n) : Type 0 where
    pub ranges : IsRanges s.fetcher.fetched
    pub running_jobs : All (IsJob n) s.running
    pub held_jobs : All (IsJob n) (held s.at)
    pub sent_jobs : All (IsJob n) (sent s.channel)
    pub accounts :
        (h : ℕ)
        → bit (covers s.fetcher.fetched h)
            + (load s.running h
                + (load (held s.at) h
                    + (load (sent s.channel) h + (load s.panicked h + load s.stopped h))))
          ≡ bit (goal h)
    pub counted : s.count ≡ length s.running + s.leaving
    pub bounded : s.count < 2 ^ 64
    pub calm :
        s.shutdown ≡ false
        → (s.fetcher.interrupt_flag ≡ false) × (s.fetcher.state ≡ normal) × (s.stopped ≡ [])
    pub rests : Rests s.running s.channel s.stopped s.shutdown s.at

  busy-Rests :
      (running running' stopped stopped' front back : List (ℕ × ℕ))
      (channel channel' : List (Fetched n)) (shutdown : Bool) (job : ℕ × ℕ) (at : Stage n)
      → running ≡ front ++ job ∷ back
      → Rests running channel stopped shutdown at
      → Rests running' channel' stopped' shutdown at
  busy-Rests running _ stopped _ front back _ _ shutdown job polled e r =
      absurd (busy running front back job e r)
  busy-Rests running _ stopped _ front back _ _ shutdown job drained e r =
      λ q. absurd (busy running front back job e (r q).0)
  busy-Rests running _ stopped _ front back _ _ shutdown job (finished proceed) e r =
      absurd (busy running front back job e r.0)
  busy-Rests running _ stopped _ front back _ _ shutdown job (finished break) e r = tt
  busy-Rests running _ stopped _ front back _ _ shutdown job calling e r = tt
  busy-Rests running _ stopped _ front back _ _ shutdown job selecting e r = tt
  busy-Rests running _ stopped _ front back _ _ shutdown job (handling m) e r = tt

  pub TaskMove-IsTallied :
      (goal : ℕ → Bool) (s t : System n) → TaskMove n s t → IsTallied goal s → IsTallied goal t
  TaskMove-IsTallied goal s t (sends front back message e small) a =
      let (job, rest) = All-middle n front back (job_of n message) (rw e at a.running_jobs) in
      record {
        ranges = a.ranges;
        running_jobs = rest;
        held_jobs = a.held_jobs;
        sent_jobs =
            rw (sent-append s.channel message)
              (All-append (IsJob n) (sent s.channel) (job_of n message ∷ []) a.sent_jobs (job, tt));
        accounts = λ h. rw (sent-append s.channel message) (
            omega (
              arith,
              rw e at (a.accounts h),
              load-middle n front back (job_of n message).0 (job_of n message).1 h,
              load-append (sent s.channel) (job_of n message ∷ []) h,
            ));
        counted = omega (arith, rw e at a.counted, length-middle front back (job_of n message));
        bounded = a.bounded;
        calm = a.calm;
        rests =
            busy-Rests s.running _ s.stopped _ front back s.channel _ s.shutdown (job_of n message)
              s.at e a.rests;
      }
  TaskMove-IsTallied goal s t (stops front back job e signalled) a = record {
    ranges = a.ranges;
    running_jobs = (All-middle n front back job (rw e at a.running_jobs)).1;
    held_jobs = a.held_jobs;
    sent_jobs = a.sent_jobs;
    accounts = λ h. omega (arith, rw e at (a.accounts h), load-middle n front back job.0 job.1 h);
    counted = omega (arith, rw e at a.counted, length-middle front back job);
    bounded = a.bounded;
    calm = λ q. cc;
    rests = busy-Rests s.running _ s.stopped _ front back s.channel _ s.shutdown job s.at e a.rests;
  }
  TaskMove-IsTallied goal s t (panics front back job e) a = record {
    ranges = a.ranges;
    running_jobs = (All-middle n front back job (rw e at a.running_jobs)).1;
    held_jobs = a.held_jobs;
    sent_jobs = a.sent_jobs;
    accounts = λ h. omega (arith, rw e at (a.accounts h), load-middle n front back job.0 job.1 h);
    counted = omega (arith, rw e at a.counted, length-middle front back job);
    bounded = a.bounded;
    calm = a.calm;
    rests = busy-Rests s.running _ s.stopped _ front back s.channel _ s.shutdown job s.at e a.rests;
  }
  TaskMove-IsTallied goal s t (leaves rest e) a = record {
    ranges = a.ranges;
    running_jobs = a.running_jobs;
    held_jobs = a.held_jobs;
    sent_jobs = a.sent_jobs;
    accounts = a.accounts;
    counted = omega (arith, a.counted, a.bounded);
    bounded = omega (arith, a.counted, a.bounded);
    calm = a.calm;
    rests = a.rests;
  }
