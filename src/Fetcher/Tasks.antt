-- ===== src/Fetcher/Tasks.antt =====
-- host/src/db/fetch.rs: the tasks that a call of `sync` spawns, the channel and the counter that
-- they share with its loop, and the loop.
pub mod Tally
pub mod Answer
pub mod Loop
pub mod Finish
pub mod Settled
use kassandra_service.Common.{
  ℕ, suc, ◌+◌, ◌-◌, ◌%◌, ◌^◌, ◌<◌, ◌≡◌, Bool, true, false, List, [], ◌∷◌, ◌++◌, Option, none, some,
  length, ltb, if◌then◌else◌, Outcome, ok, panic, ◌>>=◌,
}
use kassandra_service.Ranges.{first}
use kassandra_service.Fetcher.{
  NoteStore, Fetcher, FetcherState, normal, interrupted, Fetched, fetched, task_error, plan,
  handle_fetched, check_exit_conditions,
}

-- `DEFAULT_BUF_SIZE`
abbrev pub default_buf_size : ℕ
default_buf_size = 32

pub data ControlFlow : Type 0 where
  proceed break : ControlFlow

module _ (n : NoteStore) where
  -- Where the loop of `sync` stands: about to call `get_next_message`, in its `select`, before its
  -- `try_recv`, with a message, after the loop, and where `sync` has returned.
  pub data Stage : Type 0 where
    calling selecting polled drained : Stage
    handling : Fetched n → Stage
    finished : ControlFlow → Stage

  pub record System : Type 0 where
    pub fetcher : Fetcher n
    -- The jobs of the tasks that have not sent a message.
    pub running : List (ℕ × ℕ)
    -- How many tasks have no more to do than to drop their `Tasks`.
    pub leaving : ℕ
    -- `active_tasks`
    pub count : ℕ
    pub channel : List (Fetched n)
    -- The jobs of the tasks that panicked.
    pub panicked : List (ℕ × ℕ)
    -- The jobs that were given up after the shutdown signal.
    pub stopped : List (ℕ × ℕ)
    -- Whether the shutdown signal was received.
    pub shutdown : Bool
    pub at : Stage

  -- The job that a message answers.
  abbrev pub job_of : Fetched n → ℕ × ℕ
  job_of (fetched from to items) = (from, to)
  job_of (task_error from to) = (from, to)

  abbrev pub spawned : Option (ℕ × ℕ) → List (ℕ × ℕ)
  spawned none = []
  spawned (some job) = job ∷ []

  -- The job that is not fetched again after its error.
  abbrev pub given_up : Fetched n → Option (ℕ × ℕ) → List (ℕ × ℕ)
  given_up (task_error from to) none = (from, to) ∷ []
  given_up _ _ = []

  -- What `sync` spawns, from a fetcher none of whose tasks are left, if the tip is at `latest`. The
  -- clones of `tasks` are counted as they are made.
  unfoldable pub spawn : Fetcher n → ℕ → Outcome System
  spawn self latest = do
    jobs ← plan self.fetched latest
    ok (record {
      fetcher = self;
      running = jobs;
      leaving = 0;
      count = length jobs;
      channel = [];
      panicked = [];
      stopped = [];
      shutdown = false;
      at = calling;
    })

  -- What `sync` comes to before its loop.
  pub data Start : Type 0 where
    unreachable synced : Start
    looping : System → Start

  -- The first part of `sync`, with the height of the tip if the indexer gave it.
  unfoldable pub start : Fetcher n → Option ℕ → Outcome Start
  unfolding spawn
  start self none = ok unreachable
  start self (some latest) = do
    synced_to ← first self.fetched
    if ltb latest synced_to then ok synced else (spawn self latest >>= λ s. ok (looping s))

  -- The body of the loop, with the message that it received.
  unfoldable pub respond : System → Fetched n → Outcome System
  respond s message = do
    (self, again) ← handle_fetched n (check_exit_conditions n s.fetcher s.shutdown) message
    ok (record s {
      fetcher = self;
      running = s.running ++ spawned again;
      count = (s.count + length (spawned again)) % 2 ^ 64;
      stopped = given_up message again ++ s.stopped;
      at = calling;
    })

  abbrev pub flow : FetcherState → ControlFlow
  flow normal = proceed
  flow interrupted = break

  -- The end of `sync`, after the loop.
  unfoldable pub close : System → System
  close s =
      let self = check_exit_conditions n s.fetcher s.shutdown in
      record s { fetcher = record self { state = normal }; at = finished (flow self.state) }

  -- `spawn_fetch_txs`: what a task does, whichever runs next, and what happens to it. The drop of
  -- a task's `Tasks` is `Drop for AsyncCounter`.
  pub data TaskMove (s : System) : System → Type 0 where
    sends :
        (front back : List (ℕ × ℕ)) (message : Fetched n)
        → s.running ≡ front ++ job_of message ∷ back
        → length s.channel < default_buf_size
        → TaskMove s (record s {
          running = front ++ back;
          leaving = s.leaving + 1;
          channel = s.channel ++ message ∷ [];
        })
    stops :
        (front back : List (ℕ × ℕ)) (job : ℕ × ℕ)
        → s.running ≡ front ++ job ∷ back
        → s.shutdown ≡ true
        → TaskMove s (record s {
          fetcher = record (s.fetcher) { interrupt_flag = true };
          running = front ++ back;
          leaving = s.leaving + 1;
          stopped = job ∷ s.stopped;
        })
    panics :
        (front back : List (ℕ × ℕ)) (job : ℕ × ℕ)
        → s.running ≡ front ++ job ∷ back
        → TaskMove s (record s {
          running = front ++ back;
          leaving = s.leaving + 1;
          panicked = job ∷ s.panicked;
        })
    leaves :
        (rest : ℕ)
        → s.leaving ≡ rest + 1
        → TaskMove s (record s { leaving = rest; count = (s.count + 2 ^ 64 - 1) % 2 ^ 64 })

  -- `get_next_message`, with the loop around it: the `select` takes a message, or the counter
  -- once it is 0, whichever it finds.
  pub data LoopMove (s : System) : System → Type 0 where
    interrupts :
        s.at ≡ calling → s.fetcher.interrupt_flag ≡ true → LoopMove s (record s { at = drained })
    selects :
        s.at ≡ calling → s.fetcher.interrupt_flag ≡ false → LoopMove s (record s { at = selecting })
    receives :
        (message : Fetched n) (rest : List (Fetched n))
        → s.at ≡ selecting
        → s.channel ≡ message ∷ rest
        → LoopMove s (record s { channel = rest; at = handling message })
    counts_none : s.at ≡ selecting → s.count ≡ 0 → LoopMove s (record s { at = polled })
    takes :
        (message : Fetched n) (rest : List (Fetched n))
        → s.at ≡ polled
        → s.channel ≡ message ∷ rest
        → LoopMove s (record s { channel = rest; at = handling message })
    misses : s.at ≡ polled → s.channel ≡ [] → LoopMove s (record s { at = drained })
    handles :
        (message : Fetched n) (t : System)
        → s.at ≡ handling message
        → respond s message ≡ ok t
        → LoopMove s t
    closes : s.at ≡ drained → LoopMove s (close s)

  -- A move of a task or of the loop, or the shutdown signal.
  pub data Move (s : System) : System → Type 0 where
    task : {t : System} → TaskMove s t → Move s t
    loop : {t : System} → LoopMove s t → Move s t
    signal : Move s (record s { shutdown = true })

  pub data Moves (s : System) : System → Type 0 where
    here : Moves s s
    -- Fewer than 2 ^ 64 tasks are alive at a time.
    next : {t u : System} → Moves s t → t.count + 1 < 2 ^ 64 → Move t u → Moves s u
