-- ===== src/AsyncCounter.antt =====
-- host/src/db/utils.rs: the counter of the tasks under way, that the fetcher awaits.
pub mod Wakeups
use kassandra_service.Common.{
  ℕ, ◌+◌, ◌-◌, ◌%◌, ◌^◌, ◌≤◌, ◌<◌, ◌≡◌, ◌==◌, Bool, true, false, if◌then◌else◌, ◌||◌,
}

-- `AtomicWaker`: `wake` also tells whether it woke a task.
pub record AtomicWaker : Type 1 where
  pub Waker : Type 0
  pub new : Waker
  pub register : Waker → Waker
  pub wake : Waker → Waker × Bool

-- Where the task that awaits the counter stands: about to read the count, about to register its
-- waker, pending, or ready.
pub data Poller : Type 0 where
  reading registering pending ready : Poller

module _ (w : AtomicWaker) where
  pub record AsyncCounter : Type 0 where
    pub count : ℕ
    pub waker : w.Waker
    -- The drops that have seen the count fall to 0 and have not called `wake` yet.
    pub waking : ℕ
    pub poller : Poller
    -- Whether the task is to be polled again.
    pub woken : Bool
    -- The messages in the channel that the same task awaits.
    pub messages : ℕ

  unfoldable pub new : AsyncCounter
  new = record {
    count = 0;
    waker = w.new;
    waking = 0;
    poller = reading;
    woken = false;
    messages = 0;
  }

  unfoldable pub increment : AsyncCounter → AsyncCounter
  increment self = record self { count = (self.count + 1) % 2 ^ 64 }

  -- `decrement_then_wake`, up to the call of `wake`.
  unfoldable pub decrement_then_wake : AsyncCounter → AsyncCounter
  decrement_then_wake self = record self {
    count = (self.count + 2 ^ 64 - 1) % 2 ^ 64;
    waking = if self.count == 1 then self.waking + 1 else self.waking;
  }

  -- The rest of `drop`, for one of the drops that call `wake`.
  unfoldable pub wake_one : AsyncCounter → AsyncCounter
  wake_one self =
      let (waker, woke) = w.wake self.waker in
      record self { waker = waker; waking = self.waking - 1; woken = woke || self.woken }

  -- `poll`, its two reads of shared state apart.
  unfoldable pub poll : AsyncCounter → AsyncCounter
  poll self = record self { poller = if self.count == 0 then ready else registering }

  unfoldable pub register : AsyncCounter → AsyncCounter
  register self = record self { waker = w.register self.waker; poller = pending }

  -- The clones belong to tasks, which send a message or none before they drop theirs. The fetcher
  -- makes a clone for each task that it spawns, and awaits the counter and the channel at once.
  pub data Move (s : AsyncCounter) : AsyncCounter → Type 0 where
    clones : s.poller ≡ reading → Move s (increment s)
    sends : 1 ≤ s.count → Move s (record s { messages = s.messages + 1 })
    drops : 1 ≤ s.count → Move s (decrement_then_wake s)
    wakes : 1 ≤ s.waking → Move s (wake_one s)
    polls : s.poller ≡ reading → Move s (poll s)
    registers : s.poller ≡ registering → Move s (register s)
    resumes :
        s.poller ≡ pending → s.woken ≡ true → Move s (record s { poller = reading; woken = false })
    receives :
        s.poller ≡ pending
        → 1 ≤ s.messages
        → Move s (record s { poller = reading; messages = s.messages - 1 })

  pub data Moves (s : AsyncCounter) : AsyncCounter → Type 0 where
    here : Moves s s
    next : {t u : AsyncCounter} → Moves s t → Move t u → Moves s u

  -- Moves at each of which the task that awaits stays pending.
  pub data Waits (s : AsyncCounter) : AsyncCounter → Type 0 where
    here : Waits s s
    next : {t u : AsyncCounter} → Waits s t → Move t u → u.poller ≡ pending → Waits s u
