-- ===== src/Runs/Counters.antt =====
-- The counter, with a waker that is a flag.
use kassandra_service.Common.{◌≡◌, refl, Bool, true, false, arith}
use kassandra_service.AsyncCounter.{
  AtomicWaker, AsyncCounter, Moves, new, increment, poll, register, decrement_then_wake, wake_one,
  pending, drops, wakes, here, next,
}
use kassandra_service.AsyncCounter.Wakeups.{IsAtomicWaker, woken_at_last, lost_wakeup}

abbrev flag : AtomicWaker
flag = record { Waker = Bool; new = false; register = λ x. true; wake = λ x. (false, x) }

flag-IsAtomicWaker : IsAtomicWaker flag
flag-IsAtomicWaker = record { wake-new = refl; wake-register = λ x. refl }

-- One task was spawned, and the counter read.
abbrev awaiting : AsyncCounter flag
awaiting = poll flag (increment flag (new flag))

abbrev woken : AsyncCounter flag
woken = wake_one flag (decrement_then_wake flag (register flag awaiting))

woken_at_last_example : woken.woken ≡ true
unfolding new increment decrement_then_wake wake_one poll register
woken_at_last_example =
    woken_at_last flag flag-IsAtomicWaker awaiting woken refl (omega arith) (omega arith)
      (next (next here (drops (omega arith)) refl) (wakes (omega arith)) refl) refl refl

lost_wakeup_example :
    (t : AsyncCounter flag) × Moves flag (new flag) t
    × (t.count ≡ 0)
    × (t.poller ≡ pending)
    × ((u : AsyncCounter flag) → Moves flag t u → u ≡ t)
lost_wakeup_example = lost_wakeup flag flag-IsAtomicWaker
