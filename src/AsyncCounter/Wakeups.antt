-- ===== src/AsyncCounter/Wakeups.antt =====
-- When the task that awaits the counter is woken, and when it is not.
use kassandra_service.Common.{◌^◌, ◌≤◌, ◌<◌, ◌≡◌, ◌⊎◌, inl, inr, refl, true, false, arith}
use mathlib.Core.Path.{subst, sym}
use kassandra_service.AsyncCounter.{
  new, AtomicWaker, AsyncCounter, registering, pending, poll, register, decrement_then_wake,
  wake_one, increment, Move, clones, sends, drops, receives, Waits, wakes, polls, registers,
  resumes, Moves, here, next,
}

-- What `AtomicWaker` documents: `wake` wakes the task whose waker is registered, and none if no
-- waker is.
pub record IsAtomicWaker (w : AtomicWaker) : Type 0 where
  pub wake-new : (w.wake w.new).1 ≡ false
  pub wake-register : (x : w.Waker) → (w.wake (w.register x)).1 ≡ true

module _ (w : AtomicWaker) (law : IsAtomicWaker w) where
  -- Pending with its waker registered and the count above 0, or about to be woken, or woken.
  abbrev Watched : AsyncCounter w → Type 0
  Watched s =
      (s.count < 2 ^ 64)
      × (s.poller ≡ pending)
      × ((s.woken ≡ true) ⊎ (((w.wake s.waker).1 ≡ true) × ((1 ≤ s.count) ⊎ (1 ≤ s.waking))))

  Move-Watched : (s t : AsyncCounter w) → Move w s t → t.poller ≡ pending → Watched s → Watched t
  unfolding increment decrement_then_wake wake_one poll register
  Move-Watched s t (clones m) p a = cc (m, a.1)
  Move-Watched s t (sends m) p a = a
  Move-Watched s t (drops m) p (b, q, inl e) = (omega arith, q, inl e)
  Move-Watched s t (drops m) p (b, q, inr (e, c)) = (omega arith, q, inr (e, ground arith))
  Move-Watched s t (wakes m) p (b, q, inl e) = (b, q, inl (ground arith))
  Move-Watched s t (wakes m) p (b, q, inr (e, c)) = (b, q, inl (ground arith))
  Move-Watched s t (polls m) p a = cc (m, a.1)
  Move-Watched s t (registers m) p a = cc (m, a.1)
  Move-Watched s t (resumes m e) p a = cc
  Move-Watched s t (receives m e) p a = cc

  Waits-Watched : (s t : AsyncCounter w) → Waits w s t → Watched s → Watched t
  Waits-Watched s t here a = a
  Waits-Watched s t (next v m p) a = Move-Watched _ t m p (Waits-Watched s _ v a)

  -- If the count is above 0, on a u64, when the waker is registered, and `wake` wakes the task
  -- whose waker is registered, then however the clones are dropped while the task waits: once the
  -- count is 0 and all drops have ended, the task is woken.
  pub woken_at_last :
      (s t : AsyncCounter w)
      → s.poller ≡ registering
      → 1 ≤ s.count
      → s.count < 2 ^ 64
      → Waits w (register w s) t
      → t.count ≡ 0
      → t.waking ≡ 0
      → t.woken ≡ true
  unfolding register
  woken_at_last s t r c b v none quiet =
      elim (Waits-Watched (register w s) t v (b, refl, inr (law.wake-register s.waker, inl c))).2 [
        | inl e ↦ e
        | inr (e, inl d) ↦ absurd (omega arith)
        | inr (e, inr d) ↦ absurd (omega arith)
      ]

  record IsStranded (t : AsyncCounter w) : Type 0 where
    pub none_left : t.count ≡ 0
    pub none_waking : t.waking ≡ 0
    pub asleep : t.woken ≡ false
    pub empty : t.messages ≡ 0
    pub waits : t.poller ≡ pending

  IsStranded-Move : (t u : AsyncCounter w) → IsStranded t → Move w t u → ⊥
  IsStranded-Move t u a (clones m) = cc (m, a.waits)
  IsStranded-Move t u a (sends m) = omega (arith, a.none_left)
  IsStranded-Move t u a (drops m) = omega (arith, a.none_left)
  IsStranded-Move t u a (wakes m) = omega (arith, a.none_waking)
  IsStranded-Move t u a (polls m) = cc (m, a.waits)
  IsStranded-Move t u a (registers m) = cc (m, a.waits)
  IsStranded-Move t u a (resumes m e) = cc (e, a.asleep)
  IsStranded-Move t u a (receives m e) = omega (arith, a.empty)

  IsStranded-Moves : (t u : AsyncCounter w) → IsStranded t → Moves w t u → u ≡ t
  IsStranded-Moves t u a here = refl
  IsStranded-Moves t u a (next {t = s} v m) =
      absurd (IsStranded-Move s u (subst IsStranded (sym (IsStranded-Moves t s a v)) a) m)

  -- A wake-up can be lost, if `wake` wakes no task as long as no waker is registered: from a new
  -- counter, one task is spawned, the counter is polled and the count read, then the task ends
  -- without a message, its clone is dropped and wakes nobody, and only then the waker is
  -- registered. The count is then 0 with the awaiting task pending, and no move is possible, so
  -- that this task is never polled again.
  pub lost_wakeup :
      (t : AsyncCounter w) × Moves w (new w) t
      × (t.count ≡ 0)
      × (t.poller ≡ pending)
      × ((u : AsyncCounter w) → Moves w t u → u ≡ t)
  unfolding new increment decrement_then_wake wake_one poll register
  lost_wakeup =
      let spawned = increment w (new w) in
      let dropped = decrement_then_wake w (poll w spawned) in
      let t = register w (wake_one w dropped) in
      let run : Moves w (new w) t =
        next
          (next (next (next (next here (clones refl)) (polls refl)) (drops (omega arith)))
            (wakes (omega arith)))
          (registers refl) in
      let a : IsStranded t = record {
        none_left = refl;
        none_waking = refl;
        asleep = rw (law.wake-new) refl;
        empty = refl;
        waits = refl;
      } in
      (t, run, refl, refl, λ u v. IsStranded-Moves t u a v)
