-- ===== src/Ranges/Intervals.antt =====
-- `FetchedRanges::blocks_left_to_fetch`: the intervals that it returns are not empty.
use kassandra_service.Common.{
  ℕ, zero, suc, ◌+◌, ◌-◌, ◌≤◌, ◌<◌, ◌≡◌, refl, Bool, true, false, not, ◌&&◌, List, ◌∷◌, ltb, arith,
  ok, All, if◌then◌else◌, value_unique, ◌||◌, ◌==◌, Outcome-cases, Bool-cases, inl, inr,
}
use kassandra_service.Ranges.{contains, left_loop, blocks_left_to_fetch}

abbrev pub IsInterval : ℕ × ℕ → Type 0
IsInterval (a, b) = a ≤ b

pushed :
    (b : Bool) (a c : ℕ) (out : List (ℕ × ℕ))
    → (b ≡ true → a ≤ c)
    → All IsInterval out
    → All IsInterval (if b then (a, c) ∷ out else out)
pushed true a c out h i = (h refl, i)
pushed false a c out h i = i

pub same_intervals :
    {out out' : List (ℕ × ℕ)} → ok out ≡ ok out' → All IsInterval out → All IsInterval out'
same_intervals e i = rw (value_unique e) at i

left_loop-IsInterval :
    (l : List ℕ) (to n height current : ℕ) (need : Bool) (out : List (ℕ × ℕ))
    → current ≤ height
    → current < height + n
    → height + n ≡ to + 1
    → left_loop l to n height current need ≡ ok out
    → All IsInterval out
unfolding left_loop
left_loop-IsInterval l to zero height current true out h k e q = same_intervals q (omega arith, tt)
left_loop-IsInterval l to zero height current false out h k e q = same_intervals q tt
left_loop-IsInterval l to (suc n) height current need out h k e q =
    elim (Outcome-cases (contains l height)) [
      | inl p ↦ cc (rw (left_loop, p) at q)
      | inr (c, p) ↦
          let lower = not need && not c in
          let current' = if lower then height else current in
          let need' = if need && c then false else if lower then true else need in
          elim (Outcome-cases (left_loop l to n (height + 1) current' need')) [
            | inl r ↦ cc (rw (left_loop, p, r) at q)
            | inr (rest, r) ↦
                let i =
                  left_loop-IsInterval l to n (height + 1) current' need' rest (ground arith)
                    (ground arith) (omega arith) r in
                same_intervals (rw (left_loop, p, r) at q) (
                  pushed ((need && c) && ltb current height) current (height - 1) rest
                    (λ b. ground arith) i)
          ]
    ]

pub blocks_left_to_fetch-IsInterval :
    (l : List ℕ) (from to : ℕ) (out : List (ℕ × ℕ))
    → blocks_left_to_fetch l from to ≡ ok out
    → All IsInterval out
unfolding blocks_left_to_fetch
blocks_left_to_fetch-IsInterval l from to out q =
    elim (Bool-cases (ltb to from || (from == 0 || to == 0))) [
      | inl bad ↦ cc (rw bad at q)
      | inr fine ↦
          left_loop-IsInterval l to (to + 1 - from) from from true out (omega arith) (ground arith)
            (ground arith) (rw fine at q)
    ]
