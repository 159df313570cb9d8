-- ===== src/Ranges/Left.antt =====
-- `FetchedRanges::blocks_left_to_fetch`: what it returns is what is missing.
use kassandra_service.Common.{
  ℕ, zero, suc, ◌+◌, ◌-◌, ◌≤◌, ◌≡◌, refl, Bool, true, false, not, ◌&&◌, ◌||◌, List, [], ◌∷◌, ltb,
  leb, arith, ok, if◌then◌else◌, ◌∙◌, ap,
}
use kassandra_service.Ranges.{left_loop, blocks_left_to_fetch}
use kassandra_service.Ranges.Cover.{IsRanges, covers, contains-covers}

-- The heights of a list of intervals.
abbrev pub within : List (ℕ × ℕ) → ℕ → Bool
within [] h = false
within ((a, b) ∷ r) h = leb a h && leb h b || within r h

-- How many of the intervals hold a height.
abbrev pub bit : Bool → ℕ
bit true = 1
bit false = 0

abbrev pub load : List (ℕ × ℕ) → ℕ → ℕ
load [] h = 0
load ((a, b) ∷ r) h = bit (leb a h && leb h b) + load r h

-- One round at height `x`: `rest` is what the later rounds say of it, `c` and `d` what is covered.
round-load :
    (need c d : Bool) (current height to x rest : ℕ)
    → current ≤ height
    → height ≤ to
    → (x ≡ height → d ≡ c)
    → rest
      ≡ bit (
          ((if need && c then false else if not need && not c then true else need)
            && (leb (if not need && not c then height else current) x && ltb x (height + 1)))
          || (leb (height + 1) x && leb x to && not d))
    → (if (need && c) && ltb current height then bit (leb current x && leb x (height - 1)) else 0)
        + rest
      ≡ bit ((need && (leb current x && ltb x height)) || (leb height x && leb x to && not d))
round-load true true d current height to x rest k l f e = ground arith
round-load true false d current height to x rest k l f e = ground arith
round-load false true d current height to x rest k l f e = ground arith
round-load false false d current height to x rest k l f e = ground arith

load-if :
    (b : Bool) (p : ℕ × ℕ) (out : List (ℕ × ℕ)) (h : ℕ)
    → load (if b then p ∷ out else out) h
      ≡ (if b then bit (leb p.0 h && leb h p.1) else 0) + load out h
load-if true p out h = refl
load-if false p out h = omega arith

-- The loop with `height` not yet looked at: it adds the heights waiting since `current_from`, and
-- those to come that are not covered.
left_loop-load :
    (l : List ℕ) (to n height current : ℕ) (need : Bool)
    → IsRanges l
    → height + n ≡ to + 1
    → current ≤ height
    → (out : List (ℕ × ℕ)) × (left_loop l to n height current need ≡ ok out)
      × ((h : ℕ)
          → load out h
            ≡ bit (
                (need && (leb current h && ltb h height))
                || (leb height h && leb h to && not (covers l h))))
unfolding left_loop
left_loop-load l to zero height current true s e k = ((current, to) ∷ [], refl, λ h. ground arith)
left_loop-load l to zero height current false s e k = ([], refl, λ h. ground arith)
left_loop-load l to (suc n) height current need s e k =
    let c = covers l height in
    let lower = not need && not c in
    let (out, p, w) =
      left_loop-load l to n (height + 1) (if lower then height else current)
        (if need && c then false else if lower then true else need) s (omega arith)
        (ground arith) in
    (
      if (need && c) && ltb current height then (current, height - 1) ∷ out else out,
      rw (contains-covers 1 0 l height s, p),
      λ h.
          load-if ((need && c) && ltb current height) (current, height - 1) out h
          ∙ round-load need c (covers l h) current height to h (load out h) k (omega arith)
              (λ q. ap (covers l) q) (w h),
    )

pub within-load : (out : List (ℕ × ℕ)) (h : ℕ) → within out h ≡ ltb 0 (load out h)
within-load [] h = refl
within-load ((a, b) ∷ r) h = ground (arith, within-load r h)

-- For an interval of heights from 1 on, `blocks_left_to_fetch` does not panic on ranges in order.
-- Each height of the interval that is not covered is in just one of the intervals that it
-- returns, and no other height is in any.
pub blocks_left_to_fetch-load :
    (l : List ℕ) (from to : ℕ)
    → IsRanges l
    → 1 ≤ from
    → from ≤ to
    → (out : List (ℕ × ℕ)) × (blocks_left_to_fetch l from to ≡ ok out)
      × ((h : ℕ) → load out h ≡ bit (leb from h && leb h to && not (covers l h)))
unfolding blocks_left_to_fetch
blocks_left_to_fetch-load l from to s h k =
    let (out, p, w) =
      left_loop-load l to (to + 1 - from) from from true s (omega arith) (omega arith) in
    (out, ground arith, λ x. w x ∙ ground arith)
