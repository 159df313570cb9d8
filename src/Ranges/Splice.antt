-- ===== src/Ranges/Splice.antt =====
-- The ends that `insert` places cover what was covered and the new range, and stay in order.
use kassandra_service.Common.{
  ℕ, ◌+◌, ◌^◌, ◌≤◌, ◌<◌, ◌≡◌, ◌≢◌, refl, ◌&&◌, ◌||◌, List, [], ◌∷◌, leb, min, arith, ◌⊎◌, inl, inr,
}
use native.Mathlib.Decide.{dec_lt}
use kassandra_service.Ranges.Cover.{Spaced, Spaced-weaken, covers}
use kassandra_service.Ranges.Ends.{IsNoUpper, close, spliced}

-- `to` lies before the first range, inside it, or behind it.
close_cases :
    (to a b : ℕ) (r : List ℕ)
    → a ≤ b
    → to ≢ b
    → ((to < a) × (close to (a ∷ b ∷ r) ≡ to ∷ a ∷ b ∷ r))
      ⊎ (((a ≤ to) × (to < b) × (close to (a ∷ b ∷ r) ≡ b ∷ r))
          ⊎ ((b < to) × (close to (a ∷ b ∷ r) ≡ close to r)))
unfolding close
close_cases to a b r h e = elim (dec_lt to a) [
  | yes p ↦ inl (p, ground arith)
  | no p ↦ elim (dec_lt to b) [
    | yes q ↦ inr (inl (omega arith, q, ground arith))
    | no q ↦ inr (inr (omega arith, ground arith))
  ]
]

close-Spaced :
    (x to lo lo' : ℕ) (l : List ℕ)
    → lo' ≤ x
    → x ≤ lo
    → x ≤ to
    → to < 2 ^ 64
    → Spaced 1 lo l
    → IsNoUpper to l
    → Spaced 0 lo' (x ∷ close to l)
close-Spaced x to lo lo' [] h k p q s n = unfold close in (h, p, q, tt)
close-Spaced x to lo lo' (a ∷ []) h k p q s n = absurd s
close-Spaced x to lo lo' (a ∷ b ∷ r) h k p q (u, v, w, s) (e, n) = elim (close_cases to a b r v e) [
  | inl (lt, c) ↦
      rw c (h, p, q, (omega arith, v, w, Spaced-weaken (b + 1 + 1) (b + 1 + 0) r (omega arith) s))
  | inr (inl (le, lt, c)) ↦
      rw c (h, omega arith, w, Spaced-weaken (b + 1 + 1) (b + 1 + 0) r (omega arith) s)
  | inr (inr (lt, c)) ↦ rw c (close-Spaced x to (b + 1 + 1) lo' r h (omega arith) p q s n)
]

covers-close :
    (x to lo : ℕ) (l : List ℕ) (h : ℕ)
    → x ≤ lo
    → x ≤ to
    → Spaced 1 lo l
    → IsNoUpper to l
    → covers (x ∷ close to l) h ≡ leb x h && leb h to || covers l h
covers-close x to lo [] h k p s n = unfold close covers in refl
covers-close x to lo (a ∷ []) h k p s n = absurd s
covers-close x to lo (a ∷ b ∷ r) h k p (u, v, w, s) (e, n) = elim (close_cases to a b r v e) [
  | inl (lt, c) ↦ rw c (unfold covers in refl)
  | inr (inl (le, lt, c)) ↦ rw c (unfold covers in ground arith)
  | inr (inr (lt, c)) ↦
      rw (c, covers-close x to (b + 1 + 1) r h (omega arith) p s n) (unfold covers in ground arith)
]

pub spliced-Spaced :
    (from to lo lo' : ℕ) (l : List ℕ)
    → from ≤ to
    → to < 2 ^ 64
    → lo' ≤ from
    → lo' ≤ lo
    → Spaced 1 lo l
    → IsNoUpper to l
    → Spaced 0 lo' (spliced from to l)
unfolding spliced
spliced-Spaced from to lo lo' [] h k p q s n = (p, h, k, tt)
spliced-Spaced from to lo lo' (a ∷ []) h k p q s n = absurd s
spliced-Spaced from to lo lo' (a ∷ b ∷ r) h k p q (u, v, w, s) (e, n) = ground (
  arith,
  spliced-Spaced from to (b + 1 + 1) (b + 1 + 0) r h k,
  s,
  n,
  close-Spaced (min a from) to a lo' (a ∷ b ∷ r) (omega arith) (omega arith) (omega arith) k
      (omega arith, v, w, s) (e, n),
)

pub covers-spliced :
    (from to lo : ℕ) (l : List ℕ) (h : ℕ)
    → from ≤ to
    → Spaced 1 lo l
    → IsNoUpper to l
    → covers (spliced from to l) h ≡ leb from h && leb h to || covers l h
unfolding spliced covers
covers-spliced from to lo [] h k s n = refl
covers-spliced from to lo (a ∷ []) h k s n = absurd s
covers-spliced from to lo (a ∷ b ∷ r) h k (u, v, w, s) (e, n) = ground (
  arith,
  covers-spliced from to (b + 1 + 1) r h k s n,
  covers-close (min a from) to a (a ∷ b ∷ r) h (omega arith) (omega arith) (omega arith, v, w, s)
      (e, n),
)
